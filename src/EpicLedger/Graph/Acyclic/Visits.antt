-- ===== src/EpicLedger/Graph/Acyclic/Visits.antt =====
-- epic-ledger/graph.ts: what a visit leaves, if it records no cycle.
use kampus_pipeline.Common.{
  ℕ, zero, suc, Bool, ◌≡◌, ◌≢◌, ◌⊎◌, refl, sym, inl, inr, true, false, not, Option, none, some,
  List, [], ◌∷◌, arith, ◌==◌, nat_eq, string_eq, Dict, get, set, get-set, contains, contains_iff,
  In, In-append, In-filter, Bool-cases,
}
use kampus_pipeline.EpicLedger.Graph.{
  Color, white, grey, black, is_color, Search, add, remove, neighbours, enter, leave, each, visit,
}
use kampus_pipeline.EpicLedger.Graph.Walks.{Edge}
use kampus_pipeline.EpicLedger.Graph.Acyclic.Finish.{
  Has, white-ne-black, IsOpen, Finishes, Calls, each-Finishes,
}

module _ (adj : Dict ℕ (List ℕ)) (nodes : List ℕ)
    (ends : (x y : ℕ) → Edge adj x y → In y nodes) where
  Has-set :
      (c d : Color) (n m : ℕ) (colors : Dict ℕ Color)
      → is_color d (get m (set n c colors)) ≡ true
      → ((m ≡ n) × (is_color d (some c) ≡ true)) ⊎ (is_color d (get m colors) ≡ true)
  Has-set c d n m colors h = elim (Bool-cases (n == m)) [
    | inl t ↦ inl (sym ((nat_eq.same_iff n m).0 t), rw t at (rw (get-set n m c colors) at h))
    | inr f ↦ inr (rw f at (rw (get-set n m c colors) at h))
  ]

  set-colored :
      (c : Color) (n m : ℕ) (colors : Dict ℕ Color)
      → get m colors ≢ none
      → get m (set n c colors) ≢ none
  set-colored c n m colors h e = elim (Bool-cases (n == m)) [
    | inl t ↦ (let q : some c ≡ none = rw t at (rw (get-set n m c colors) at e) in cc)
    | inr f ↦ h (rw f at (rw (get-set n m c colors) at e))
  ]

  enter-IsOpen : (n : ℕ) (s : Search) → IsOpen adj nodes ends s → IsOpen adj nodes ends (enter n s)
  unfolding enter
  enter-IsOpen n s k = record {
    order = k.order;
    ordered = k.ordered;
    finished = λ m b. elim (Has-set grey black n m s.color b) [
      | inl (_, q) ↦ cc
      | inr old ↦ k.finished m old
    ];
    active = λ m g. on m (contains s.on_stack n) refl (Has-set grey grey n m s.color g);
    colored = λ m i. set-colored grey n m s.color (k.colored m i);
    unseen = k.unseen;
  }
    where
      on :
          (m : ℕ) (b : Bool)
          → contains s.on_stack n ≡ b
          → ((m ≡ n) × (is_color grey (some grey) ≡ true)) ⊎ Has grey m s
          → In m (add s.on_stack b n)
      on m true e (inl (q, _)) = rw q ((contains_iff s.on_stack n).0 e)
      on m true e (inr old) = k.active m old
      on m false e (inl (q, _)) = (In-append m s.on_stack (n ∷ [])).1 (inr (inl q))
      on m false e (inr old) = (In-append m s.on_stack (n ∷ [])).1 (inl (k.active m old))

  leave-IsOpen :
      (n : ℕ) (s : Search)
      → IsOpen adj nodes ends s
      → ((y : ℕ) → Edge adj n y → Has black y s)
      → IsOpen adj nodes ends (leave n s)
  unfolding leave remove
  leave-IsOpen n s k below = record {
    order = n ∷ k.order;
    ordered = (λ y e. k.finished y (below y e), k.ordered);
    finished = λ m b. elim (Has-set black black n m s.color b) [
      | inl (q, _) ↦ inl q
      | inr old ↦ inr (k.finished m old)
    ];
    active = λ m g. elim (Bool-cases (n == m)) [
      | inl t ↦
          let q : is_color grey (some black) ≡ true =
            rw t at (rw (get-set n m black s.color) at g) in
          cc
      | inr f ↦
          let old = rw f at (rw (get-set n m black s.color) at g) in
          (In-filter (λ j. not (j == n)) m s.on_stack).1
            (k.active m old, ground (arith, nat_eq.same_iff n m, nat_eq.same_iff m n))
    ];
    colored = λ m i. set-colored black n m s.color (k.colored m i);
    unseen = k.unseen;
  }

  enter-black : (n m : ℕ) (s : Search) → Has white n s → Has black m s → Has black m (enter n s)
  unfolding enter
  enter-black n m s w b = elim (Bool-cases (n == m)) [
    | inl t ↦ absurd (white-ne-black (get m s.color) (rw ((nat_eq.same_iff n m).0 t) at w) b)
    | inr f ↦ rw (get-set n m grey s.color, f) b
  ]

  leave-black : (n m : ℕ) (s : Search) → (m ≡ n) ⊎ Has black m s → Has black m (leave n s)
  unfolding leave
  leave-black n m s b = elim (Bool-cases (n == m)) [
    | inl t ↦ rw (get-set n m black s.color, t) refl
    | inr f ↦
        rw (get-set n m black s.color, f)
          (elim b [ inl q ↦ absurd (ground (arith, nat_eq.same_iff n m)) | inr old ↦ old ])
  ]

  pub visit-Calls : (fuel : ℕ) → Calls adj nodes ends (visit fuel adj)
  unfolding visit
  visit-Calls zero n s w = tt
  visit-Calls (suc fuel) n s w = left (each (visit fuel adj) (neighbours adj n) (enter n s)) (
      each-Finishes adj nodes ends (visit fuel adj) (neighbours adj n) (enter n s)
        (visit-Calls fuel) (λ m i. ends n m i))
    where
      left_stack :
          (t : Search)
          → ((m : ℕ) → In m t.on_stack → In m (enter n s).on_stack)
          → (m : ℕ) → In m (leave n t).on_stack
          → In m s.on_stack
      left_stack t on m i =
          let (j, other) =
            (In-filter (λ j. not (j == n)) m t.on_stack).0 (unfold leave remove in i) in
          old (contains s.on_stack n) other (unfold enter in on m j)
        where
          old : (b : Bool) → not (m == n) ≡ true → In m (add s.on_stack b n) → In m s.on_stack
          old true k j = j
          old false k j = elim ((In-append m s.on_stack (n ∷ [])).0 j) [
            | inl there ↦ there
            | inr (inl q) ↦ absurd (ground (arith, nat_eq.same_iff m n))
            | inr (inr nowhere) ↦ absurd nowhere
          ]

      left :
          (o : Option Search)
          → Finishes adj nodes ends (neighbours adj n) (enter n s) o
          → Finishes adj nodes ends (n ∷ []) s (elim o [ none ↦ none | some t ↦ some (leave n t) ])
      left none f = tt
      left (some t) f = λ e.
          let (e', during) = f (unfold leave in e) in
          (
            unfold enter in e',
            λ k.
                let (kt, stay, below, on) = during (enter-IsOpen n s k) in
                (
                  leave-IsOpen n t kt (λ y i. below y i),
                  λ m b. leave-black n m t (inr (stay m (enter-black n m s w b))),
                  λ m i. elim i [
                    | inl q ↦ leave-black n m t (inl q)
                    | inr nowhere ↦ absurd nowhere
                  ],
                  λ m i. left_stack t on m i,
                ),
          )
