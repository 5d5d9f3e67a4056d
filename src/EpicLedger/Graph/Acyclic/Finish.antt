-- ===== src/EpicLedger/Graph/Acyclic/Finish.antt =====
-- epic-ledger/graph.ts: what the loop over the neighbours of a node leaves, if it records no cycle.
use kampus_pipeline.Common.{
  ℕ, ◌≡◌, ◌≢◌, ◌⊎◌, refl, inl, inr, true, false, ◌&&◌, Option, none, some, List, [], ◌∷◌, ◌++◌,
  arith, nat_eq, string_eq, Dict, get, sort, distinct, contains, contains_iff, In, Bool-cases, join,
  map, show,
}
use kampus_pipeline.EpicLedger.Graph.{
  Color, white, grey, black, is_color, Search, slice_from, record_cycle, step, each,
}
use kampus_pipeline.EpicLedger.Graph.Walks.{Edge, Walk, Walk-snoc}

abbrev pub Has : Color → ℕ → Search → Type 0
Has c n s = is_color c (get n s.color) ≡ true

-- A color that is not white and not grey is black.
pub left_black :
    (o : Option Color)
    → o ≢ none
    → is_color grey o ≡ false
    → is_color white o ≡ false
    → is_color black o ≡ true
left_black none h g w = absurd (h refl)
left_black (some white) h g w = cc
left_black (some grey) h g w = cc
left_black (some black) h g w = refl

pub white-ne-black : (o : Option Color) → is_color white o ≡ true → is_color black o ≡ true → ⊥
white-ne-black none w b = cc
white-ne-black (some white) w b = cc
white-ne-black (some grey) w b = cc
white-ne-black (some black) w b = cc

append-ne-nil : {A : Type 0} (xs : List A) (x : A) → xs ++ x ∷ [] ≢ []
append-ne-nil [] x e = cc
append-ne-nil (y ∷ ys) x e = cc

module _ (adj : Dict ℕ (List ℕ)) where
  -- The neighbours of each node of the list come after it.
  abbrev pub IsPostOrder : List ℕ → Type 0
  IsPostOrder [] = Unit {0}
  IsPostOrder (x ∷ xs) = ((y : ℕ) → Edge adj x y → In y xs) × IsPostOrder xs

  -- Through a node of such a list, no walk is closed.
  pub IsPostOrder-open :
      (order : List ℕ)
      → IsPostOrder order
      → (x : ℕ) → In x order
      → (xs : List ℕ) → ¬ Walk adj x xs x
  IsPostOrder-open [] p x i xs w = i
  IsPostOrder-open (y ∷ order) p x (inr i) xs w = IsPostOrder-open order p.1 x i xs w
  IsPostOrder-open (y ∷ order) p x (inl e) [] w =
      IsPostOrder-open order p.1 x ((rw (← e) at p.0) x w) [] w
  IsPostOrder-open (y ∷ order) p x (inl e) (z ∷ zs) w =
      IsPostOrder-open order p.1 z ((rw (← e) at p.0) z w.0) (zs ++ x ∷ [])
        (Walk-snoc adj z zs x z w.1 w.0)

  module _ (nodes : List ℕ) (ends : (x y : ℕ) → Edge adj x y → In y nodes) where
    -- What holds of a search that has recorded no cycle.
    pub record IsOpen (s : Search) : Type 0 where
      pub order : List ℕ
      pub ordered : IsPostOrder order
      pub finished : (n : ℕ) → Has black n s → In n order
      pub active : (n : ℕ) → Has grey n s → In n s.on_stack
      pub colored : (n : ℕ) → In n nodes → get n s.color ≢ none
      pub unseen : s.seen ≡ []

    -- A search that records no cycle had recorded none before, and is open if it was; what was
    -- finished is, and so are the nodes of the list.
    abbrev pub Finishes : List ℕ → Search → Option Search → Type 0
    Finishes done s none = Unit {0}
    Finishes done s (some t) =
        t.cycles ≡ []
        → (s.cycles ≡ [])
          × (IsOpen s
              → IsOpen t
                × ((n : ℕ) → Has black n s → Has black n t)
                × ((n : ℕ) → In n done → Has black n t)
                × ((n : ℕ) → In n t.on_stack → In n s.on_stack))

    abbrev pub Calls : (ℕ → Search → Option Search) → Type 0
    Calls call = (n : ℕ) (s : Search) → Has white n s → Finishes (n ∷ []) s (call n s)

    Finishes-append :
        (x : ℕ) (xs : List ℕ) (s : Search) (t : Search) (o : Option Search)
        → Finishes (x ∷ []) s (some t)
        → Finishes xs t o
        → Finishes (x ∷ xs) s o
    Finishes-append x xs s t none f g = tt
    Finishes-append x xs s t (some u) f g = λ e.
        let (e', after) = g e in
        let (e'', before) = f e' in
        (
          e'',
          λ k.
              let (kt, stay, here, on) = before k in
              let (ku, stay', rest, on') = after kt in
              (
                ku,
                λ n b. stay' n (stay n b),
                λ n i. elim i [ inl q ↦ stay' n (here n (inl q)) | inr j ↦ rest n j ],
                λ n j. on n (on' n j),
              ),
        )

    record_cycle-Finishes :
        (next : ℕ) (members : List ℕ) (s : Search)
        → Finishes (next ∷ []) s (some (record_cycle members s))
    unfolding record_cycle contains
    record_cycle-Finishes next members s e =
        elim (Bool-cases (contains s.seen (join "," (map show (sort (distinct members)))))) [
          | inl known ↦ (rw known at e, λ k. absurd (no_key (rw k.unseen at known)))
          | inr new ↦ absurd (append-ne-nil s.cycles (sort (distinct members)) (rw new at e))
        ]
      where
        no_key :
            {b : Type 0} → contains [] (join "," (map show (sort (distinct members)))) ≡ true → b
        no_key h = cc

    step-Finishes :
        (call : ℕ → Search → Option Search) (next : ℕ) (s : Search)
        → Calls call
        → In next nodes
        → Finishes (next ∷ []) s (step call next s)
    unfolding step
    step-Finishes call next s h i =
        elim (Bool-cases (is_color grey (get next s.color) && contains s.on_stack next)) [
          | inl cyclic ↦ rw cyclic (record_cycle-Finishes next (slice_from next s.stack) s)
          | inr open_edge ↦ elim (Bool-cases (is_color white (get next s.color))) [
            | inl fresh ↦ rw (open_edge, fresh) (h next s fresh)
            | inr not_white ↦
                rw (open_edge, not_white)
                  (λ e. (
                    e,
                    λ k. (
                      k,
                      λ n b. b,
                      λ n j. elim j [
                        | inl q ↦ rw q (
                            left_black (get next s.color) (k.colored next i)
                              (not_grey k (Bool-cases (is_color grey (get next s.color))) open_edge)
                              not_white)
                        | inr nowhere ↦ absurd nowhere
                      ],
                      λ n j. j,
                    ),
                  ))
          ]
        ]
      where
        not_grey :
            IsOpen s
            → (is_color grey (get next s.color) ≡ true) ⊎ (is_color grey (get next s.color) ≡ false)
            → (is_color grey (get next s.color) && contains s.on_stack next) ≡ false
            → is_color grey (get next s.color) ≡ false
        not_grey k (inl g) f =
            let on = (contains_iff s.on_stack next).1 (k.active next g) in ground arith
        not_grey k (inr g) f = g

    pub each-Finishes :
        (call : ℕ → Search → Option Search) (nexts : List ℕ) (s : Search)
        → Calls call
        → ((n : ℕ) → In n nexts → In n nodes)
        → Finishes nexts s (each call nexts s)
    unfolding each
    each-Finishes call [] s h i = λ e. (e, λ k. (k, λ n b. b, λ n j. absurd j, λ n j. j))
    each-Finishes call (next ∷ rest) s h i =
        then_rest (λ t. each-Finishes call rest t h (λ n j. i n (inr j))) (step call next s)
          (step-Finishes call next s h (i next (inl refl)))
      where
        then_rest :
            ((t : Search) → Finishes rest t (each call rest t))
            → (o : Option Search) → Finishes (next ∷ []) s o
            → Finishes (next ∷ rest) s (elim o [ none ↦ none | some t ↦ each call rest t ])
        then_rest ih none f = tt
        then_rest ih (some t) f = Finishes-append next rest s t (each call rest t) f (ih t)
