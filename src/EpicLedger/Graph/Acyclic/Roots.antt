-- ===== src/EpicLedger/Graph/Acyclic/Roots.antt =====
-- epic-ledger/graph.ts: what the loop over all nodes leaves, if it records no cycle.
use kampus_pipeline.Common.{
  ℕ, Bool, ◌≡◌, ◌≢◌, ◌⊎◌, refl, inl, inr, true, false, Option, none, some, List, [], ◌∷◌, arith,
  if◌then◌else◌, ◌==◌, nat_eq, string_eq, Dict, get, In, Bool-cases, map,
}
use kampus_pipeline.EpicLedger.Graph.{Color, white, grey, black, is_color, Search, roots, start}
use kampus_pipeline.EpicLedger.Graph.Walks.{Edge}
use kampus_pipeline.EpicLedger.Graph.Acyclic.Finish.{Has, left_black, IsOpen, Finishes, Calls}

module _ (adj : Dict ℕ (List ℕ)) (nodes : List ℕ)
    (ends : (x y : ℕ) → Edge adj x y → In y nodes) where
  abbrev pub IsIdle : Search → Type 0
  IsIdle s = (n : ℕ) → In n s.on_stack → ⊥

  -- The same of the loop over the nodes, where no visit is under way.
  abbrev pub Completes : List ℕ → Search → Option Search → Type 0
  Completes done s none = Unit {0}
  Completes done s (some t) =
      t.cycles ≡ []
      → (s.cycles ≡ [])
        × (IsOpen adj nodes ends s
            → IsIdle s
            → IsOpen adj nodes ends t
              × IsIdle t
              × ((n : ℕ) → Has black n s → Has black n t)
              × ((n : ℕ) → In n done → Has black n t))

  root-Completes :
      (call : ℕ → Search → Option Search) (n : ℕ) (s : Search)
      → Calls adj nodes ends call
      → In n nodes
      → (b : Bool) → is_color white (get n s.color) ≡ b
      → Completes (n ∷ []) s (if b then call n s else some s)
  root-Completes call n s h i true w = visited (call n s) (h n s w)
    where
      visited : (o : Option Search) → Finishes adj nodes ends (n ∷ []) s o → Completes (n ∷ []) s o
      visited none f = tt
      visited (some t) f = λ e.
          let (e', after) = f e in
          (
            e',
            λ k idle.
                let (kt, stay, here, on) = after k in (kt, λ m j. idle m (on m j), stay, here),
          )
  root-Completes call n s h i false w = λ e. (
    e,
    λ k idle. (
      k,
      idle,
      λ m b. b,
      λ m j. elim j [
        | inl q ↦ rw q (
            left_black (get n s.color) (k.colored n i)
              (not_grey k idle (Bool-cases (is_color grey (get n s.color)))) w)
        | inr nowhere ↦ absurd nowhere
      ],
    ),
  )
    where
      not_grey :
          IsOpen adj nodes ends s
          → IsIdle s
          → (is_color grey (get n s.color) ≡ true) ⊎ (is_color grey (get n s.color) ≡ false)
          → is_color grey (get n s.color) ≡ false
      not_grey k idle (inl g) = absurd (idle n (k.active n g))
      not_grey k idle (inr g) = g

  pub roots-Completes :
      (call : ℕ → Search → Option Search) (starts : List ℕ) (s : Search)
      → Calls adj nodes ends call
      → ((n : ℕ) → In n starts → In n nodes)
      → Completes starts s (roots call starts s)
  unfolding roots
  roots-Completes call [] s h i = λ e. (e, λ k idle. (k, idle, λ n b. b, λ n j. absurd j))
  roots-Completes call (n ∷ starts) s h i =
      then_rest (λ t. roots-Completes call starts t h (λ m j. i m (inr j)))
        (if is_color white (get n s.color) then call n s else some s)
        (root-Completes call n s h (i n (inl refl)) (is_color white (get n s.color)) refl)
    where
      chained :
          (t : Search) (o : Option Search)
          → Completes (n ∷ []) s (some t)
          → Completes starts t o
          → Completes (n ∷ starts) s o
      chained t none f g = tt
      chained t (some u) f g = λ e.
          let (e', after) = g e in
          let (e'', before) = f e' in
          (
            e'',
            λ k idle.
                let (kt, it, stay, here) = before k idle in
                let (ku, iu, stay', rest) = after kt it in
                (
                  ku,
                  iu,
                  λ m b. stay' m (stay m b),
                  λ m j. elim j [ inl q ↦ stay' m (here m (inl q)) | inr j' ↦ rest m j' ],
                ),
          )

      then_rest :
          ((t : Search) → Completes starts t (roots call starts t))
          → (o : Option Search) → Completes (n ∷ []) s o
          → Completes (n ∷ starts) s (elim o [ none ↦ none | some t ↦ roots call starts t ])
      then_rest ih none f = tt
      then_rest ih (some t) f = chained t (roots call starts t) f (ih t)

  start-colored : (ns : List ℕ) (n : ℕ) → In n ns → get n (map (λ m. (m, white)) ns) ≢ none
  unfolding get
  start-colored [] n i e = i
  start-colored (m ∷ ns) n i e = elim (Bool-cases (m == n)) [
    | inl t ↦ (let q : some white ≡ none = rw t at e in cc)
    | inr f ↦ start-colored ns n (inside f i) (rw f at e)
  ]
    where
      inside : (m == n) ≡ false → In n (m ∷ ns) → In n ns
      inside f (inl q) = absurd (ground (arith, nat_eq.same_iff m n))
      inside f (inr j) = j

  start-white :
      (d : Color) (ns : List ℕ) (n : ℕ)
      → is_color d (some white) ≡ false
      → is_color d (get n (map (λ m. (m, white)) ns)) ≡ true
      → ⊥
  unfolding get
  start-white d [] n ne h = nothing d h
    where
      nothing : (d : Color) → is_color d none ≡ true → ⊥
      nothing white h = cc
      nothing grey h = cc
      nothing black h = cc
  start-white d (m ∷ ns) n ne h = elim (Bool-cases (m == n)) [
    | inl t ↦ (let q = rw t at h in cc)
    | inr f ↦ start-white d ns n ne (rw f at h)
  ]

  pub start-IsOpen : IsOpen adj nodes ends (start nodes)
  unfolding start
  start-IsOpen = record {
    order = [];
    ordered = tt;
    finished = λ n b. absurd (start-white black nodes n refl b);
    active = λ n g. absurd (start-white grey nodes n refl g);
    colored = λ n i. start-colored nodes n i;
    unseen = refl;
  }
