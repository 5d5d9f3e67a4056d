-- ===== src/EpicLedger/Graph/Edges.antt =====
-- epic-ledger/graph.ts: the adjacency lists and the edges.
use kampus_pipeline.Common.{
  ℕ, ◌≡◌, sym, refl, sort_by, ◌↔◌, ◌⊎◌, inl, inr, Bool, true, false, Option, none, some, List, [],
  ◌∷◌, ◌++◌, map, if◌then◌else◌, ◌==◌, nat_eq, Dict, get, set, get-set, sort, leb, In, In-append,
  In-sort_by, Bool-cases,
}
use kampus_pipeline.EpicLedger.Ledger.{DependencyEdge}
use kampus_pipeline.EpicLedger.Graph.{neighbours, push_edge, adjacency_from, adjacency}

-- The list of a node, empty for one without an entry.
abbrev listed : Option (List ℕ) → List ℕ
listed none = []
listed (some list) = list

get-push_edge :
    (e : DependencyEdge) (m : Dict ℕ (List ℕ)) (x : ℕ)
    → get x (push_edge e m)
      ≡ (if e.child == x then some (listed (get e.child m) ++ e.requires ∷ []) else get x m)
unfolding push_edge
get-push_edge e m x = of_entry (get e.child m)
  where
    of_entry :
        (o : Option (List ℕ))
        → get x (elim o [
          | none ↦ set e.child (e.requires ∷ []) m
          | some list ↦ set e.child (list ++ e.requires ∷ []) m
        ])
          ≡ (if e.child == x then some (listed o ++ e.requires ∷ []) else get x m)
    of_entry none = get-set e.child x (e.requires ∷ []) m
    of_entry (some list) = get-set e.child x (list ++ e.requires ∷ []) m

neighbours-listed : (m : Dict ℕ (List ℕ)) (x : ℕ) → neighbours m x ≡ listed (get x m)
unfolding neighbours
neighbours-listed m x = of_entry (get x m)
  where
    of_entry : (o : Option (List ℕ)) → elim o [ none ↦ [] | some list ↦ list ] ≡ listed o
    of_entry none = refl
    of_entry (some list) = refl

neighbours-push_edge :
    (e : DependencyEdge) (m : Dict ℕ (List ℕ)) (x y : ℕ)
    → In y (neighbours (push_edge e m) x)
      ↔ (In y (neighbours m x) ⊎ ((e.child ≡ x) × (e.requires ≡ y)))
neighbours-push_edge e m x y =
    rw (neighbours-listed (push_edge e m) x)
      (rw (neighbours-listed m x) (rw (get-push_edge e m x) (pushed (e.child == x) refl)))
  where
    pushed :
        (b : Bool)
        → (e.child == x) ≡ b
        → In y (listed (if b then some (listed (get e.child m) ++ e.requires ∷ []) else get x m))
          ↔ (In y (listed (get x m)) ⊎ ((e.child ≡ x) × (e.requires ≡ y)))
    pushed true t =
        let q : e.child ≡ x = (nat_eq.same_iff e.child x).0 t in
        rw q (appended (In-append y (listed (get x m)) (e.requires ∷ [])))
      where
        appended :
            (In y (listed (get x m) ++ e.requires ∷ [])
              ↔ (In y (listed (get x m)) ⊎ In y (e.requires ∷ [])))
            → In y (listed (get x m) ++ e.requires ∷ [])
              ↔ (In y (listed (get x m)) ⊎ ((x ≡ x) × (e.requires ≡ y)))
        appended a = (
          λ h. elim (a.0 h) [
            | inl old ↦ inl old
            | inr (inl p) ↦ inr (refl, sym p)
            | inr (inr nowhere) ↦ absurd nowhere
          ],
          λ h. elim h [ inl old ↦ a.1 (inl old) | inr (_, p) ↦ a.1 (inr (inl (sym p))) ],
        )
    pushed false f = (
      λ h. inl h,
      λ h. elim h [ inl old ↦ old | inr (p, _) ↦ absurd (cc (f, (nat_eq.same_iff e.child x).1 p)) ],
    )

neighbours-adjacency_from :
    (m : Dict ℕ (List ℕ)) (es : List DependencyEdge) (x y : ℕ)
    → In y (neighbours (adjacency_from m es) x) ↔ (
        In y (neighbours m x) ⊎ ((e : DependencyEdge) × In e es × (e.child ≡ x) × (e.requires ≡ y)))
unfolding adjacency_from
neighbours-adjacency_from m [] x y =
    (λ h. inl h, λ h. elim h [ inl i ↦ i | inr (e, i, _, _) ↦ absurd i ])
neighbours-adjacency_from m (e ∷ es) x y = (
  λ h. elim ((neighbours-adjacency_from (push_edge e m) es x y).0 h) [
    | inl i ↦ elim ((neighbours-push_edge e m x y).0 i) [
      | inl j ↦ inl j
      | inr (p, q) ↦ inr (e, inl refl, p, q)
    ]
    | inr (f, i, p, q) ↦ inr (f, inr i, p, q)
  ],
  λ h. elim h [
    | inl i ↦
        (neighbours-adjacency_from (push_edge e m) es x y).1
          (inl ((neighbours-push_edge e m x y).1 (inl i)))
    | inr (f, inl s, p, q) ↦
        (neighbours-adjacency_from (push_edge e m) es x y).1
          (inl ((neighbours-push_edge e m x y).1 (inr (rw s at p, rw s at q))))
    | inr (f, inr i, p, q) ↦ (neighbours-adjacency_from (push_edge e m) es x y).1 (inr (f, i, p, q))
  ],
)

get-sorted :
    (m : Dict ℕ (List ℕ)) (x : ℕ)
    → listed (get x (map (λ (n, list). (n, sort list)) m)) ≡ sort (listed (get x m))
unfolding get
get-sorted [] x = unfold sort_by in refl
get-sorted ((i, list) ∷ m) x = elim (Bool-cases (i == x)) [
  | inl same ↦ rw same refl
  | inr other ↦ rw other (get-sorted m x)
]

neighbours-sorted :
    (m : Dict ℕ (List ℕ)) (x y : ℕ)
    → In y (neighbours (map (λ (n, list). (n, sort list)) m) x) ↔ In y (neighbours m x)
neighbours-sorted m x y =
    rw (neighbours-listed (map (λ (n, list). (n, sort list)) m) x)
      (rw (neighbours-listed m x) (rw (get-sorted m x) (In-sort_by leb y (listed (get x m)))))

-- One node is a neighbour of another exactly when an edge requires it of that other one.
pub neighbours_iff :
    (edges : List DependencyEdge) (x y : ℕ)
    → In y (neighbours (adjacency edges) x)
      ↔ ((e : DependencyEdge) × In e edges × (e.child ≡ x) × (e.requires ≡ y))
unfolding adjacency
neighbours_iff edges x y = (
  λ h.
      elim ((neighbours-adjacency_from [] edges x y).0
        ((neighbours-sorted (adjacency_from [] edges) x y).0 h)) [
          | inl i ↦ absurd (unfold neighbours get in i)
          | inr w ↦ w
        ],
  λ w.
      (neighbours-sorted (adjacency_from [] edges) x y).1
        ((neighbours-adjacency_from [] edges x y).1 (inr w)),
)
