-- ===== src/EpicLedger/Graph/Fuel.antt =====
-- epic-ledger/graph.ts: the fuel of the search for cycles.
use kampus_pipeline.Common.{
  ℕ, zero, suc, ◌+◌, ◌≤◌, ◌≡◌, refl, inl, inr, true, ◌&&◌, Option, none, some, List, [], ◌∷◌, arith,
  ◌==◌, nat_eq, Dict, get, set, length, contains, Bool-cases,
}
use kampus_pipeline.EpicLedger.Ledger.{DependencyEdge}
use kampus_pipeline.EpicLedger.Graph.{
  Color, white, grey, black, is_color, Search, neighbours, record_cycle, slice_from, enter, leave,
  step, each, visit, roots, start, search_graph, all_nodes, adjacency,
}

abbrev weight : Color → ℕ
weight white = 1
weight grey = 0
weight black = 0

-- How many nodes are still white.
abbrev pub whites : Dict ℕ Color → ℕ
whites [] = 0
whites ((n, c) ∷ d) = weight c + whites d

whites-set_grey :
    (n : ℕ) (d : Dict ℕ Color)
    → is_color white (get n d) ≡ true
    → suc (whites (set n grey d)) ≡ whites d
unfolding get set
whites-set_grey n [] h = cc
whites-set_grey n ((i, c) ∷ d) h = elim (Bool-cases (i == n)) [
  | inl same ↦ rw same (here c (rw same at h))
  | inr other ↦ rw other (omega (arith, whites-set_grey n d (rw other at h)))
]
  where
    here : (c : Color) → is_color white (some c) ≡ true → suc (0 + whites d) ≡ weight c + whites d
    here white k = omega arith
    here grey k = cc
    here black k = cc

whites-set_black : (n : ℕ) (d : Dict ℕ Color) → whites (set n black d) ≤ whites d
unfolding set
whites-set_black n [] = omega arith
whites-set_black n ((i, c) ∷ d) = elim (Bool-cases (i == n)) [
  | inl same ↦ rw same (omega arith)
  | inr other ↦ rw other (omega (arith, whites-set_black n d))
]

-- A search that ended, with no more white nodes than the bound.
abbrev pub Ends : ℕ → Option Search → Type 0
Ends k none = ⊥
Ends k (some s) = whites s.color ≤ k

Ends-weaken : (j k : ℕ) (o : Option Search) → j ≤ k → Ends j o → Ends k o
Ends-weaken j k none l h = h
Ends-weaken j k (some s) l h = omega arith

-- A call that ends on every white node, in a search with at most so many white nodes.
abbrev Visits : ℕ → (ℕ → Search → Option Search) → Type 0
Visits k call =
    (n : ℕ) (s : Search)
    → is_color white (get n s.color) ≡ true
    → whites s.color ≤ k
    → Ends (whites s.color) (call n s)

record_cycle-color : (members : List ℕ) (s : Search) → (record_cycle members s).color ≡ s.color
unfolding record_cycle
record_cycle-color members s = ground arith

step-Ends :
    (k : ℕ) (call : ℕ → Search → Option Search) (next : ℕ) (s : Search)
    → Visits k call
    → whites s.color ≤ k
    → Ends (whites s.color) (step call next s)
unfolding step
step-Ends k call next s h l =
    elim (Bool-cases (is_color grey (get next s.color) && contains s.on_stack next)) [
      | inl cyclic ↦ rw cyclic (rw (record_cycle-color (slice_from next s.stack) s) (omega arith))
      | inr open_edge ↦ elim (Bool-cases (is_color white (get next s.color))) [
        | inl fresh ↦ rw (open_edge, fresh) (h next s fresh l)
        | inr seen_before ↦ rw (open_edge, seen_before) (omega arith)
      ]
    ]

each-Ends :
    (k : ℕ) (call : ℕ → Search → Option Search) (nexts : List ℕ) (s : Search)
    → Visits k call
    → whites s.color ≤ k
    → Ends (whites s.color) (each call nexts s)
unfolding each
each-Ends k call [] s h l = omega arith
each-Ends k call (next ∷ rest) s h l =
    then_rest (λ t m. each-Ends k call rest t h m) (step call next s) (step-Ends k call next s h l)
  where
    then_rest :
        ((t : Search) → whites t.color ≤ k → Ends (whites t.color) (each call rest t))
        → (o : Option Search) → Ends (whites s.color) o
        → Ends (whites s.color) (elim o [ none ↦ none | some t ↦ each call rest t ])
    then_rest ih none e = e
    then_rest ih (some t) e =
        Ends-weaken (whites t.color) (whites s.color) (each call rest t) e (ih t (omega arith))

visit-Ends : (fuel : ℕ) (adj : Dict ℕ (List ℕ)) → Visits fuel (visit fuel adj)
unfolding visit enter leave
visit-Ends zero adj n s w l = absurd (omega (arith, whites-set_grey n s.color w))
visit-Ends (suc fuel) adj n s w l = left (each (visit fuel adj) (neighbours adj n) (enter n s)) (
    each-Ends fuel (visit fuel adj) (neighbours adj n) (enter n s) (visit-Ends fuel adj)
      (omega (arith, whites-set_grey n s.color w)))
  where
    left :
        (o : Option Search)
        → Ends (whites (enter n s).color) o
        → Ends (whites s.color) (elim o [ none ↦ none | some t ↦ some (leave n t) ])
    left none e = e
    left (some t) e = omega (arith, whites-set_black n t.color, whites-set_grey n s.color w)

roots-Ends :
    (k : ℕ) (call : ℕ → Search → Option Search) (nodes : List ℕ) (s : Search)
    → Visits k call
    → whites s.color ≤ k
    → Ends k (roots call nodes s)
unfolding roots
roots-Ends k call [] s h l = l
roots-Ends k call (n ∷ nodes) s h l = elim (Bool-cases (is_color white (get n s.color))) [
  | inl fresh ↦
      rw (fresh, roots)
        (then_rest (λ t m. roots-Ends k call nodes t h m) (call n s) (h n s fresh l))
  | inr seen_before ↦ rw (seen_before, roots) (roots-Ends k call nodes s h l)
]
  where
    then_rest :
        ((t : Search) → whites t.color ≤ k → Ends k (roots call nodes t))
        → (o : Option Search) → Ends (whites s.color) o
        → Ends k (elim o [ none ↦ none | some t ↦ roots call nodes t ])
    then_rest ih none e = e
    then_rest ih (some t) e = ih t (omega arith)

whites-start : (nodes : List ℕ) → whites (start nodes).color ≤ suc (length nodes)
unfolding start
whites-start [] = omega arith
whites-start (n ∷ nodes) = omega (arith, whites-start nodes)

-- On every list of edges the search over the whole graph ends within the fuel it is given, so that
-- `find_cycles` returns what the search recorded.
pub search_graph-Ends : (edges : List DependencyEdge) → (s : Search) × (search_graph edges ≡ some s)
unfolding search_graph
search_graph-Ends edges =
    of_some
      (roots (visit (suc (length (all_nodes edges))) (adjacency edges)) (all_nodes edges)
        (start (all_nodes edges)))
      (roots-Ends (suc (length (all_nodes edges)))
        (visit (suc (length (all_nodes edges))) (adjacency edges)) (all_nodes edges)
        (start (all_nodes edges)) (visit-Ends (suc (length (all_nodes edges))) (adjacency edges))
        (whites-start (all_nodes edges)))
  where
    of_some :
        (o : Option Search) → Ends (suc (length (all_nodes edges))) o → (s : Search) × (o ≡ some s)
    of_some none e = absurd e
    of_some (some s) e = (s, refl)
