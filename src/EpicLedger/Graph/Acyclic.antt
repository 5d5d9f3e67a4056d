-- ===== src/EpicLedger/Graph/Acyclic.antt =====
-- epic-ledger/graph.ts: when the search reports no cycle.
mod Finish
mod Visits
mod Roots
use kampus_pipeline.Common.{
  ℕ, zero, suc, Bool, ◌≡◌, ◌≢◌, ◌↔◌, ◌⊎◌, refl, sym, ap, inl, inr, true, false, not, ◌&&◌, Option,
  none, some, List, [], ◌∷◌, ◌++◌, arith, if◌then◌else◌, ◌==◌, nat_eq, string_eq, Dict, get, set,
  get-set, sort, sort_by, leb, distinct, contains, contains_iff, In, In-append, In-filter,
  In-sort_by, In-distinct, Bool-cases, length, join, map, show, sort_by-eq-nil_iff,
}
use kampus_pipeline.EpicLedger.Ledger.{DependencyEdge}
use kampus_pipeline.EpicLedger.Graph.{
  Color, white, grey, black, is_color, Search, add, remove, slice_from, neighbours, record_cycle,
  enter, leave, step, each, visit, roots, start, search_graph, endpoints, all_nodes, adjacency,
  find_cycles, first_or_zero,
}
use kampus_pipeline.EpicLedger.Graph.Edges.{neighbours_iff}
use kampus_pipeline.EpicLedger.Graph.Fuel.{search_graph-Ends}
use kampus_pipeline.EpicLedger.Graph.Walks.{Edge, Walk, Walk-snoc, find_cycles-IsCycle}
use kampus_pipeline.EpicLedger.Graph.Acyclic.Finish.{
  Has, left_black, white-ne-black, IsPostOrder, IsPostOrder-open, IsOpen, Finishes, Calls,
  each-Finishes,
}
use kampus_pipeline.EpicLedger.Graph.Acyclic.Visits.{visit-Calls}
use kampus_pipeline.EpicLedger.Graph.Acyclic.Roots.{
  Completes, IsIdle, roots-Completes, start-IsOpen,
}

-- An edge of the issue on the first number requires the second.
abbrev pub Requires : List DependencyEdge → ℕ → ℕ → Type 0
Requires edges x y = (e : DependencyEdge) × In e edges × (e.child ≡ x) × (e.requires ≡ y)

-- Each number of the list requires the next, from `x` on and up to `y`.
abbrev pub Chain : List DependencyEdge → ℕ → List ℕ → ℕ → Type 0
Chain edges x [] y = Requires edges x y
Chain edges x (z ∷ zs) y = Requires edges x z × Chain edges z zs y

-- No issue requires itself, through whatever others.
abbrev pub IsAcyclic : List DependencyEdge → Type 0
IsAcyclic edges = (x : ℕ) (xs : List ℕ) → ¬ Chain edges x xs x

Chain-Walk :
    (edges : List DependencyEdge) (x : ℕ) (xs : List ℕ) (y : ℕ)
    → Chain edges x xs y
    → Walk (adjacency edges) x xs y
Chain-Walk edges x [] y c = (neighbours_iff edges x y).1 c
Chain-Walk edges x (z ∷ zs) y c = ((neighbours_iff edges x z).1 c.0, Chain-Walk edges z zs y c.1)

Walk-Chain :
    (edges : List DependencyEdge) (x : ℕ) (xs : List ℕ) (y : ℕ)
    → Walk (adjacency edges) x xs y
    → Chain edges x xs y
Walk-Chain edges x [] y c = (neighbours_iff edges x y).0 c
Walk-Chain edges x (z ∷ zs) y c = ((neighbours_iff edges x z).0 c.0, Walk-Chain edges z zs y c.1)

endpoints-In :
    (e : DependencyEdge) (es : List DependencyEdge)
    → In e es
    → In e.child (endpoints es) × In e.requires (endpoints es)
unfolding endpoints
endpoints-In e [] i = absurd i
endpoints-In e (f ∷ es) (inl q) = (
  inl (ap (λ (d : DependencyEdge). d.child) q),
  inr (inl (ap (λ (d : DependencyEdge). d.requires) q)),
)
endpoints-In e (f ∷ es) (inr i) = let (a, b) = endpoints-In e es i in (inr (inr a), inr (inr b))

-- Both ends of an edge are nodes of the search.
Edge-In :
    (edges : List DependencyEdge) (x y : ℕ)
    → Edge (adjacency edges) x y
    → In x (all_nodes edges) × In y (all_nodes edges)
unfolding all_nodes
Edge-In edges x y i =
    let (e, j, p, q) = (neighbours_iff edges x y).0 i in
    let (a, b) = endpoints-In e edges j in
    let node = λ (n : ℕ) (k : In n (endpoints edges)).
      (In-sort_by leb n (distinct (endpoints edges))).1 ((In-distinct n (endpoints edges)).1 k) in
    (node x (rw p at a), node y (rw q at b))

Walk-starts :
    (edges : List DependencyEdge) (x : ℕ) (xs : List ℕ) (y : ℕ)
    → Walk (adjacency edges) x xs y
    → In x (all_nodes edges)
Walk-starts edges x [] y w = (Edge-In edges x y w).0
Walk-starts edges x (z ∷ zs) y w = (Edge-In edges x z w.0).0

-- A search without a cycle in its answer has finished each node.
module _ (edges : List DependencyEdge) where
  abbrev ends : (x y : ℕ) → Edge (adjacency edges) x y → In y (all_nodes edges)
  ends x y i = (Edge-In edges x y i).1

  search_graph-Completes :
      Completes
        (adjacency edges)
        (all_nodes edges)
        ends
        (all_nodes edges)
        (start (all_nodes edges))
        (search_graph edges)
  unfolding search_graph
  search_graph-Completes =
      roots-Completes (adjacency edges) (all_nodes edges) ends
        (visit (suc (length (all_nodes edges))) (adjacency edges)) (all_nodes edges)
        (start (all_nodes edges))
        (visit-Calls (adjacency edges) (all_nodes edges) ends (suc (length (all_nodes edges))))
        (λ n i. i)

  find_cycles-IsAcyclic : find_cycles edges ≡ [] → IsAcyclic edges
  unfolding find_cycles
  find_cycles-IsAcyclic none_found x xs c =
      searched (search_graph edges) (search_graph-Ends edges) search_graph-Completes none_found
    where
      walk : Walk (adjacency edges) x xs x
      walk = Chain-Walk edges x xs x c

      searched :
          (o : Option Search)
          → ((s : Search) × (o ≡ some s))
          → Completes
              (adjacency edges)
              (all_nodes edges)
              ends
              (all_nodes edges)
              (start (all_nodes edges))
              o
          → elim o [
            | none ↦ []
            | some s ↦ sort_by (λ a b. leb (first_or_zero a) (first_or_zero b)) s.cycles
          ]
            ≡ []
          → ⊥
      searched none (s, e) f q = cc
      searched (some s) e f q =
          let quiet =
            (sort_by-eq-nil_iff (λ a b. leb (first_or_zero a) (first_or_zero b)) s.cycles).0 q in
          let (k, rested, stay, done) =
            (f quiet).1 (start-IsOpen (adjacency edges) (all_nodes edges) ends)
              (unfold start in (λ n i. i)) in
          IsPostOrder-open (adjacency edges) k.order k.ordered x
            (k.finished x (done x (Walk-starts edges x xs x walk))) xs walk

none_in : {A : Type 0} (xs : List A) → ((x : A) → ¬ In x xs) → xs ≡ []
none_in [] h = refl
none_in (x ∷ xs) h = absurd (h x (inl refl))

-- The search reports no cycle exactly when no issue requires itself, through whatever others.
pub find_cycles-eq-nil_iff :
    (edges : List DependencyEdge) → (find_cycles edges ≡ []) ↔ IsAcyclic edges
find_cycles-eq-nil_iff edges = (
  find_cycles-IsAcyclic edges,
  λ h. none_in (find_cycles edges) (λ c i.
      let (x, xs, w, _) = find_cycles-IsCycle edges c i in h x xs (Walk-Chain edges x xs x w)),
)
