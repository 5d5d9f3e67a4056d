-- ===== src/EpicLedger/Graph.antt =====
-- epic-ledger/graph.ts: the depth-first search for dependency cycles. The mutable locals of
-- `findCycles` are the fields of `Search`; a call of `visit` deeper than its fuel is `none`.
mod Tests
pub mod Acyclic
pub mod Edges
pub mod Fuel
pub mod Walks
use kampus_pipeline.Common.{
  ℕ, zero, suc, String, Bool, true, false, ◌&&◌, not, Option, none, some, List, [], ◌∷◌, ◌++◌, map,
  leb, if◌then◌else◌, ◌==◌, nat_eq, string_eq, Dict, get, set, filter, contains, distinct, sort,
  sort_by, join, show, length,
}
use kampus_pipeline.EpicLedger.Ledger.{DependencyEdge}

pub data Color : Type 0 where
  white grey black : Color

-- `color.get(n) === c`.
abbrev pub is_color : Color → Option Color → Bool
is_color white (some white) = true
is_color grey (some grey) = true
is_color black (some black) = true
is_color c o = false

pub record Search : Type 0 where
  pub color : Dict ℕ Color
  pub stack : List ℕ
  pub on_stack : List ℕ
  pub seen : List String
  pub cycles : List (List ℕ)

-- `set.add(n)` and `set.delete(n)`.
abbrev pub add : {A : Type 0} → List A → Bool → A → List A
add xs true n = xs
add xs false n = xs ++ n ∷ []

unfoldable pub remove : ℕ → List ℕ → List ℕ
remove n xs = filter (λ m. not (m == n)) xs

-- `stack.pop()`.
unfoldable pub pop : List ℕ → List ℕ
pop [] = []
pop (x ∷ []) = []
pop (x ∷ y ∷ xs) = x ∷ pop (y ∷ xs)

-- `stack.slice(stack.indexOf(n))` for an `n` on the stack.
unfoldable pub slice_from : ℕ → List ℕ → List ℕ
slice_from n [] = []
slice_from n (x ∷ xs) = let rest = slice_from n xs in if x == n then x ∷ xs else rest

push_edge : DependencyEdge → Dict ℕ (List ℕ) → Dict ℕ (List ℕ)
push_edge e m = elim (get e.child m) [
  | none ↦ set e.child (e.requires ∷ []) m
  | some list ↦ set e.child (list ++ e.requires ∷ []) m
]

adjacency_from : Dict ℕ (List ℕ) → List DependencyEdge → Dict ℕ (List ℕ)
unfolding push_edge
adjacency_from m [] = m
adjacency_from m (e ∷ es) = adjacency_from (push_edge e m) es

pub adjacency : List DependencyEdge → Dict ℕ (List ℕ)
unfolding adjacency_from
adjacency edges = map (λ (n, list). (n, sort list)) (adjacency_from [] edges)

endpoints : List DependencyEdge → List ℕ
endpoints [] = []
endpoints (e ∷ es) = e.child ∷ e.requires ∷ endpoints es

pub all_nodes : List DependencyEdge → List ℕ
unfolding endpoints
all_nodes edges = sort (distinct (endpoints edges))

pub neighbours : Dict ℕ (List ℕ) → ℕ → List ℕ
neighbours adj node = elim (get node adj) [ none ↦ [] | some list ↦ list ]

pub record_cycle : List ℕ → Search → Search
record_cycle members s =
    let sorted = sort (distinct members) in
    let key = join "," (map show sorted) in
    if contains s.seen key
    then s
    else record s { seen = s.seen ++ key ∷ []; cycles = s.cycles ++ sorted ∷ [] }

pub enter : ℕ → Search → Search
enter node s = record s {
  color = set node grey s.color;
  stack = s.stack ++ node ∷ [];
  on_stack = add s.on_stack (contains s.on_stack node) node;
}

pub leave : ℕ → Search → Search
leave node s = record s {
  color = set node black s.color;
  stack = pop s.stack;
  on_stack = remove node s.on_stack;
}

-- One edge of the loop in `visit`; `call` is the recursive call.
pub step : (ℕ → Search → Option Search) → ℕ → Search → Option Search
step call next s =
    if is_color grey (get next s.color) && contains s.on_stack next
    then some (record_cycle (slice_from next s.stack) s)
    else if is_color white (get next s.color)
    then call next s
    else some s

pub each : (ℕ → Search → Option Search) → List ℕ → Search → Option Search
each call [] s = some s
each call (next ∷ rest) s = elim (step call next s) [ none ↦ none | some s' ↦ each call rest s' ]

pub visit : ℕ → Dict ℕ (List ℕ) → ℕ → Search → Option Search
visit zero adj node s = none
visit (suc fuel) adj node s = elim (each (visit fuel adj) (neighbours adj node) (enter node s)) [
  | none ↦ none
  | some s' ↦ some (leave node s')
]

-- The loop that starts a visit at each node that is still white.
pub roots : (ℕ → Search → Option Search) → List ℕ → Search → Option Search
roots call [] s = some s
roots call (node ∷ rest) s =
    elim (if is_color white (get node s.color) then call node s else some s) [
      | none ↦ none
      | some s' ↦ roots call rest s'
    ]

pub start : List ℕ → Search
start nodes = record {
  color = map (λ n. (n, white)) nodes;
  stack = [];
  on_stack = [];
  seen = [];
  cycles = [];
}

-- The search over the whole graph. Each nested visit turns one more node grey, so one more than the
-- number of nodes is enough fuel.
pub search_graph : List DependencyEdge → Option Search
search_graph edges =
    roots (visit (suc (length (all_nodes edges))) (adjacency edges)) (all_nodes edges)
      (start (all_nodes edges))

abbrev pub first_or_zero : List ℕ → ℕ
first_or_zero [] = 0
first_or_zero (x ∷ xs) = x

unfoldable pub find_cycles : List DependencyEdge → List (List ℕ)
find_cycles edges = elim (search_graph edges) [
  | none ↦ []
  | some s ↦ sort_by (λ a b. leb (first_or_zero a) (first_or_zero b)) s.cycles
]
