-- ===== src/EpicLedger/Graph/Tests.antt =====
-- A cycle of two issues, and an edge out of it.
use kampus_pipeline.Common.{
  refl, inl, List, [], ◌∷◌, In, get, set, sort_by, insert_by, distinct, filter, contains,
}
use kampus_pipeline.EpicLedger.Ledger.{DependencyEdge}
use kampus_pipeline.EpicLedger.Graph.{
  neighbours, adjacency, adjacency_from, push_edge, find_cycles, search_graph, roots, visit, each,
  step, enter, leave, all_nodes, endpoints, start, record_cycle, slice_from, pop, remove,
}
use kampus_pipeline.EpicLedger.Graph.Walks.{IsCycle, find_cycles-IsCycle}

abbrev loop : List DependencyEdge
loop =
    record { child = 1; requires = 2 }
    ∷ record { child = 2; requires = 1 }
    ∷ record { child = 2; requires = 3 }
    ∷ []

reported : In (1 ∷ 2 ∷ []) (find_cycles loop)
unfolding find_cycles search_graph roots visit each step enter leave neighbours adjacency
    adjacency_from push_edge all_nodes endpoints start record_cycle slice_from pop remove get set
    sort_by insert_by distinct filter contains
reported = inl refl

find_cycles-IsCycle_example : IsCycle (adjacency loop) (1 ∷ 2 ∷ [])
find_cycles-IsCycle_example = find_cycles-IsCycle loop (1 ∷ 2 ∷ []) reported
