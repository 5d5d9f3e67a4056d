-- ===== src/MergeQueue/Tests.antt =====
-- A pull request taken out of the queue and put back, its timeline out of order.
use kampus_pipeline.Common.{String, false, some, List, [], ◌∷◌}
use kampus_pipeline.MergeQueue.{MergeQueueSignals, removed_from_merge_queue, Entry}

abbrev removed : MergeQueueSignals
removed = record {
  merged = false;
  state = "OPEN";
  last_event = some removed_from_merge_queue;
  merge_state_status = some "CLEAN";
}

abbrev entry : String → String → Entry
entry event at = record { event = some event; created_at = some at }

abbrev timeline : List Entry
timeline =
    entry "added_to_merge_queue" "2026-01-03T00:00:00Z"
    ∷ entry "labeled" "2026-01-04T00:00:00Z"
    ∷ entry "removed_from_merge_queue" "2026-01-02T00:00:00Z"
    ∷ []
