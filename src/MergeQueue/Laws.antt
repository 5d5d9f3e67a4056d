-- ===== src/MergeQueue/Laws.antt =====
-- An ejection is never read from anything but the last queue event.
use kampus_pipeline.Common.{
  ℕ, zero, suc, ◌≤◌, ◌+◌, String, Option, text_lt, ◌≡◌, ◌≢◌, ◌↔◌, ◌⊎◌, true, false, none, some,
  List, [], ◌∷◌, arith, string_eq,
}
use kampus_pipeline.MergeQueue.{
  QueueEvent, added_to_merge_queue, removed_from_merge_queue, MergeQueueSignals, merged, ejected,
  pending, classify, Entry, Indexed, is_text,
}

-- A poll is classified as an ejection exactly when the pull request is not merged and the last queue
-- event is a removal; as merged exactly when either merge signal says so; and as pending exactly
-- when it is not merged, the queue has emitted no event, and the status is not that of a queued one.
pub classify_iff :
    (s : MergeQueueSignals)
    → (((classify s).outcome ≡ ejected) ↔ (
        (s.merged ≡ false) × (s.state ≢ "MERGED") × (s.last_event ≡ some removed_from_merge_queue)))
      × (((classify s).outcome ≡ merged) ↔ ((s.merged ≡ true) ⊎ (s.state ≡ "MERGED")))
      × (((classify s).outcome ≡ pending) ↔ (
          (s.merged ≡ false)
          × (s.state ≢ "MERGED")
          × (s.last_event ≡ none)
          × (is_text "QUEUED" s.merge_state_status ≡ false)))
unfolding classify
classify_iff s = (
  ground (arith, string_eq.same_iff s.state "MERGED"),
  ground (arith, string_eq.same_iff s.state "MERGED"),
  ground (arith, string_eq.same_iff s.state "MERGED"),
)

abbrev event_name : QueueEvent → String
event_name added_to_merge_queue = "added_to_merge_queue"
event_name removed_from_merge_queue = "removed_from_merge_queue"

-- The time of an entry; one without a time has the empty text.
abbrev pub time_of : Option String → String
time_of none = ""
time_of (some t) = t

-- The entry at a place of the timeline.
abbrev At : List Entry → ℕ → Entry → Type 0
At [] i x = ⊥
At (y ∷ ys) zero x = y ≡ x
At (y ∷ ys) (suc i) x = At ys i x

-- The entry at a place of the timeline is one of the merge queue.
abbrev pub Emits : List Entry → ℕ → Entry → QueueEvent → Type 0
Emits timeline i x e = At timeline i x × (x.event ≡ some (event_name e))

-- The entry `y`, at place `j`, has no later time than the entry `x`, at place `i`, and at the same time
-- no later place.
abbrev pub NotLater : ℕ → Entry → ℕ → Entry → Type 0
NotLater j y i x =
    (text_lt (time_of x.created_at) (time_of y.created_at) ≡ false)
    × (time_of y.created_at ≡ time_of x.created_at → j ≤ i)

-- The index of an entry of the merge queue, with its time and its place.
abbrev IndexOf : ℕ → Indexed → ℕ → Entry → Type 0
IndexOf k v i x = (v.key ≡ time_of x.created_at) × (v.idx ≡ k + i)
