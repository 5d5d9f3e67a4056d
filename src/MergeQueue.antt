-- ===== src/MergeQueue.antt =====
-- packages/pipeline-cli/src/tools/merge-queue-classify/merge-queue-classify.ts: what has become of a
-- pull request that was put in the merge queue.
pub mod Laws
mod Tests
use kampus_pipeline.Common.{
  ℕ, suc, String, Bool, true, false, ◌&&◌, ◌||◌, Option, none, some, List, [], ◌∷◌, ltb,
  if◌then◌else◌, ◌==◌, string_eq, filter, text_lt,
}

pub data QueueEvent : Type 0 where
  added_to_merge_queue removed_from_merge_queue : QueueEvent

pub record MergeQueueSignals : Type 0 where
  pub merged : Bool
  pub state : String
  pub last_event : Option QueueEvent
  pub merge_state_status : Option String

pub data MergeOutcome : Type 0 where
  merged ejected queued pending : MergeOutcome

pub record Classification : Type 0 where
  pub outcome : MergeOutcome
  pub reason : String

abbrev at : MergeOutcome → String → Classification
at outcome reason = record { outcome = outcome; reason = reason }

-- `s.mergeStateStatus === "QUEUED"`.
abbrev pub is_text : String → Option String → Bool
is_text t none = false
is_text t (some s) = s == t

by_event : Option QueueEvent → Option String → Classification
by_event (some removed_from_merge_queue) status =
    at ejected
      "not merged and the last merge-queue event is removed_from_merge_queue — a genuine dequeue"
by_event (some added_to_merge_queue) status =
    at queued
      "last merge-queue event is added_to_merge_queue (no subsequent removal) — still queued"
by_event none status =
    if is_text "QUEUED" status
    then at queued "mergeStateStatus==QUEUED — still in the queue"
    else at pending
        "no merge-queue timeline event yet (enqueue-settle window) — still settling, not ejected"

pub classify : MergeQueueSignals → Classification
unfolding by_event
classify s =
    if s.merged || s.state == "MERGED"
    then at merged "merged==true or state==MERGED — the queue landed the batch (terminal success)"
    else by_event s.last_event s.merge_state_status

-- An entry of the timeline; both fields may be absent.
pub record Entry : Type 0 where
  pub event : Option String
  pub created_at : Option String

pub record Indexed : Type 0 where
  pub event : QueueEvent
  pub key : String
  pub idx : ℕ

abbrev pub key_of : Option String → String
key_of none = ""
key_of (some t) = t

-- The merge-queue events, each with its time and its place in the timeline.
pub queue_event : Option String → Option QueueEvent
queue_event none = none
queue_event (some e) =
    if e == "added_to_merge_queue"
    then some added_to_merge_queue
    else if e == "removed_from_merge_queue"
    then some removed_from_merge_queue
    else none

pub events_from : ℕ → List Entry → List Indexed
unfolding queue_event
events_from idx [] = []
events_from idx (entry ∷ rest) =
    let later = events_from (suc idx) rest in
    elim (queue_event entry.event) [
      | none ↦ later
      | some e ↦ record { event = e; key = key_of entry.created_at; idx = idx } ∷ later
    ]

-- `b` comes after `a`: at a later time, or at the same time and further on in the timeline.
pub is_after : Indexed → Indexed → Bool
is_after b a = text_lt a.key b.key || b.key == a.key && ltb a.idx b.idx

-- `events.reduce(…)` from its first element.
pub latest : Indexed → List Indexed → Indexed
latest a [] = a
latest a (b ∷ rest) = latest (if is_after b a then b else a) rest

pub last_merge_queue_event : List Entry → Option QueueEvent
unfolding events_from latest is_after
last_merge_queue_event timeline = elim (events_from 0 timeline) [
  | [] ↦ none
  | a ∷ rest ↦ some (latest a rest).event
]
