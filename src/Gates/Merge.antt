-- ===== src/Gates/Merge.antt =====
-- packages/pipeline-cli/src/tools/ship-it/preconditions.ts, up to `firstRefusal`: the preconditions of
-- a merge. A code is a member of `EXIT`, by its name there; `slice` stands for `slice(0, 7)` on a SHA.
pub mod Laws
use kampus_pipeline.Common.{
  String, Bool, true, false, ◌||◌, Option, none, some, List, [], ◌∷◌, if◌then◌else◌, ◌==◌,
  string_eq, join, ◌&◌,
}
use kampus_pipeline.Gates.{VerdictGate, code, doc, skill, design}

pub data ExitCode : Type 0 where
  no_verdict verdict_fail verdict_stale checks_red checks_pending not_mergeable
        precondition_unknown :
      ExitCode

pub data Precondition : Type 0 where
  ok : String → String → Precondition
  refused : String → ExitCode → String → Precondition

pub data GateState : Type 0 where
  pass : String → GateState
  fail : GateState
  stale : String → GateState
  unreviewed : GateState
  self_issued : String → GateState
  unknown : String → GateState

unfoldable pub gate_precondition : (String → String) → String → GateState → Precondition
gate_precondition slice gate (pass sha) =
    ok ("gate " & gate) ("PASS @ " & slice sha & " (current head)")
gate_precondition slice gate fail = refused ("gate " & gate) verdict_fail "FAIL at the current head"
gate_precondition slice gate (stale sha) =
    refused ("gate " & gate) verdict_stale ("bound to " & slice sha & ", not the current head")
gate_precondition slice gate unreviewed =
    refused ("gate " & gate) no_verdict "no verdict — this PR was never gated"
gate_precondition slice gate (self_issued author) = refused ("gate " & gate) no_verdict (
    "ungated — the only verdict in this namespace is self-issued by the PR's author (" & author
    & ")")
gate_precondition slice gate (unknown reason) =
    refused ("gate " & gate) precondition_unknown ("could not read: " & reason)

pub data ChecksState : Type 0 where
  green red pending no_checks : ChecksState

pub record Checks : Type 0 where
  pub state : ChecksState
  pub failing : List String
  pub pending : List String

unfoldable pub checks_precondition : Checks → Precondition
checks_precondition checks = elim checks.state [
  | green ↦ ok "checks" "all required checks green"
  | red ↦ refused "checks" checks_red ("failing: " & join ", " checks.failing)
  | pending ↦
      refused "checks" checks_pending ("pending: " & join ", " checks.pending & " — not yet")
  | no_checks ↦
      refused "checks" precondition_unknown
        "no checks reported for this head — cannot confirm CI, which is not the same as green"
]

pub record Mergeability : Type 0 where
  pub state : String
  pub draft : Bool
  pub merged : Bool
  pub mergeable_state : Option String

not_mergeable_reason : String → Option String
not_mergeable_reason state =
    if state == "blocked"
    then some "branch protection has not been satisfied"
    else if state == "dirty"
    then some "conflicts with the base"
    else if state == "behind"
    then some "the base has moved ahead of it"
    else if state == "draft"
    then some "the provider still reports it as a draft"
    else none

abbrev not_permitted : String → Option String → Precondition
not_permitted state none =
    refused "mergeable" not_mergeable (state & " — not a state this gate permits")
not_permitted state (some why) = refused "mergeable" not_mergeable (state & " — " & why)

by_state : Option String → Precondition
unfolding not_mergeable_reason
by_state none =
    refused "mergeable" precondition_unknown
      "absent — the provider has not resolved mergeability, which is not the same as mergeable"
by_state (some state) =
    if state == "unknown"
    then refused "mergeable" precondition_unknown (
        state & " — the provider has not resolved mergeability, which is not the same as mergeable")
    else if state == "clean" || state == "unstable"
    then ok "mergeable" state
    else not_permitted state (not_mergeable_reason state)

unfoldable pub mergeable_precondition : Mergeability → Precondition
unfolding by_state
mergeable_precondition pr =
    if pr.merged
    then refused "mergeable" not_mergeable "already merged"
    else if pr.state == "open"
    then if pr.draft
      then refused "mergeable" not_mergeable "still a draft"
      else by_state pr.mergeable_state
    else refused "mergeable" not_mergeable ("state is " & pr.state)

-- The first refusal, as the precondition that it is.
unfoldable pub first_refusal : List Precondition → Option Precondition
first_refusal [] = none
first_refusal (ok name detail ∷ ps) = first_refusal ps
first_refusal (refused name exit detail ∷ ps) = some (refused name exit detail)
