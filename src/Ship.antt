-- ===== src/Ship.antt =====
-- packages/pipeline-cli/src/tools/ship-it/command.ts, `resolveGate` and `evaluate`: the preconditions
-- of a merge in the order in which the command reads them. The reads of GitHub are parameters: what
-- they answer, with `none` for a read that failed.
pub mod Reviewed
mod Tests
use kampus_pipeline.Common.{
  ℕ, String, Bool, true, false, Option, none, some, List, [], ◌∷◌, ◌++◌, map, if◌then◌else◌, show,
  ◌&◌,
}
use kampus_pipeline.Gates.{VerdictGate, code, doc, skill, design}
use kampus_pipeline.Gates.Merge.{
  Precondition, refused, precondition_unknown, GateState, pass, fail, stale, unreviewed,
  self_issued, unknown, gate_precondition, Checks, checks_precondition, Mergeability,
  mergeable_precondition, first_refusal,
}
use kampus_pipeline.Verdict
use kampus_pipeline.Verdict.{
  Polarity, VerdictOutcome, no_verdict, self_verdict, sha_less, current, ResolveVerdictInput,
  resolve_verdict, is_some,
}

abbrev pub gate_name : VerdictGate → String
gate_name code = "code"
gate_name doc = "doc"
gate_name skill = "skill"
gate_name design = "design"

-- The outcome of a read, with the head it was read at, as the state of the gate.
pub gate_state : String → VerdictOutcome → GateState
gate_state head no_verdict = unreviewed
gate_state head (self_verdict id author) = self_issued author
gate_state head (Verdict.stale id polarity sha) = stale sha
gate_state head (sha_less id polarity) = stale "unbound"
gate_state head (current id Verdict.pass sha) = pass head
gate_state head (current id Verdict.fail sha) = fail

module _ (lower trim slice : String → String) where
  -- `read` answers with what the verdict is resolved from, in the namespace of the gate.
  pub resolve_gate : VerdictGate → Option ResolveVerdictInput → GateState
  unfolding gate_state
  resolve_gate gate none = unknown "read failed"
  resolve_gate gate (some input) =
      gate_state input.head_sha (resolve_verdict lower trim (record input { gate = gate }))

  abbrev check_runs : Option Checks → Precondition
  check_runs none = refused "checks" precondition_unknown "could not read check runs"
  check_runs (some checks) = checks_precondition checks

  pub gate_row : (VerdictGate → Option ResolveVerdictInput) → VerdictGate → Precondition
  unfolding resolve_gate
  gate_row read gate = gate_precondition slice (gate_name gate) (resolve_gate gate (read gate))

  -- The rows from the gates on.
  pub after_mergeable :
      (VerdictGate → Option ResolveVerdictInput)
      → List VerdictGate
      → Option Checks
      → List Precondition
      → List Precondition
  unfolding gate_row
  after_mergeable read gates checks out =
      let reviewed = out ++ map (gate_row read) gates in
      if is_some (first_refusal reviewed) then reviewed else reviewed ++ check_runs checks ∷ []

  pub evaluate :
      ℕ
      → List VerdictGate
      → Option Mergeability
      → (VerdictGate → Option ResolveVerdictInput)
      → Option Checks
      → List Precondition
  unfolding after_mergeable
  evaluate pr gates none read checks =
      refused "mergeable" precondition_unknown ("could not read #" & show pr) ∷ []
  evaluate pr gates (some state) read checks =
      let out = mergeable_precondition state ∷ [] in
      if is_some (first_refusal out) then out else after_mergeable read gates checks out
