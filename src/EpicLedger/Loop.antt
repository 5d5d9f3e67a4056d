-- ===== src/EpicLedger/Loop.antt =====
-- epic-ledger/loop.ts: the convergence loop. The recursion `step` takes fuel; `none` means that it
-- ran out, which does not happen (Loop/Total).
pub mod Total
pub mod Bounds
use kampus_pipeline.Common.{
  ℕ, zero, suc, ◌+◌, ◌-◌, String, Bool, true, false, ◌&&◌, Option, none, some, List, [], ◌∷◌, ltb,
  leb, if◌then◌else◌, ◌==◌, string_eq, show, join, length, ◌&◌,
}
use kampus_pipeline.EpicLedger.Ledger.{Defect}
use kampus_pipeline.EpicLedger.Gate.{GateVerdict, pass, fail, defect_rows, run_gate}
use kampus_pipeline.EpicLedger.Effects.{
  Github, RePlanner, Io, Result, ok, ◌>>=◌, ◌>>◌, return, then_with,
}

pub data StallReason : Type 0 where
  repeated_signature non_shrinking ceiling_reached : StallReason

-- `converged` carries the flipped children, `parked` the reason and the defects left; both carry
-- the epic first and the iterations last.
pub data LoopOutcome : Type 0 where
  converged : ℕ → List ℕ → ℕ → LoopOutcome
  parked : ℕ → StallReason → List Defect → ℕ → LoopOutcome

abbrev pub default_ceiling : ℕ
default_ceiling = 12

why : StallReason → String
why repeated_signature =
    "the same hard-defect set recurred after a re-plan (a cycle — re-planning is not changing the structural outcome)"
why non_shrinking =
    "the hard-defect set stopped shrinking across a re-plan (a stall — re-planning is no longer making progress)"
why ceiling_reached = "the re-plan ceiling was reached without convergence (runaway backstop)"

pub park_comment : ℕ → StallReason → List Defect → String
unfolding why
park_comment epic reason defects = join "\n" (
    "**review-plan: PARKED — needs-info**"
    ∷ ""
    ∷ ("The re-plan convergence loop parked epic #" & show epic & " because " & why reason & ".")
    ∷ "The unresolved hard defects below need a human or a different plan; the loop will not re-plan again:"
    ∷ ""
    ∷ defect_rows defects
    ∷ [])

pub record LoopState : Type 0 where
  pub iteration : ℕ
  pub prev_signature : Option String
  pub prev_count : Option ℕ
  pub prev_defects : List Defect

abbrev pub initial : LoopState
initial = record { iteration = 1; prev_signature = none; prev_count = none; prev_defects = [] }

-- `prev.prevSignature !== undefined && signature === prev.prevSignature`.
abbrev pub is_repeat : Option String → String → Bool
is_repeat none signature = false
is_repeat (some prev) signature = signature == prev

-- `prev.prevCount !== undefined && defects.length >= prev.prevCount`.
abbrev pub has_not_shrunk : Option ℕ → ℕ → Bool
has_not_shrunk none count = false
has_not_shrunk (some prev) count = leb prev count

module _ {W E : Type 0} (github : Github W E) (planner : RePlanner W E) (epic ceiling : ℕ) where
  pub park : StallReason → List Defect → ℕ → Io W E (Option LoopOutcome)
  park reason defects iteration =
      github.post_comment epic (park_comment epic reason defects)
      >> github.park_needs_info epic
      >> return (some (parked epic reason defects iteration))

  -- The verdict of one pass: an outcome, or the state of the next pass.
  pub judge :
      (LoopState → Io W E (Option LoopOutcome))
      → LoopState
      → GateVerdict
      → Io W E (Option LoopOutcome)
  unfolding park
  judge next prev (pass e flipped) = return (some (converged epic flipped prev.iteration))
  judge next prev (fail e defects signature) =
      if is_repeat prev.prev_signature signature
      then park repeated_signature defects prev.iteration
      else if has_not_shrunk prev.prev_count (length defects)
      then park non_shrinking defects prev.iteration
      else next (record {
        iteration = prev.iteration + 1;
        prev_signature = some signature;
        prev_count = some (length defects);
        prev_defects = defects;
      })

  -- The re-plan that every pass but the first begins with.
  pub plan_again : LoopState → Io W E (Unit {0})
  plan_again prev = if ltb 1 prev.iteration then planner.re_plan epic else return tt

  pub step : ℕ → LoopState → Io W E (Option LoopOutcome)
  unfolding judge plan_again park
  step zero prev w = (ok none, w)
  step (suc fuel) prev w =
      let body = (plan_again prev >> (run_gate github epic >>= judge (step fuel) prev)) w in
      if ltb ceiling prev.iteration
      then park ceiling_reached prev.prev_defects (prev.iteration - 1) w
      else body

  -- The passes end at the ceiling, so there are at most one more than it.
  unfoldable pub run_convergence_loop : Io W E (Option LoopOutcome)
  unfolding step
  run_convergence_loop = step (suc ceiling) initial
