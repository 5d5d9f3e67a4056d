-- ===== src/EpicLedger/Loop/Total.antt =====
-- The loop ends within its ceiling, and what its outcome says of the ledger.
use kampus_pipeline.Common.{
  ℕ, zero, suc, ◌+◌, ◌-◌, ◌≤◌, ◌<◌, String, ◌≡◌, refl, ◌≢◌, ◌⊎◌, inl, inr, Option, none, some, List,
  [], arith, Bool-cases, ltb, length, false, Option-cases,
}
use kampus_pipeline.EpicLedger.Ledger.{EpicLedger, Defect}
use kampus_pipeline.EpicLedger.Validate.{validate_ledger}
use kampus_pipeline.EpicLedger.Validate.Rules.{IsClean}
use kampus_pipeline.EpicLedger.Effects.{
  Github, RePlanner, Io, ok, ◌>>◌, return, Yields, then_with-Yields, Yields-map,
}
use kampus_pipeline.EpicLedger.Gate.{GateVerdict, pass, fail, run_gate, planned_children}
use kampus_pipeline.EpicLedger.Gate.Sound.{run_gate-IsGrounded, IsGrounded}
use kampus_pipeline.EpicLedger.Loop.{
  StallReason, repeated_signature, non_shrinking, ceiling_reached, LoopOutcome, converged, parked,
  LoopState, initial, park_comment, is_repeat, has_not_shrunk, park, judge, plan_again, step,
  run_convergence_loop,
}

module _ {W E : Type 0} (github : Github W E) (planner : RePlanner W E) (epic ceiling : ℕ) where
  -- At some point the ledger was read and met the property.
  abbrev pub WasRead : (EpicLedger → Type 0) → Type 0
  WasRead P = (l : EpicLedger) × (w : W) × (w' : W) × (github.epic_ledger epic w ≡ (ok l, w')) × P l

  -- What an outcome promises, by its kind. `first` bounds the iterations from the state before.
  abbrev pub IsRight : ℕ → Option LoopOutcome → Type 0
  IsRight bound none = ⊥
  IsRight bound (some (converged e flipped n)) =
      (e ≡ epic)
      × (n ≤ ceiling)
      × (n ≤ bound)
      × WasRead (λ l. IsClean l × (flipped ≡ planned_children l))
  IsRight bound (some (parked e repeated_signature defects n)) =
      (e ≡ epic)
      × (n ≤ ceiling)
      × (n ≤ bound)
      × (2 ≤ n)
      × (defects ≢ [])
      × WasRead (λ l. defects ≡ validate_ledger l)
  IsRight bound (some (parked e non_shrinking defects n)) =
      (e ≡ epic)
      × (n ≤ ceiling)
      × (n ≤ bound)
      × (2 ≤ n)
      × (defects ≢ [])
      × WasRead (λ l. defects ≡ validate_ledger l)
  IsRight bound (some (parked e ceiling_reached defects n)) =
      (e ≡ epic) × (n ≡ ceiling) × (n ≤ bound)

  -- The passes that the previous count of defects leaves, since each pass must lower it.
  abbrev pub bound_of : LoopState → ℕ
  bound_of s = elim s.prev_count [ none ↦ ceiling | some c ↦ s.iteration + c ]

  -- The states that the recursion reaches.
  pub record IsReached (s : LoopState) : Type 0 where
    pub in_range : s.iteration ≤ ceiling + 1
    pub started : 1 ≤ s.iteration
    pub first_signature : s.iteration ≤ 1 → s.prev_signature ≡ none
    pub first_count : s.iteration ≤ 1 → s.prev_count ≡ none

  abbrev Right : LoopState → Option LoopOutcome → Type 0
  Right s o = IsRight (bound_of s) o

  park-stalled :
      (bound : ℕ) (reason : StallReason) (ds : List Defect) (n : ℕ) (w : W)
      → IsRight bound (some (parked epic reason ds n))
      → Yields (IsRight bound) (park github planner epic ceiling reason ds n w)
  unfolding park
  park-stalled bound reason ds n w h =
      let posts = github.post_comment epic (park_comment epic reason ds) in
      then_with-Yields (IsRight bound) (λ _. return (some (parked epic reason ds n)))
        ((posts >> github.park_needs_info epic) w) λ _ _ _. h

  -- A larger bound, or the ceiling itself, serves as well.
  IsRight-weaken :
      (b b' : ℕ) (o : Option LoopOutcome) → (b ≤ b') ⊎ (b' ≡ ceiling) → IsRight b o → IsRight b' o
  IsRight-weaken b b' none le h = h
  IsRight-weaken b b' (some (converged e flipped n)) le h = (h.0, h.1, ground arith, h.3)
  IsRight-weaken b b' (some (parked e repeated_signature ds n)) le h =
      (h.0, h.1, ground arith, h.3, h.4, h.5)
  IsRight-weaken b b' (some (parked e non_shrinking ds n)) le h =
      (h.0, h.1, ground arith, h.3, h.4, h.5)
  IsRight-weaken b b' (some (parked e ceiling_reached ds n)) le h = (h.0, h.1, ground arith)

  module _ (s : LoopState) (r : IsReached s) (ahead : s.iteration ≤ ceiling) where
    abbrev next : List Defect → String → LoopState
    next ds sig = record {
      iteration = s.iteration + 1;
      prev_signature = some sig;
      prev_count = some (length ds);
      prev_defects = ds;
    }

    -- The state of the next pass is reached, and its bound is within the bound before.
    next-IsReached : (ds : List Defect) (sig : String) → IsReached (next ds sig)
    next-IsReached ds sig = record {
      in_range = omega arith;
      started = omega arith;
      first_signature = λ h. absurd (omega (arith, r.started));
      first_count = λ h. absurd (omega (arith, r.started));
    }

    judge-Right :
        (call : LoopState → Io W E (Option LoopOutcome)) (v : GateVerdict) (w : W)
        → IsGrounded github epic v
        → ((s' : LoopState) (w' : W)
            → IsReached s'
            → s'.iteration ≡ s.iteration + 1
            → Yields (Right s') (call s' w'))
        → Yields (Right s) (judge github planner epic ceiling call s v w)
    unfolding judge
    judge-Right call (pass e flipped) w (l, w₁, w₂, got, (same, clean, planned)) ih =
        (refl, ahead, in_bound (bound_of s) refl, (l, w₁, w₂, got, (clean, planned)))
      where
        in_bound : (b : ℕ) → bound_of s ≡ b → s.iteration ≤ b
        in_bound b e = ground arith
    judge-Right call (fail e ds sig) w (l, w₁, w₂, got, (same, some_found, are, _)) ih =
        elim (Bool-cases (is_repeat s.prev_signature sig)) [
          | inl repeated ↦ rw repeated (
              park-stalled (bound_of s) repeated_signature ds s.iteration w (
                refl,
                ahead,
                ground arith,
                ground (arith, r.first_signature),
                some_found,
                (l, w₁, w₂, got, are),
              ))
          | inr new ↦ elim (Bool-cases (has_not_shrunk s.prev_count (length ds))) [
            | inl stuck ↦
                rw (new, stuck)
                  (park-stalled (bound_of s) non_shrinking ds s.iteration w (
                    refl,
                    ahead,
                    ground arith,
                    ground (arith, r.first_count),
                    some_found,
                    (l, w₁, w₂, got, are),
                  ))
            | inr shrunk ↦
                rw (new, shrunk)
                  (Yields-map (Right (next ds sig)) (Right s) (call (next ds sig) w)
                    (λ o. IsRight-weaken (bound_of (next ds sig)) (bound_of s) o (lower ds shrunk))
                    (ih (next ds sig) w (next-IsReached ds sig) refl))
          ]
        ]
      where
        lower :
            (ds : List Defect)
            → has_not_shrunk s.prev_count (length ds) ≡ false
            → (s.iteration + 1 + length ds ≤ bound_of s) ⊎ (bound_of s ≡ ceiling)
        lower ds e = elim (Option-cases s.prev_count) [
          | inl n ↦ inr (ground arith)
          | inr (c, q) ↦ inl (ground arith)
        ]

  step-Right :
      (fuel : ℕ) (s : LoopState) (w : W)
      → IsReached s
      → ceiling + 1 < s.iteration + fuel
      → Yields (Right s) (step github planner epic ceiling fuel s w)
  unfolding step
  step-Right zero s w r enough = absurd (omega (arith, r.in_range))
  step-Right (suc fuel) s w r enough = elim (Bool-cases (ltb ceiling s.iteration)) [
    | inl over ↦ rw over (
        park-stalled (bound_of s) ceiling_reached s.prev_defects (s.iteration - 1) w
          (refl, ground (arith, r.in_range), ground (arith, r.in_range)))
    | inr ahead ↦ rw ahead (
        then_with-Yields (Right s) _ (plan_again github planner epic ceiling s w) λ _ w₁ _.
          then_with-Yields (Right s)
            (judge github planner epic ceiling (step github planner epic ceiling fuel) s)
            (run_gate github epic w₁)
            λ v w₂ e.
              judge-Right s r (ground arith) (step github planner epic ceiling fuel) v w₂
                (grounded w₁ v w₂ e) λ s' w' r' i. step-Right fuel s' w' r' (omega arith))
  ]
    where
      grounded :
          (w₁ : W) (v : GateVerdict) (w₂ : W)
          → run_gate github epic w₁ ≡ (ok v, w₂)
          → IsGrounded github epic v
      grounded w₁ v w₂ e = rw e at (run_gate-IsGrounded github epic w₁)

  -- If no effect fails, the loop returns an outcome. Converged, it carries the planned children of
  -- a clean ledger that was read; parked on a stall, it has passed at least twice and carries the
  -- defects, at least one, of a ledger that was read; either comes within the ceiling. Parked at the
  -- ceiling, it has made as many passes as the ceiling allows.
  pub run_convergence_loop-IsRight :
      (w : W) → Yields (IsRight ceiling) (run_convergence_loop github planner epic ceiling w)
  unfolding run_convergence_loop
  run_convergence_loop-IsRight w = step-Right (suc ceiling) initial w started (omega arith)
    where
      started : IsReached initial
      started = record {
        in_range = omega arith;
        started = omega arith;
        first_signature = λ _. refl;
        first_count = λ _. refl;
      }
