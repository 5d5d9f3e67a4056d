-- ===== src/EpicLedger/Loop/Bounds.antt =====
-- How often the loop re-plans.
use kampus_pipeline.Common.{
  ℕ, zero, suc, ◌+◌, ◌-◌, ◌≤◌, String, ◌≡◌, refl, inl, inr, Option, some, List, [], ◌∷◌, arith,
  Bool-cases, ltb, length,
}
use kampus_pipeline.EpicLedger.Ledger.{EpicLedger, Defect}
use kampus_pipeline.EpicLedger.Validate.{validate_ledger, ledger_signature}
use kampus_pipeline.EpicLedger.Effects.{
  Github, RePlanner, Io, Result, ok, err, then_with, return, ◌>>◌, ◌>>=◌, for_each,
}
use kampus_pipeline.EpicLedger.Gate.{
  GateVerdict, pass, fail, run_gate, decide, planned_children, pass_verdict, fail_verdict,
}
use kampus_pipeline.EpicLedger.Loop.{
  StallReason, repeated_signature, non_shrinking, ceiling_reached, LoopOutcome, parked, LoopState,
  initial, is_repeat, has_not_shrunk, park, judge, plan_again, step, run_convergence_loop,
  park_comment,
}

module _ {W E : Type 0} (plans : W → ℕ) where
  -- Running the effect raises the count by `k` at most, whether it succeeds or fails.
  abbrev pub Adds : {A : Type 0} → ℕ → Io W E A → Type 0
  Adds k m = (w : W) → plans (m w).1 ≤ plans w + k

  Adds-then :
      {A B : Type 0} (k : ℕ) (f : A → Io W E B) (x : Result E A × W)
      → ((a : A) → Adds k (f a))
      → plans (then_with f x).1 ≤ plans x.1 + k
  Adds-then k f (ok a, w) h = h a w
  Adds-then k f (err e, w) h = omega arith

  Adds-for_each :
      {A : Type 0} (f : A → Io W E (Unit {0})) (xs : List A)
      → ((a : A) → Adds 0 (f a))
      → Adds 0 (for_each f xs)
  unfolding for_each
  Adds-for_each f [] h w = omega arith
  Adds-for_each f (x ∷ xs) h w =
      omega (arith, Adds-then 0 (λ _. for_each f xs) (f x w) (λ _. Adds-for_each f xs h), h x w)

-- The re-plans asked for, as a count of the world: a re-plan raises it by one at most, and nothing
-- else that the loop runs raises it.
pub record Counted {W E : Type 0} (plans : W → ℕ) (github : Github W E) (planner : RePlanner W E)
    : Type 0 where
  pub reads : (n : ℕ) → Adds plans 0 (github.epic_ledger n)
  pub flips : (n : ℕ) → Adds plans 0 (github.flip_child_to_triaged n)
  pub posts : (n : ℕ) (body : String) → Adds plans 0 (github.post_comment n body)
  pub parks : (n : ℕ) → Adds plans 0 (github.park_needs_info n)
  pub plans_once : (n : ℕ) → Adds plans 1 (planner.re_plan n)

module _ {W E : Type 0} (plans : W → ℕ) (github : Github W E) (planner : RePlanner W E)
    (epic ceiling : ℕ) (c : Counted plans github planner) where
  decide-Adds : (l : EpicLedger) (ds : List Defect) → Adds plans 0 (decide github epic l ds)
  unfolding decide
  decide-Adds l [] w =
      let flipped = planned_children l in
      let flips = for_each github.flip_child_to_triaged flipped in
      let body = pass_verdict epic l flipped in
      omega (
        arith,
        Adds-then plans 0 (λ _. return (pass epic flipped))
            ((flips >> github.post_comment epic body) w) (λ _ v. omega arith),
        Adds-then plans 0 (λ _. github.post_comment epic body) (flips w) (λ _. c.posts epic body),
        Adds-for_each plans github.flip_child_to_triaged flipped c.flips w,
      )
  decide-Adds l (d ∷ ds) w =
      let body = fail_verdict epic l (d ∷ ds) in
      omega (
        arith,
        Adds-then plans 0 (λ _. return (fail epic (d ∷ ds) (ledger_signature l)))
            (github.post_comment epic body w) (λ _ v. omega arith),
        c.posts epic body w,
      )

  run_gate-Adds : Adds plans 0 (run_gate github epic)
  unfolding run_gate
  run_gate-Adds w = omega (
    arith,
    Adds-then plans 0 (λ l. decide github epic l (validate_ledger l)) (github.epic_ledger epic w)
        (λ l. decide-Adds l (validate_ledger l)),
    c.reads epic w,
  )

  park-Adds :
      (reason : StallReason) (ds : List Defect) (n : ℕ)
      → Adds plans 0 (park github planner epic ceiling reason ds n)
  unfolding park
  park-Adds reason ds n w =
      let body = park_comment epic reason ds in
      omega (
        arith,
        Adds-then plans 0 (λ _. return (some (parked epic reason ds n)))
            ((github.post_comment epic body >> github.park_needs_info epic) w) (λ _ v. omega arith),
        Adds-then plans 0 (λ _. github.park_needs_info epic) (github.post_comment epic body w)
            (λ _. c.parks epic),
        c.posts epic body w,
      )

  -- The re-plans that the passes from an iteration on can still ask for.
  abbrev room : ℕ → ℕ
  room i = ceiling + 1 - i

  judge-Adds :
      (call : LoopState → Io W E (Option LoopOutcome)) (s : LoopState) (v : GateVerdict)
      → ((s' : LoopState)
          → s'.iteration ≡ s.iteration + 1
          → Adds plans (room s'.iteration) (call s'))
      → Adds plans (room (s.iteration + 1)) (judge github planner epic ceiling call s v)
  unfolding judge
  judge-Adds call s (pass e flipped) h w = omega arith
  judge-Adds call s (fail e ds sig) h w = elim (Bool-cases (is_repeat s.prev_signature sig)) [
    | inl repeated ↦ rw repeated (omega (arith, park-Adds repeated_signature ds s.iteration w))
    | inr new ↦ elim (Bool-cases (has_not_shrunk s.prev_count (length ds))) [
      | inl stuck ↦ rw (new, stuck) (omega (arith, park-Adds non_shrinking ds s.iteration w))
      | inr shrunk ↦ rw (new, shrunk) (h _ refl w)
    ]
  ]

  -- One pass, with a re-plan before it that counts as `k`.
  body-Adds :
      (call : LoopState → Io W E (Option LoopOutcome)) (s : LoopState) (k : ℕ)
      (x : Result E (Unit {0}) × W) (w : W)
      → ((s' : LoopState)
          → s'.iteration ≡ s.iteration + 1
          → Adds plans (room s'.iteration) (call s'))
      → plans x.1 ≤ plans w + k
      → plans
          (then_with (λ _. run_gate github epic >>= judge github planner epic ceiling call s) x).1
        ≤ plans w + k + room (s.iteration + 1)
  body-Adds call s k x w h before = omega (
    arith,
    Adds-then plans (room (s.iteration + 1))
        (λ _. run_gate github epic >>= judge github planner epic ceiling call s) x
        (λ _ w₁. omega (
          arith,
          Adds-then plans (room (s.iteration + 1)) (judge github planner epic ceiling call s)
              (run_gate github epic w₁) (λ v. judge-Adds call s v h),
          run_gate-Adds w₁,
        )),
  )

  plan_again-Adds : (s : LoopState) → Adds plans 1 (plan_again github planner epic ceiling s)
  unfolding plan_again
  plan_again-Adds s w = elim (Bool-cases (ltb 1 s.iteration)) [
    | inl later ↦ rw later (c.plans_once epic w)
    | inr first ↦ rw first (omega arith)
  ]

  step-Adds :
      (fuel : ℕ) (s : LoopState)
      → 2 ≤ s.iteration
      → Adds plans (room s.iteration) (step github planner epic ceiling fuel s)
  unfolding step
  step-Adds zero s later w = omega arith
  step-Adds (suc fuel) s later w = elim (Bool-cases (ltb ceiling s.iteration)) [
    | inl over ↦
        rw over (omega (arith, park-Adds ceiling_reached s.prev_defects (s.iteration - 1) w))
    | inr ahead ↦
        let call = step github planner epic ceiling fuel in
        let below : s.iteration ≤ ceiling = ground arith in
        rw ahead (
          omega (
            arith,
            body-Adds call s 1 (plan_again github planner epic ceiling s w) w
                (λ s' e. step-Adds fuel s' (omega arith)) (plan_again-Adds s w),
          ))
  ]

  -- With a ceiling of at least 1, the loop asks for fewer re-plans than its ceiling allows passes,
  -- whatever the effects do, failures included, where a re-plan adds at most one to the count and the
  -- calls of GitHub add none.
  pub run_convergence_loop-Adds :
      1 ≤ ceiling → Adds plans (ceiling - 1) (run_convergence_loop github planner epic ceiling)
  unfolding run_convergence_loop step plan_again
  run_convergence_loop-Adds pos w = elim (Bool-cases (ltb ceiling 1)) [
    | inl over ↦ absurd (ground arith)
    | inr ahead ↦
        let call = step github planner epic ceiling ceiling in
        rw ahead (
          omega (
            arith,
            body-Adds call initial 0 (ok tt, w) w (λ s' e. step-Adds ceiling s' (omega arith))
                (omega arith),
          ))
  ]
