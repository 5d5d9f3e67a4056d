-- ===== src/EpicLedger/Gate/Sound.antt =====
-- What a verdict of the gate says of the ledger that was read.
use kampus_pipeline.Common.{
  ℕ, ◌≡◌, refl, sym, ◌≢◌, List, [], ◌∷◌, nat_beq_iff, length-eq-zero_iff, length,
}
use kampus_pipeline.EpicLedger.Ledger.{EpicLedger, Defect}
use kampus_pipeline.EpicLedger.Validate.{validate_ledger, ledger_signature, is_pickable}
use kampus_pipeline.EpicLedger.Validate.Rules.{IsClean}
use kampus_pipeline.EpicLedger.Validate.Clean.{is_pickable_iff}
use kampus_pipeline.EpicLedger.Effects.{
  Github, ok, ◌>>◌, return, for_each, Yields, then_with-Yields, Yields-map,
}
use kampus_pipeline.EpicLedger.Gate.{
  GateVerdict, pass, fail, run_gate, decide, planned_children, pass_verdict,
}

validate-IsClean : (l : EpicLedger) → validate_ledger l ≡ [] → IsClean l
unfolding is_pickable
validate-IsClean l e =
    (is_pickable_iff l).0 (
      (nat_beq_iff (length (validate_ledger l)) 0).1 ((length-eq-zero_iff (validate_ledger l)).1 e))

module _ {W E : Type 0} (github : Github W E) (epic : ℕ) where
  -- A verdict holds of a ledger: a pass where it is clean, with the planned children; a fail with
  -- its defects, of which there are some, and their signature.
  abbrev pub Fits : EpicLedger → GateVerdict → Type 0
  Fits l (pass e flipped) = (e ≡ epic) × IsClean l × (flipped ≡ planned_children l)
  Fits l (fail e defects signature) =
      (e ≡ epic) × (defects ≢ []) × (defects ≡ validate_ledger l) × (signature ≡ ledger_signature l)

  -- There was a read of the epic's ledger, of which the verdict holds.
  abbrev pub IsGrounded : GateVerdict → Type 0
  IsGrounded v =
      (l : EpicLedger) × (w : W) × (w' : W) × (github.epic_ledger epic w ≡ (ok l, w')) × Fits l v

  decide-Fits :
      (l : EpicLedger) (ds : List Defect) (w : W)
      → validate_ledger l ≡ ds
      → Yields (Fits l) (decide github epic l ds w)
  unfolding decide
  decide-Fits l [] w e =
      let flipped = planned_children l in
      let flips = for_each github.flip_child_to_triaged flipped in
      let posts = github.post_comment epic (pass_verdict epic l flipped) in
      then_with-Yields (Fits l) (λ _. return (pass epic flipped)) ((flips >> posts) w)
        λ _ _ _. (refl, validate-IsClean l e, refl)
  decide-Fits l (d ∷ ds) w e =
      then_with-Yields (Fits l) _ (github.post_comment epic _ w)
        λ _ w₁ _. (refl, (λ q. cc), sym e, refl)

  -- Where the gate returns a verdict, the verdict fits a ledger that it read: a pass means a clean
  -- ledger and carries its planned children, a fail carries the ledger's defects, at least one, and
  -- its signature.
  pub run_gate-IsGrounded : (w : W) → Yields IsGrounded (run_gate github epic w)
  unfolding run_gate
  run_gate-IsGrounded w = then_with-Yields IsGrounded _ (github.epic_ledger epic w) λ l w' e.
      Yields-map (Fits l) IsGrounded (decide github epic l (validate_ledger l) w')
        (λ v h. (l, w, w', e, h)) (decide-Fits l (validate_ledger l) w' refl)
