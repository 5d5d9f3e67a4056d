-- ===== src/Ship/Reviewed.antt =====
-- No merge without an independent review at the current head.
use kampus_pipeline.Common.{
  ℕ, String, ◌≡◌, refl, inl, inr, true, Option, none, some, List, [], ◌∷◌, ◌++◌, map, if◌then◌else◌,
  In, All, Option-cases,
}
use kampus_pipeline.Gates.{VerdictGate}
use kampus_pipeline.Gates.Merge.{
  Precondition, pass, Checks, green, Mergeability, mergeable_precondition, first_refusal,
}
use kampus_pipeline.Gates.Merge.Laws.{
  IsOk, gate_precondition-ok, checks_precondition-ok, first_refusal-eq-none_iff,
  first_refusal-append,
}
use kampus_pipeline.Verdict
use kampus_pipeline.Verdict.{
  VerdictComment, VerdictOutcome, current, ResolveVerdictInput, resolve_verdict, parse_verdict,
  is_bound_to_head, not_after, is_some,
}
use kampus_pipeline.Verdict.Resolved.{Counts, IsNoNewer, resolve_verdict-current}
use kampus_pipeline.Ship.{
  resolve_gate, gate_state, gate_row, after_mergeable, evaluate, check_runs, gate_name,
}

module _ (lower trim slice : String → String) where
  -- A comment that counts says PASS, bound to the head, and no newer comment counts.
  abbrev pub Reviewed : ResolveVerdictInput → Type 0
  Reviewed input =
      (c : VerdictComment) × (sha : String) × Counts lower trim input c
      × (parse_verdict lower trim c.body input.gate
          ≡ some (record { polarity = Verdict.pass; sha = some sha }))
      × (is_bound_to_head lower trim (some sha) input.head_sha ≡ true)
      × ((d : VerdictComment) → Counts lower trim input d → IsNoNewer d c)

  gate_state-pass :
      (head : String) (o : VerdictOutcome) (sha : String)
      → gate_state head o ≡ pass sha
      → (id : ℕ) × (bound : String) × (o ≡ current id Verdict.pass bound)
  unfolding gate_state
  gate_state-pass head Verdict.no_verdict sha e = cc
  gate_state-pass head (Verdict.self_verdict id author) sha e = cc
  gate_state-pass head (Verdict.stale id polarity s) sha e = cc
  gate_state-pass head (Verdict.sha_less id polarity) sha e = cc
  gate_state-pass head (current id Verdict.pass s) sha e = (id, s, refl)
  gate_state-pass head (current id Verdict.fail s) sha e = cc

  gate_row-ok :
      (read : VerdictGate → Option ResolveVerdictInput) (gate : VerdictGate)
      → IsOk (gate_row lower trim slice read gate)
      → (input : ResolveVerdictInput) × (read gate ≡ some input)
        × Reviewed (record input { gate = gate })
  unfolding gate_row
  gate_row-ok read gate h =
      let (sha, e) =
        gate_precondition-ok slice (gate_name gate) (resolve_gate lower trim slice gate (read gate))
          h in
      of_read (read gate) refl e
    where
      of_read :
          (o : Option ResolveVerdictInput)
          → read gate ≡ o
          → {sha : String} → resolve_gate lower trim slice gate o ≡ pass sha
          → (input : ResolveVerdictInput) × (read gate ≡ some input)
            × Reviewed (record input { gate = gate })
      of_read none q e = unfold resolve_gate in cc
      of_read (some input) q {sha} e =
          let (id, bound, r) =
            gate_state-pass input.head_sha
              (resolve_verdict lower trim (record input { gate = gate })) sha
              (unfold resolve_gate in e) in
          let (known, (c, k, _, parsed, at_head, newest)) =
            resolve_verdict-current lower trim (record input { gate = gate }) id Verdict.pass bound
              r in
          (input, q, (c, bound, k, parsed, at_head, newest))

  rows-ok :
      (read : VerdictGate → Option ResolveVerdictInput) (gates : List VerdictGate)
      → All IsOk (map (gate_row lower trim slice read) gates)
      → (gate : VerdictGate) → In gate gates
      → (input : ResolveVerdictInput) × (read gate ≡ some input)
        × Reviewed (record input { gate = gate })
  rows-ok read [] h gate i = absurd i
  rows-ok read (g ∷ gates) h gate (inl e) = rw e (gate_row-ok read g h.0)
  rows-ok read (g ∷ gates) h gate (inr i) = rows-ok read gates h.1 gate i

  green-ok :
      (checks : Option Checks)
      → IsOk (check_runs lower trim slice checks)
      → (c : Checks) × (checks ≡ some c) × (c.state ≡ green)
  green-ok none h = absurd h
  green-ok (some c) h = (c, refl, checks_precondition-ok c h)

  -- When no precondition refuses, the pull request could be read and may be merged, its checks could
  -- be read and are green, and each required gate could be read and is reviewed.
  pub evaluate-Reviewed :
      (pr : ℕ) (gates : List VerdictGate) (state : Option Mergeability)
      (read : VerdictGate → Option ResolveVerdictInput) (checks : Option Checks)
      → first_refusal (evaluate lower trim slice pr gates state read checks) ≡ none
      → ((s : Mergeability) × (state ≡ some s) × IsOk (mergeable_precondition s))
        × ((gate : VerdictGate)
            → In gate gates
            → (input : ResolveVerdictInput) × (read gate ≡ some input)
              × Reviewed (record input { gate = gate }))
        × ((c : Checks) × (checks ≡ some c) × (c.state ≡ green))
  unfolding evaluate after_mergeable
  evaluate-Reviewed pr gates none read checks e =
      absurd
        ((first_refusal-eq-none_iff (evaluate lower trim slice pr gates none read checks)).0 e).0
  evaluate-Reviewed pr gates (some s) read checks e =
      elim (Option-cases (first_refusal (mergeable_precondition s ∷ []))) [
        | inr (p, refuses) ↦ absurd (cc (refuses, rw refuses at e))
        | inl n ↦ reviewed n (rw n at e)
      ]
    where
      rows : List Precondition
      rows = mergeable_precondition s ∷ map (gate_row lower trim slice read) gates

      reviewed :
          first_refusal (mergeable_precondition s ∷ []) ≡ none
          → first_refusal (
              if is_some (first_refusal rows)
              then rows
              else rows ++ check_runs lower trim slice checks ∷ [])
            ≡ none
          → ((k : Mergeability) × (some s ≡ some k) × IsOk (mergeable_precondition k))
            × ((gate : VerdictGate)
                → In gate gates
                → (input : ResolveVerdictInput) × (read gate ≡ some input)
                  × Reviewed (record input { gate = gate }))
            × ((c : Checks) × (checks ≡ some c) × (c.state ≡ green))
      reviewed n f = elim (Option-cases (first_refusal rows)) [
        | inr (p, refuses) ↦ absurd (cc (refuses, rw refuses at f))
        | inl clear ↦
            let all = (first_refusal-eq-none_iff rows).0 clear in
            let whole =
              (first_refusal-append rows (check_runs lower trim slice checks ∷ [])).0
                (rw clear at f) in
            (
              (s, refl, all.0),
              rows-ok read gates all.1,
              green-ok checks
                  ((first_refusal-eq-none_iff (check_runs lower trim slice checks ∷ [])).0
                    whole.1).0,
            )
      ]
