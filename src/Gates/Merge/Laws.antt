-- ===== src/Gates/Merge/Laws.antt =====
-- What the preconditions of a merge let through.
use kampus_pipeline.Common.{
  String, ◌≡◌, refl, ap, ◌↔◌, ◌⊎◌, inl, inr, false, Option, none, some, List, [], ◌∷◌, ◌++◌, arith,
  ◌==◌, string_eq, All, Bool-cases,
}
use kampus_pipeline.Gates.Merge.{
  Precondition, ok, refused, GateState, pass, fail, stale, unreviewed, self_issued, unknown,
  gate_precondition, ChecksState, green, red, pending, no_checks, Checks, checks_precondition,
  Mergeability, mergeable_precondition, by_state, not_permitted, not_mergeable_reason,
  first_refusal,
}

-- A precondition that lets the merge go on.
abbrev pub IsOk : Precondition → Type 0
IsOk (ok name detail) = Unit {0}
IsOk (refused name exit detail) = ⊥

by_state_iff :
    (o : Option String) → IsOk (by_state o) ↔ ((o ≡ some "clean") ⊎ (o ≡ some "unstable"))
unfolding by_state
by_state_iff none = (λ h. absurd h, λ h. elim h [ inl e ↦ absurd cc | inr e ↦ absurd cc ])
by_state_iff (some state) = (to, from)
  where
    refuses : (why : Option String) → IsOk (not_permitted state why) → ⊥
    refuses none h = h
    refuses (some why) h = h

    to : IsOk (by_state (some state)) → (some state ≡ some "clean") ⊎ (some state ≡ some "unstable")
    to h = elim (Bool-cases (state == "clean")) [
      | inl c ↦ inl (ap some ((string_eq.same_iff state "clean").0 c))
      | inr nc ↦ elim (Bool-cases (state == "unstable")) [
        | inl u ↦ inr (ap some ((string_eq.same_iff state "unstable").0 u))
        | inr nu ↦ elim (Bool-cases (state == "unknown")) [
          | inl t ↦ absurd (rw t at h)
          | inr f ↦ absurd (refuses (not_mergeable_reason state) (rw (f, nc, nu) at h))
        ]
      ]
    ]

    from :
        (some state ≡ some "clean") ⊎ (some state ≡ some "unstable") → IsOk (by_state (some state))
    from (inl e) = let q : state ≡ "clean" = cc in rw q tt
    from (inr e) = let q : state ≡ "unstable" = cc in rw q tt

-- The provider's mergeability passes exactly for an open pull request that is not merged and not a
-- draft, in one of the two states that permit a merge.
pub mergeable_precondition_iff :
    (pr : Mergeability)
    → IsOk (mergeable_precondition pr) ↔ (
        (pr.merged ≡ false)
        × (pr.state ≡ "open")
        × (pr.draft ≡ false)
        × ((pr.mergeable_state ≡ some "clean") ⊎ (pr.mergeable_state ≡ some "unstable")))
unfolding mergeable_precondition
mergeable_precondition_iff pr =
    ground (arith, by_state_iff pr.mergeable_state, string_eq.same_iff pr.state "open")

pub first_refusal-eq-none_iff : (ps : List Precondition) → (first_refusal ps ≡ none) ↔ All IsOk ps
unfolding first_refusal
first_refusal-eq-none_iff [] = (λ e. tt, λ h. refl)
first_refusal-eq-none_iff (ok name detail ∷ ps) =
    (λ e. (tt, (first_refusal-eq-none_iff ps).0 e), λ h. (first_refusal-eq-none_iff ps).1 h.1)
first_refusal-eq-none_iff (refused name exit detail ∷ ps) = (λ e. cc, λ h. absurd h.0)

pub first_refusal-append :
    (ps qs : List Precondition)
    → (first_refusal (ps ++ qs) ≡ none) ↔ ((first_refusal ps ≡ none) × (first_refusal qs ≡ none))
unfolding first_refusal
first_refusal-append [] qs = (λ e. (refl, e), λ h. h.1)
first_refusal-append (ok name detail ∷ ps) qs = first_refusal-append ps qs
first_refusal-append (refused name exit detail ∷ ps) qs = (λ e. cc, λ h. cc)

pub gate_precondition-ok :
    (slice : String → String) (name : String) (state : GateState)
    → IsOk (gate_precondition slice name state)
    → (sha : String) × (state ≡ pass sha)
unfolding gate_precondition
gate_precondition-ok slice name (pass sha) h = (sha, refl)
gate_precondition-ok slice name fail h = absurd h
gate_precondition-ok slice name (stale sha) h = absurd h
gate_precondition-ok slice name unreviewed h = absurd h
gate_precondition-ok slice name (self_issued author) h = absurd h
gate_precondition-ok slice name (unknown reason) h = absurd h

pub checks_precondition-ok : (c : Checks) → IsOk (checks_precondition c) → c.state ≡ green
unfolding checks_precondition
checks_precondition-ok c h = of_state c.state refl h
  where
    of_state : (s : ChecksState) → c.state ≡ s → IsOk (checks_precondition c) → c.state ≡ green
    of_state green q k = q
    of_state red q k = absurd (rw q at k)
    of_state pending q k = absurd (rw q at k)
    of_state no_checks q k = absurd (rw q at k)
