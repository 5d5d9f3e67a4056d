-- ===== src/Registry/Tests.antt =====
-- A small registry: Ann holds issue 7, Ben is present too.
use kampus_pipeline.Common.{
  ℕ, String, ◌≡◌, refl, sym, ◌≢◌, inl, ◌↔◌, some, none, arith, List, [], ◌∷◌, get, set, ◌==◌,
  string_eq, if◌then◌else◌, In, true,
}
use text.Mathlib.TextEquality.{eq_iff}
use kampus_pipeline.Registry.{
  RegistryState, Lease, Claim, PresenceRecord, empty, announce, claim_resource, claim_holder,
  holder_has_live_presence, granted, collision, prune, lookup, is_live,
}
use kampus_pipeline.Registry.Keys.{IsWellKeyed}
use kampus_pipeline.Registry.Steps.{
  Action, apply, announcing, claiming, pruning, leaving, run, run-IsWellKeyed,
}
use kampus_pipeline.Registry.Claims.{claim_resource_blocked, claim_resource_free, since}
use kampus_pipeline.Registry.Prune.{prune_unobservable}
use kampus_pipeline.Registry.Presence.{lookup_iff}
use kampus_pipeline.Registry.Trace.{holder_kept}

abbrev ann : String
ann = "ann"

abbrev history : List (ℕ × Action)
history =
    (1000, announcing "coder" "ann" 30)
    ∷ (1000, announcing "coder" "ben" 30)
    ∷ (2000, claiming "issue-7" "ann" "coder")
    ∷ []

abbrev shared : RegistryState
shared = run empty history

shared_keyed : IsWellKeyed shared
shared_keyed = run-IsWellKeyed history

run-IsWellKeyed_example : IsWellKeyed (run empty history)
run-IsWellKeyed_example = run-IsWellKeyed history

ann_holds : claim_holder shared "issue-7" 3000 ≡ some "ann"
unfolding run apply claim_holder announce claim_resource get set holder_has_live_presence
ann_holds = refl

ann_gone : claim_holder shared "issue-7" 31001 ≡ none
unfolding run apply claim_holder announce claim_resource get set holder_has_live_presence
ann_gone = refl

ann_not_ben : "ann" ≢ (let s : String = "ben" in s)
ann_not_ben e = cc ((eq_iff "ann" "ben").1 e)

ben_not_ann : (let s : String = "ben" in s) ≢ "ann"
ben_not_ann e = ann_not_ben (sym e)

claim_resource_blocked_example :
    (c : Claim) × (get "issue-7" shared.claims ≡ some c)
    × (c.holder ≡ "ann")
    × (claim_resource shared "issue-7" "ben" "coder" 3000
        ≡ (shared, collision "ann" c.claimed_at_millis))
claim_resource_blocked_example =
    claim_resource_blocked shared "issue-7" "ben" "coder" 3000 "ann" ann_holds ann_not_ben

-- Ann's lease is over, so Ben is granted the resource.
claim_resource_free_example :
    let at = since (get "issue-7" shared.claims) "ben" 31001 in
    let after = claim_resource shared "issue-7" "ben" "coder" 31001 in
    (after.1 ≡ granted "ben" at)
    × (after.0.leases ≡ shared.leases)
    × ((j : String)
        → get j after.0.claims ≡ (
            if "issue-7" == j
            then some (record {
              resource = "issue-7";
              holder = "ben";
              claimant_role = "coder";
              claimed_at_millis = at;
            })
            else get j shared.claims))
claim_resource_free_example =
    claim_resource_free shared "issue-7" "ben" "coder" 31001 (inl ann_gone)

prune_unobservable_example :
    (claim_holder (prune shared 2000) "issue-7" 3000 ≡ claim_holder shared "issue-7" 3000)
    × (lookup (prune shared 2000) "coder" 3000 ≡ lookup shared "coder" 3000)
prune_unobservable_example =
    prune_unobservable shared 2000 3000 "issue-7" "coder" shared_keyed (omega arith)

lookup_iff_example :
    ((r : PresenceRecord) × In r (lookup shared "coder" 3000) × (r.peer ≡ "ben")) ↔ (
      (l : Lease) × (get "ben" shared.leases ≡ some l)
      × (l.role ≡ "coder")
      × (is_live l 3000 ≡ true))
lookup_iff_example = lookup_iff shared "coder" "ben" 3000 shared_keyed

holder_kept_example :
    claim_holder
      (run shared
        ((2500, claiming "issue-7" "ben" "coder") ∷ (2600, leaving "ben") ∷ (2700, pruning) ∷ []))
      "issue-7"
      3000
    ≡ some "ann"
holder_kept_example =
    holder_kept "issue-7" "ann" 3000 shared
      ((2500, claiming "issue-7" "ben" "coder") ∷ (2600, leaving "ben") ∷ (2700, pruning) ∷ [])
      shared_keyed (omega arith, ben_not_ann, (omega arith, ben_not_ann, (omega arith, tt, tt)))
      ann_holds
