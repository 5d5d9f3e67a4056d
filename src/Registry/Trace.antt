-- ===== src/Registry/Trace.antt =====
-- A holder keeps its resource whatever the other peers do.
use kampus_pipeline.Common.{
  ℕ, ◌≤◌, String, ◌≡◌, refl, sym, ◌∙◌, ◌≢◌, inl, inr, true, some, none, arith, ◌==◌, string_eq, get,
  set, get-set, ◌&&◌, not, Option-cases, Bool-cases, Option, Dict, List, [], ◌∷◌, beq_of_ne,
}
use kampus_pipeline.Registry.{
  RegistryState, Lease, Claim, announce, heartbeat, claim_resource, claim_over, grant,
  release_claim, release, claim_holder, holder_has_live_presence,
}
use kampus_pipeline.Registry.Keys.{IsWellKeyed}
use kampus_pipeline.Registry.Steps.{
  Action, announcing, claiming, releasing_claim, beating, leaving, pruning, apply, run,
  apply-IsWellKeyed,
}
use kampus_pipeline.Registry.Claims.{claim_holder_iff, claim_resource_blocked, get-release_claim}
use kampus_pipeline.Registry.Presence.{release_lem}
use kampus_pipeline.Registry.Prune.{live_earlier, claim_holder-prune}

-- The operation is another peer's, or the registry's own.
abbrev pub IsNotBy : String → Action → Type 0
IsNotBy h (announcing role peer ttl) = peer ≢ h
IsNotBy h (claiming r peer role) = peer ≢ h
IsNotBy h (releasing_claim r peer) = peer ≢ h
IsNotBy h (beating peer ttl) = peer ≢ h
IsNotBy h (leaving peer) = peer ≢ h
IsNotBy h pruning = Unit {0}

live-set_other :
    (leases : Dict String Lease) (p h : String) (l : Lease) (t : ℕ)
    → p ≢ h
    → holder_has_live_presence (set p l leases) h t ≡ holder_has_live_presence leases h t
unfolding holder_has_live_presence
live-set_other leases p h l t ne = ground (arith, get-set p h l leases, beq_of_ne p h ne)

live-heartbeat_other :
    (s : RegistryState) (p h : String) (ttl now t : ℕ)
    → p ≢ h
    → holder_has_live_presence (heartbeat s p ttl now).leases h t
      ≡ holder_has_live_presence s.leases h t
unfolding heartbeat
live-heartbeat_other s p h ttl now t ne = elim (Option-cases (get p s.leases)) [
  | inl n ↦ rw (n, heartbeat)
  | inr (l, found) ↦ rw (found, heartbeat) (live-set_other s.leases p h _ t ne)
]

claims-heartbeat :
    (s : RegistryState) (p : String) (ttl now : ℕ) → (heartbeat s p ttl now).claims ≡ s.claims
unfolding heartbeat
claims-heartbeat s p ttl now = ground arith

-- A claim on one resource leaves the leases and the claims on the others.
claim_over_other :
    (s : RegistryState) (o : Option Claim) (r p role j : String) (now : ℕ)
    → r ≢ j
    → (get j (claim_over s o r p role now).0.claims ≡ get j s.claims)
      × ((claim_over s o r p role now).0.leases ≡ s.leases)
unfolding claim_over grant
claim_over_other s none r p role j now ne = (rw (get-set r j _ s.claims, beq_of_ne r j ne), refl)
claim_over_other s (some c) r p role j now ne =
    elim (Bool-cases (not (c.holder == p) && holder_has_live_presence s.leases c.holder now)) [
      | inl t ↦ rw t (refl, refl)
      | inr f ↦ rw f (rw (get-set r j _ s.claims, beq_of_ne r j ne), refl)
    ]

module _ (r h : String) (now t : ℕ) (le : now ≤ t) where
  holder-claiming :
      (s : RegistryState) (r' p role : String)
      → p ≢ h
      → claim_holder s r t ≡ some h
      → claim_holder (claim_resource s r' p role now).0 r t ≡ some h
  holder-claiming s r' p role ne e = elim (Bool-cases (r' == r)) [
    | inl same ↦
        let (c, found, held, live) = (claim_holder_iff s r t h).0 e in
        let holds : claim_holder s r now ≡ some h =
          (claim_holder_iff s r now h).1 (c, found, held, live_earlier s.leases h t now le live) in
        let (_, _, _, kept) = claim_resource_blocked s r p role now h holds (λ q. ne (sym q)) in
        rw ((string_eq.same_iff r' r).0 same) (rw kept e)
    | inr other ↦
        let apart : r' ≢ r = λ q. absurd (ground (arith, string_eq.same_iff r' r)) in
        let (c, found, held, live) = (claim_holder_iff s r t h).0 e in
        unfold claim_resource in
        let (claims, leases) = claim_over_other s (get r' s.claims) r' p role r now apart in
        (claim_holder_iff _ r t h).1 (c, claims ∙ found, held, rw leases live)
  ]

  holder-apply :
      (s : RegistryState) (a : Action)
      → IsWellKeyed s
      → IsNotBy h a
      → claim_holder s r t ≡ some h
      → claim_holder (apply s now a) r t ≡ some h
  unfolding apply
  holder-apply s (announcing role p ttl) w ne e =
      let (c, found, held, live) = (claim_holder_iff s r t h).0 e in
      unfold announce in
      (claim_holder_iff _ r t h).1 (c, found, held, rw (live-set_other s.leases p h _ t ne) live)
  holder-apply s (claiming r' p role) w ne e = holder-claiming s r' p role ne e
  holder-apply s (releasing_claim r' p) w ne e =
      let (c, found, held, live) = (claim_holder_iff s r t h).0 e in
      (claim_holder_iff _ r t h).1 (c, kept c found held, held, rw (leases_same) live)
    where
      leases_same : (release_claim s r' p).leases ≡ s.leases
      leases_same = unfold release_claim in ground arith

      kept :
          (c : Claim)
          → get r s.claims ≡ some c
          → c.holder ≡ h
          → get r (release_claim s r' p).claims ≡ some c
      kept c found held = ground (
        arith,
        get-release_claim s r' p r,
        string_eq.same_iff r' r,
        string_eq.same_iff c.holder p,
      )
  holder-apply s (beating p ttl) w ne e =
      let (c, found, held, live) = (claim_holder_iff s r t h).0 e in
      (claim_holder_iff _ r t h).1 (
        c,
        rw (claims-heartbeat s p ttl now) found,
        held,
        rw (live-heartbeat_other s p h ttl now t ne) live,
      )
  holder-apply s (leaving p) w ne e =
      let (c, found, held, live) = (claim_holder_iff s r t h).0 e in
      (claim_holder_iff _ r t h).1 (c, kept c found held, held, still live)
    where
      kept :
          (c : Claim) → get r s.claims ≡ some c → c.holder ≡ h → get r (release s p).claims ≡ some c
      kept c found held = ground (arith, release_lem s p r w, string_eq.same_iff c.holder p)

      still :
          holder_has_live_presence s.leases h t ≡ true
          → holder_has_live_presence (release s p).leases h t ≡ true
      still live =
          unfold holder_has_live_presence in ground (arith, release_lem s p h w, beq_of_ne p h ne)
  holder-apply s pruning w ne e = rw (claim_holder-prune s now t r w le) e

-- Every operation of the trace is done by `t`, and none by `h`.
abbrev pub IsForeign : String → ℕ → List (ℕ × Action) → Type 0
IsForeign h t [] = Unit {0}
IsForeign h t ((now, a) ∷ rest) = (now ≤ t) × IsNotBy h a × IsForeign h t rest

-- No operations of other peers, in any order and up to a time at which the holder's lease would
-- still be live, take a resource from its holder: at that time it still holds it. The registry's
-- keys are well-formed.
pub holder_kept :
    (r h : String) (t : ℕ) (s : RegistryState) (trace : List (ℕ × Action))
    → IsWellKeyed s
    → IsForeign h t trace
    → claim_holder s r t ≡ some h
    → claim_holder (run s trace) r t ≡ some h
unfolding run
holder_kept r h t s [] w f e = e
holder_kept r h t s ((now, a) ∷ rest) w f e =
    holder_kept r h t (apply s now a) rest (apply-IsWellKeyed s now a w) f.2
      (holder-apply r h now t f.0 s a w f.1 e)
