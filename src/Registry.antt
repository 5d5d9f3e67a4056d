-- ===== src/Registry.antt =====
-- packages/pipeline-crew-mcp/src/tracker/registry-core.ts: presence leases and resource claims.
-- A millisecond clock and a TTL are natural numbers; an optional result is an `Option`.
pub mod Keys
pub mod Steps
pub mod Claims
pub mod Presence
pub mod Prune
pub mod Trace
mod Tests
use kampus_pipeline.Common.{
  ℕ, ◌+◌, ◌*◌, String, Bool, true, false, ◌&&◌, not, Option, none, some, List, [], ◌∷◌, leb,
  if◌then◌else◌, ◌==◌, string_eq, Dict, get, set, delete, filter,
}

-- `DEFAULT_TTL_SECONDS`.
abbrev pub default_ttl_seconds : ℕ
default_ttl_seconds = 30

pub record Lease : Type 0 where
  pub role : String
  pub peer : String
  pub ttl_seconds : ℕ
  pub last_seen_millis : ℕ

pub record Claim : Type 0 where
  pub resource : String
  pub holder : String
  pub claimant_role : String
  pub claimed_at_millis : ℕ

pub record RegistryState : Type 0 where
  pub leases : Dict String Lease
  pub claims : Dict String Claim

pub record PresenceRecord : Type 0 where
  pub peer : String
  pub role : String
  pub last_seen_millis : ℕ

-- Each outcome carries the holder and the time since which it holds the resource.
pub data ClaimOutcome : Type 0 where
  granted : String → ℕ → ClaimOutcome
  collision : String → ℕ → ClaimOutcome

abbrev pub empty : RegistryState
empty = record { leases = []; claims = [] }

abbrev pub is_live : Lease → ℕ → Bool
is_live lease now = leb now (lease.last_seen_millis + lease.ttl_seconds * 1000)

unfoldable pub holder_has_live_presence : Dict String Lease → String → ℕ → Bool
holder_has_live_presence leases holder now = elim (get holder leases) [
  | none ↦ false
  | some lease ↦ is_live lease now
]

pub announce : RegistryState → String → String → ℕ → ℕ → RegistryState
announce state role peer ttl now =
    let lease : Lease = record {
      role = role;
      peer = peer;
      ttl_seconds = ttl;
      last_seen_millis = now;
    } in
    record state { leases = set peer lease state.leases }

grant : RegistryState → String → String → String → ℕ → RegistryState × ClaimOutcome
grant state resource holder claimant_role at =
    let claim : Claim = record {
      resource = resource;
      holder = holder;
      claimant_role = claimant_role;
      claimed_at_millis = at;
    } in
    (record state { claims = set resource claim state.claims }, granted holder at)

-- The body of `claimResource` on the claim that `get` finds.
claim_over :
    RegistryState → Option Claim → String → String → String → ℕ → RegistryState × ClaimOutcome
unfolding grant
claim_over state none resource holder claimant_role now =
    grant state resource holder claimant_role now
claim_over state (some existing) resource holder claimant_role now =
    let mine = existing.holder == holder in
    if not mine && holder_has_live_presence state.leases existing.holder now
    then (state, collision existing.holder existing.claimed_at_millis)
    else grant state resource holder claimant_role
        (if mine then existing.claimed_at_millis else now)

pub claim_resource : RegistryState → String → String → String → ℕ → RegistryState × ClaimOutcome
unfolding claim_over
claim_resource state resource holder claimant_role now =
    claim_over state (get resource state.claims) resource holder claimant_role now

pub release_claim : RegistryState → String → String → RegistryState
release_claim state resource claimant = elim (get resource state.claims) [
  | none ↦ state
  | some existing ↦
      if existing.holder == claimant
      then record state { claims = delete resource state.claims }
      else state
]

pub claim_holder : RegistryState → String → ℕ → Option String
claim_holder state resource now = elim (get resource state.claims) [
  | none ↦ none
  | some claim ↦
      if holder_has_live_presence state.leases claim.holder now then some claim.holder else none
]

pub heartbeat : RegistryState → String → ℕ → ℕ → RegistryState
heartbeat state peer ttl now = elim (get peer state.leases) [
  | none ↦ state
  | some lease ↦ record state {
    leases = set peer (record lease { ttl_seconds = ttl; last_seen_millis = now }) state.leases;
  }
]

pub presence_of : Lease → PresenceRecord
presence_of lease = record {
  peer = lease.peer;
  role = lease.role;
  last_seen_millis = lease.last_seen_millis;
}

-- The loop of `lookup` over the values of the map.
pub present_in : String → ℕ → Dict String Lease → List PresenceRecord
unfolding presence_of
present_in role now [] = []
present_in role now ((_, lease) ∷ rest) =
    let more = present_in role now rest in
    if lease.role == role && is_live lease now then presence_of lease ∷ more else more

pub lookup : RegistryState → String → ℕ → List PresenceRecord
unfolding present_in
lookup state role now = present_in role now state.leases

-- The loops of `release` and `prune`: delete from the copy each key whose entry fails the test.
pub drop_entries : {V : Type 0} → (V → Bool) → Dict String V → Dict String V → Dict String V
drop_entries stale [] copy = copy
drop_entries stale ((k, v) ∷ rest) copy =
    drop_entries stale rest (if stale v then delete k copy else copy)

pub release : RegistryState → String → RegistryState
unfolding drop_entries
release state peer = record {
  leases = delete peer state.leases;
  claims = drop_entries (λ claim. claim.holder == peer) state.claims state.claims;
}

pub prune : RegistryState → ℕ → RegistryState
unfolding drop_entries
prune state now =
    let leases = drop_entries (λ lease. not (is_live lease now)) state.leases state.leases in
    let gone = λ (claim : Claim). not (holder_has_live_presence leases claim.holder now) in
    record { leases = leases; claims = drop_entries gone state.claims state.claims }
