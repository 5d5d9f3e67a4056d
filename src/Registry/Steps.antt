-- ===== src/Registry/Steps.antt =====
-- The operations of the service as one step, and the keys after any sequence of them. The service is
-- packages/pipeline-crew-mcp/src/tracker/registry.ts.
use kampus_pipeline.Common.{
  ℕ, String, ◌≡◌, inl, inr, some, none, arith, ◌==◌, string_eq, get, get-set, get-delete,
  Option-cases, Bool-cases, Bool, Option, Dict, IsKeyed, set-IsKeyed, delete-IsKeyed, List, [], ◌∷◌,
}
use kampus_pipeline.Registry.{
  RegistryState, Lease, Claim, claim_resource, release_claim, empty, drop_entries, prune,
  holder_has_live_presence, release, announce, heartbeat, grant, claim_over,
}
use kampus_pipeline.Registry.Keys.{IsWellKeyed, drop_entries-IsKeyed, get-drop_entries}

abbrev pub lease_now : String → String → ℕ → ℕ → Lease
lease_now role peer ttl now = record {
  role = role;
  peer = peer;
  ttl_seconds = ttl;
  last_seen_millis = now;
}

announce-IsWellKeyed :
    (s : RegistryState) (role peer : String) (ttl now : ℕ)
    → IsWellKeyed s
    → IsWellKeyed (announce s role peer ttl now)
unfolding announce
announce-IsWellKeyed s role peer ttl now w = record {
  leases_keyed = set-IsKeyed peer (lease_now role peer ttl now) s.leases w.leases_keyed;
  claims_keyed = w.claims_keyed;
  lease_peer = λ k l e. ground (
    arith,
    get-set peer k (lease_now role peer ttl now) s.leases,
    string_eq.same_iff peer k,
    w.lease_peer k l,
  );
  claim_key = w.claim_key;
}

grant-IsWellKeyed :
    (s : RegistryState) (r p role : String) (at : ℕ)
    → IsWellKeyed s
    → IsWellKeyed (grant s r p role at).0
unfolding grant
grant-IsWellKeyed s r p role at w =
    let c : Claim = record {
      resource = r;
      holder = p;
      claimant_role = role;
      claimed_at_millis = at;
    } in
    record {
      leases_keyed = w.leases_keyed;
      claims_keyed = set-IsKeyed r c s.claims w.claims_keyed;
      lease_peer = w.lease_peer;
      claim_key =
          λ k d e. ground (arith, get-set r k c s.claims, string_eq.same_iff r k, w.claim_key k d);
    }

claim_over-IsWellKeyed :
    (s : RegistryState) (o : Option Claim) (r p role : String) (now : ℕ)
    → IsWellKeyed s
    → IsWellKeyed (claim_over s o r p role now).0
unfolding claim_over
claim_over-IsWellKeyed s none r p role now w = grant-IsWellKeyed s r p role now w
claim_over-IsWellKeyed s (some c) r p role now w = elim (Bool-cases (c.holder == p)) [
  | inl mine ↦ rw mine (grant-IsWellKeyed s r p role c.claimed_at_millis w)
  | inr other ↦ elim (Bool-cases (holder_has_live_presence s.leases c.holder now)) [
    | inl live ↦ rw (other, live) w
    | inr dead ↦ rw (other, dead) (grant-IsWellKeyed s r p role now w)
  ]
]

release_claim-IsWellKeyed :
    (s : RegistryState) (r p : String) → IsWellKeyed s → IsWellKeyed (release_claim s r p)
unfolding release_claim
release_claim-IsWellKeyed s r p w = elim (Option-cases (get r s.claims)) [
  | inl n ↦ rw (n, release_claim) w
  | inr (c, found) ↦ elim (Bool-cases (c.holder == p)) [
    | inl mine ↦
        rw (found, mine, release_claim)
          (record {
            leases_keyed = w.leases_keyed;
            claims_keyed = delete-IsKeyed r s.claims w.claims_keyed;
            lease_peer = w.lease_peer;
            claim_key = λ k d e. ground (arith, get-delete r k s.claims, w.claim_key k d);
          })
    | inr other ↦ rw (found, other, release_claim) w
  ]
]

heartbeat-IsWellKeyed :
    (s : RegistryState) (peer : String) (ttl now : ℕ)
    → IsWellKeyed s
    → IsWellKeyed (heartbeat s peer ttl now)
unfolding heartbeat
heartbeat-IsWellKeyed s peer ttl now w = elim (Option-cases (get peer s.leases)) [
  | inl n ↦ rw (n, heartbeat) w
  | inr (l, found) ↦
      let l' : Lease = record l { ttl_seconds = ttl; last_seen_millis = now } in
      rw (found, heartbeat)
        (record {
          leases_keyed = set-IsKeyed peer l' s.leases w.leases_keyed;
          claims_keyed = w.claims_keyed;
          lease_peer = λ k m e. ground (
            arith,
            get-set peer k l' s.leases,
            string_eq.same_iff peer k,
            w.lease_peer k m,
            w.lease_peer peer l found,
          );
          claim_key = w.claim_key;
        })
]

-- What the dropping loops leave was there before.
drop_entries-kept :
    {V : Type 0} (stale : V → Bool) (m : Dict String V) (k : String) (v : V)
    → IsKeyed m
    → get k (drop_entries stale m m) ≡ some v
    → get k m ≡ some v
drop_entries-kept stale m k v h e = ground (arith, get-drop_entries stale m k h)

release-IsWellKeyed :
    (s : RegistryState) (peer : String) → IsWellKeyed s → IsWellKeyed (release s peer)
unfolding release
release-IsWellKeyed s peer w = record {
  leases_keyed = delete-IsKeyed peer s.leases w.leases_keyed;
  claims_keyed = drop_entries-IsKeyed _ s.claims s.claims w.claims_keyed;
  lease_peer = λ k l e. ground (arith, get-delete peer k s.leases, w.lease_peer k l);
  claim_key = λ k c e. w.claim_key k c (drop_entries-kept _ s.claims k c w.claims_keyed e);
}

pub prune-IsWellKeyed : (s : RegistryState) (now : ℕ) → IsWellKeyed s → IsWellKeyed (prune s now)
unfolding prune
prune-IsWellKeyed s now w = record {
  leases_keyed = drop_entries-IsKeyed _ s.leases s.leases w.leases_keyed;
  claims_keyed = drop_entries-IsKeyed _ s.claims s.claims w.claims_keyed;
  lease_peer = λ k l e. w.lease_peer k l (drop_entries-kept _ s.leases k l w.leases_keyed e);
  claim_key = λ k c e. w.claim_key k c (drop_entries-kept _ s.claims k c w.claims_keyed e);
}

-- An operation of the registry's service, with the peer that asks for it.
pub data Action : Type 0 where
  announcing : String → String → ℕ → Action
  claiming : String → String → String → Action
  releasing_claim : String → String → Action
  beating : String → ℕ → Action
  leaving : String → Action
  pruning : Action

-- One operation, at the service's clock.
unfoldable pub apply : RegistryState → ℕ → Action → RegistryState
apply s now (announcing role peer ttl) = announce s role peer ttl now
apply s now (claiming r p role) = (claim_resource s r p role now).0
apply s now (releasing_claim r p) = release_claim s r p
apply s now (beating peer ttl) = heartbeat s peer ttl now
apply s now (leaving peer) = release s peer
apply s now pruning = prune s now

pub apply-IsWellKeyed :
    (s : RegistryState) (now : ℕ) (a : Action) → IsWellKeyed s → IsWellKeyed (apply s now a)
unfolding apply claim_resource
apply-IsWellKeyed s now (announcing role peer ttl) w = announce-IsWellKeyed s role peer ttl now w
apply-IsWellKeyed s now (claiming r p role) w = claim_over-IsWellKeyed s _ r p role now w
apply-IsWellKeyed s now (releasing_claim r p) w = release_claim-IsWellKeyed s r p w
apply-IsWellKeyed s now (beating peer ttl) w = heartbeat-IsWellKeyed s peer ttl now w
apply-IsWellKeyed s now (leaving peer) w = release-IsWellKeyed s peer w
apply-IsWellKeyed s now pruning w = prune-IsWellKeyed s now w

-- The registry after a list of operations, each at its time.
unfoldable pub run : RegistryState → List (ℕ × Action) → RegistryState
run s [] = s
run s ((now, a) ∷ rest) = run (apply s now a) rest

run-from-IsWellKeyed :
    (s : RegistryState) (trace : List (ℕ × Action)) → IsWellKeyed s → IsWellKeyed (run s trace)
unfolding run
run-from-IsWellKeyed s [] w = w
run-from-IsWellKeyed s ((now, a) ∷ rest) w =
    run-from-IsWellKeyed (apply s now a) rest (apply-IsWellKeyed s now a w)

-- In every registry reached from the empty one by any operations at any times, each lease stands
-- under its peer, each claim under its resource, and no key stands twice.
pub run-IsWellKeyed : (trace : List (ℕ × Action)) → IsWellKeyed (run empty trace)
unfolding get
run-IsWellKeyed trace = run-from-IsWellKeyed empty trace (record {
  leases_keyed = tt;
  claims_keyed = tt;
  lease_peer = λ k l e. nothing_lease k l e;
  claim_key = λ k c e. nothing_claim k c e;
})
  where
    nothing_lease : (k : String) (l : Lease) → get k empty.leases ≡ some l → l.peer ≡ k
    nothing_lease k l e = cc

    nothing_claim : (k : String) (c : Claim) → get k empty.claims ≡ some c → c.resource ≡ k
    nothing_claim k c e = cc
