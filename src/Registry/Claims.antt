-- ===== src/Registry/Claims.antt =====
-- Who holds a resource after a claim or a release.
use kampus_pipeline.Common.{
  ℕ, String, ◌≡◌, refl, ◌≢◌, ◌⊎◌, inl, inr, ◌↔◌, true, false, some, none, arith, ◌==◌, string_eq,
  get, get-set, get-delete, Option-cases, Bool-cases, Option, if◌then◌else◌,
}
use kampus_pipeline.Registry.{
  RegistryState, Claim, granted, collision, claim_resource, release_claim, claim_holder,
  holder_has_live_presence,
}

-- A resource has a live holder exactly when a claim on it is kept and its holder has presence.
pub claim_holder_iff :
    (s : RegistryState) (r : String) (now : ℕ) (h : String)
    → (claim_holder s r now ≡ some h) ↔ (
        (c : Claim) × (get r s.claims ≡ some c)
        × (c.holder ≡ h)
        × (holder_has_live_presence s.leases h now ≡ true))
unfolding claim_holder
claim_holder_iff s r now h = (to, from)
  where
    to :
        claim_holder s r now ≡ some h
        → (c : Claim) × (get r s.claims ≡ some c)
          × (c.holder ≡ h)
          × (holder_has_live_presence s.leases h now ≡ true)
    to e = elim (Option-cases (get r s.claims)) [
      | inl n ↦ absurd (ground arith)
      | inr (c, found) ↦ (c, found, ground arith, ground arith)
    ]

    from :
        ((c : Claim) × (get r s.claims ≡ some c)
          × (c.holder ≡ h)
          × (holder_has_live_presence s.leases h now ≡ true))
        → claim_holder s r now ≡ some h
    from (c, found, e, l) = ground arith

-- While another peer with presence holds the resource, a claim collides, names that holder and
-- leaves the registry as it was.
pub claim_resource_blocked :
    (s : RegistryState) (r p role : String) (now : ℕ) (h : String)
    → claim_holder s r now ≡ some h
    → h ≢ p
    → (c : Claim) × (get r s.claims ≡ some c)
      × (c.holder ≡ h)
      × (claim_resource s r p role now ≡ (s, collision h c.claimed_at_millis))
unfolding claim_resource
claim_resource_blocked s r p role now h e ne =
    let (c, found, held, live) = (claim_holder_iff s r now h).0 e in
    (c, found, held, ground (arith, string_eq.same_iff c.holder p))

-- The time from which a granted claim counts.
abbrev pub since : Option Claim → String → ℕ → ℕ
since none p now = now
since (some c) p now = if c.holder == p then c.claimed_at_millis else now

-- Where no other peer with presence holds the resource, the claim is granted and recorded, a claim
-- renewed by its holder keeps its time, and leases and other claims stay.
pub claim_resource_free :
    (s : RegistryState) (r p role : String) (now : ℕ)
    → (claim_holder s r now ≡ none) ⊎ (claim_holder s r now ≡ some p)
    → let at = since (get r s.claims) p now in
      let after = claim_resource s r p role now in
      (after.1 ≡ granted p at)
      × (after.0.leases ≡ s.leases)
      × ((j : String)
          → get j after.0.claims ≡ (
              if r == j
              then some (record {
                resource = r;
                holder = p;
                claimant_role = role;
                claimed_at_millis = at;
              })
              else get j s.claims))
unfolding claim_resource claim_holder
claim_resource_free s r p role now free = elim (Option-cases (get r s.claims)) [
  | inl n ↦ rw n (refl, refl, λ j. get-set r j _ s.claims)
  | inr (c, found) ↦
      let open_ : (c.holder ≡ p) ⊎ (holder_has_live_presence s.leases c.holder now ≡ false) =
        ground arith in
      elim (Bool-cases (c.holder == p)) [
        | inl mine ↦ rw (found, mine) (refl, refl, λ j. get-set r j _ s.claims)
        | inr other ↦
            let dead : holder_has_live_presence s.leases c.holder now ≡ false =
              ground (arith, string_eq.same_iff c.holder p) in
            rw (found, other, dead) (refl, refl, λ j. get-set r j _ s.claims)
      ]
]

-- Only the holder's own release frees a claim, and it frees that resource alone.
pub get-release_claim :
    (s : RegistryState) (r p j : String)
    → get j (release_claim s r p).claims ≡ (
        if r == j
        then elim (get r s.claims) [ none ↦ none | some c ↦ if c.holder == p then none else some c ]
        else get j s.claims)
unfolding release_claim
get-release_claim s r p j = ground (arith, string_eq.same_iff r j, get-delete r j s.claims)
