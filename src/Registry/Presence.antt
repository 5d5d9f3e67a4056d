-- ===== src/Registry/Presence.antt =====
-- What `lookup` finds, and what a release leaves.
use kampus_pipeline.Common.{
  ℕ, String, ◌≡◌, refl, inl, inr, ◌↔◌, true, some, none, arith, ◌==◌, string_eq, get, ◌&&◌,
  get-delete, Bool-cases, Dict, if◌then◌else◌, [], ◌∷◌, In, In-of_get, get-of_In,
}
use kampus_pipeline.Registry.{
  RegistryState, Lease, PresenceRecord, release, is_live, lookup, present_in, presence_of,
}
use kampus_pipeline.Registry.Keys.{IsWellKeyed, get-drop_entries}

-- A lease of the map that serves the role and is live.
abbrev pub IsPresent : Dict String Lease → String → ℕ → PresenceRecord → Type 0
IsPresent m role now r =
    (k : String) × (l : Lease) × In (k, l) m
    × (l.role ≡ role)
    × (is_live l now ≡ true)
    × (r ≡ presence_of l)

present_in_sound :
    (role : String) (now : ℕ) (m : Dict String Lease) (r : PresenceRecord)
    → In r (present_in role now m)
    → IsPresent m role now r
unfolding present_in
present_in_sound role now [] r i = absurd i
present_in_sound role now ((k, l) ∷ m) r i = elim (Bool-cases (l.role == role && is_live l now)) [
  | inl t ↦ here (present_in_sound role now m r) t (rw t at i)
  | inr f ↦ later (present_in_sound role now m r (rw f at i))
]
  where
    later : IsPresent m role now r → IsPresent ((k, l) ∷ m) role now r
    later (k', l', i', a, b, c) = (k', l', inr i', a, b, c)

    here :
        (In r (present_in role now m) → IsPresent m role now r)
        → (l.role == role && is_live l now) ≡ true
        → In r (presence_of l ∷ present_in role now m)
        → IsPresent ((k, l) ∷ m) role now r
    here ih t (inl e) =
        (k, l, inl refl, ground (arith, string_eq.same_iff l.role role), ground arith, e)
    here ih t (inr j) = later (ih j)

present_in_complete :
    (role : String) (now : ℕ) (m : Dict String Lease) (k : String) (l : Lease)
    → In (k, l) m
    → l.role ≡ role
    → is_live l now ≡ true
    → In (presence_of l) (present_in role now m)
unfolding present_in
present_in_complete role now [] k l i a b = absurd i
present_in_complete role now ((j, m') ∷ m) k l (inl e) a b =
    let same : l ≡ m' = cc in ground (arith, string_eq.same_iff m'.role role)
present_in_complete role now ((j, m') ∷ m) k l (inr i) a b =
    ground (arith, present_in_complete role now m k l i a b)

-- A peer is found for a role exactly when it has a live lease that serves the role, in a registry
-- with well-formed keys.
pub lookup_iff :
    (s : RegistryState) (role peer : String) (now : ℕ)
    → IsWellKeyed s
    → ((r : PresenceRecord) × In r (lookup s role now) × (r.peer ≡ peer))
      ↔ ((l : Lease) × (get peer s.leases ≡ some l) × (l.role ≡ role) × (is_live l now ≡ true))
unfolding lookup presence_of
lookup_iff s role peer now w = (to, from)
  where
    to :
        ((r : PresenceRecord) × In r (lookup s role now) × (r.peer ≡ peer))
        → (l : Lease) × (get peer s.leases ≡ some l) × (l.role ≡ role) × (is_live l now ≡ true)
    to (r, i, e) =
        let (k, l, j, a, b, c) = present_in_sound role now s.leases r i in
        let found = get-of_In k l s.leases w.leases_keyed j in
        (l, ground (arith, w.lease_peer k l found), a, b)

    from :
        ((l : Lease) × (get peer s.leases ≡ some l) × (l.role ≡ role) × (is_live l now ≡ true))
        → (r : PresenceRecord) × In r (lookup s role now) × (r.peer ≡ peer)
    from (l, found, a, b) = (
      presence_of l,
      present_in_complete role now s.leases peer l (In-of_get peer l s.leases found) a b,
      w.lease_peer peer l found,
    )

-- After a peer leaves it has no lease and no claim, and every other peer's lease and claim stays, in
-- a registry with well-formed keys.
pub release_lem :
    (s : RegistryState) (peer j : String)
    → IsWellKeyed s
    → (get j (release s peer).leases ≡ (if peer == j then none else get j s.leases))
      × (get j (release s peer).claims ≡ elim (get j s.claims) [
        | none ↦ none
        | some c ↦ if c.holder == peer then none else some c
      ])
unfolding release
release_lem s peer j w = (get-delete peer j s.leases, get-drop_entries _ s.claims j w.claims_keyed)
