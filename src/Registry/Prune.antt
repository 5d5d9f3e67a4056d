-- ===== src/Registry/Prune.antt =====
-- Housekeeping cannot be observed.
use kampus_pipeline.Common.{
  ℕ, ◌≤◌, String, ◌≡◌, refl, inl, inr, true, false, some, none, arith, ◌==◌, string_eq, get, delete,
  not, Option-cases, Bool-cases, Bool, Dict, if◌then◌else◌, IsKeyed, [], ◌∷◌, beq_refl,
}
use kampus_pipeline.Registry.{
  RegistryState, Lease, drop_entries, prune, is_live, claim_holder, lookup, present_in,
  holder_has_live_presence,
}
use kampus_pipeline.Registry.Keys.{IsWellKeyed, get-drop_entries}

-- A lease that is live stays live at any earlier time.
pub is_live_earlier : (l : Lease) (t now : ℕ) → now ≤ t → is_live l t ≡ true → is_live l now ≡ true
is_live_earlier l t now h e = ground arith

pub live_earlier :
    (leases : Dict String Lease) (h : String) (t now : ℕ)
    → now ≤ t
    → holder_has_live_presence leases h t ≡ true
    → holder_has_live_presence leases h now ≡ true
unfolding holder_has_live_presence
live_earlier leases h t now le e = elim (Option-cases (get h leases)) [
  | inl n ↦ absurd (ground arith)
  | inr (l, found) ↦ ground (arith, is_live_earlier l t now le)
]

abbrev fresh : ℕ → Lease → Bool
fresh now l = not (is_live l now)

-- Dropping the leases that are dead now changes nobody's presence from now on.
pub live-drop_entries :
    (leases : Dict String Lease) (h : String) (now t : ℕ)
    → IsKeyed leases
    → now ≤ t
    → holder_has_live_presence (drop_entries (fresh now) leases leases) h t
      ≡ holder_has_live_presence leases h t
unfolding holder_has_live_presence
live-drop_entries leases h now t k le = elim (Option-cases (get h leases)) [
  | inl n ↦ ground (arith, get-drop_entries (fresh now) leases h k)
  | inr (l, found) ↦ elim (Bool-cases (is_live l now)) [
    | inl live ↦ ground (arith, get-drop_entries (fresh now) leases h k)
    | inr dead ↦ ground (arith, get-drop_entries (fresh now) leases h k)
  ]
]

-- What pruning leaves of a claim.
pub get-prune_claims :
    (s : RegistryState) (now : ℕ) (r : String)
    → IsWellKeyed s
    → get r (prune s now).claims ≡ elim (get r s.claims) [
      | none ↦ none
      | some c ↦ if holder_has_live_presence s.leases c.holder now then some c else none
    ]
unfolding prune
get-prune_claims s now r w = elim (Option-cases (get r s.claims)) [
  | inl n ↦ rw n (rw (get-drop_entries _ s.claims r w.claims_keyed) (rw n))
  | inr (c, found) ↦ rw found (
      rw (get-drop_entries _ s.claims r w.claims_keyed)
        (rw found (ground (arith, live-drop_entries s.leases c.holder now now w.leases_keyed))))
]

-- Pruning changes the holder of no resource, from that moment on.
pub claim_holder-prune :
    (s : RegistryState) (now t : ℕ) (r : String)
    → IsWellKeyed s
    → now ≤ t
    → claim_holder (prune s now) r t ≡ claim_holder s r t
unfolding claim_holder
claim_holder-prune s now t r w le = elim (Option-cases (get r s.claims)) [
  | inl n ↦ ground (arith, get-prune_claims s now r w)
  | inr (c, found) ↦ ground (
    arith,
    get-prune_claims s now r w,
    pruned_live c.holder,
    live_earlier s.leases c.holder t now le,
  )
]
  where
    pruned_live :
        (h : String)
        → holder_has_live_presence (prune s now).leases h t ≡ holder_has_live_presence s.leases h t
    pruned_live h = unfold prune in live-drop_entries s.leases h now t w.leases_keyed le

module _ {V : Type 0} (stale : V → Bool) where
  delete_absent : (k : String) (m : Dict String V) → get k m ≡ none → delete k m ≡ m
  unfolding get delete
  delete_absent k [] h = refl
  delete_absent k ((j, w) ∷ m) h = elim (Bool-cases (j == k)) [
    | inl same ↦ absurd (ground arith)
    | inr other ↦ rw (other, delete_absent k m (rw other at h))
  ]

  drop_entries_front :
      (es copy : Dict String V) (j : String) (w : V)
      → get j es ≡ none
      → drop_entries stale es ((j, w) ∷ copy) ≡ (j, w) ∷ drop_entries stale es copy
  unfolding drop_entries get delete
  drop_entries_front [] copy j w h = refl
  drop_entries_front ((k, v) ∷ es) copy j w h = elim (Bool-cases (k == j)) [
    | inl same ↦ absurd (ground arith)
    | inr other ↦
        let distinct_ : (j == k) ≡ false =
          ground (arith, string_eq.same_iff k j, string_eq.same_iff j k) in
        elim (Bool-cases (stale v)) [
          | inl t ↦ rw (t, distinct_) (drop_entries_front es (delete k copy) j w (rw other at h))
          | inr f ↦ rw f (drop_entries_front es copy j w (rw other at h))
        ]
  ]

  -- The loop keeps the entries that are not stale, in their order.
  pub drop_entries-cons :
      (k : String) (v : V) (m : Dict String V)
      → get k m ≡ none
      → drop_entries stale ((k, v) ∷ m) ((k, v) ∷ m)
        ≡ (if stale v then drop_entries stale m m else (k, v) ∷ drop_entries stale m m)
  unfolding drop_entries delete
  drop_entries-cons k v m h = elim (Bool-cases (stale v)) [
    | inl t ↦ rw (t, beq_refl k, delete_absent k m h)
    | inr f ↦ rw f (drop_entries_front m m k v h)
  ]

present_in-drop_entries :
    (role : String) (now t : ℕ) (m : Dict String Lease)
    → IsKeyed m
    → now ≤ t
    → present_in role t (drop_entries (fresh now) m m) ≡ present_in role t m
unfolding present_in
present_in-drop_entries role now t [] k le = unfold drop_entries in refl
present_in-drop_entries role now t ((p, l) ∷ m) k le =
    rw (drop_entries-cons (fresh now) p l m k.0)
      (ground (arith, is_live_earlier l t now le, present_in-drop_entries role now t m k.1 le))

-- Pruning changes neither the holder of a resource nor the peers found for a role, at that moment
-- and at any later one, in a registry with well-formed keys.
pub prune_unobservable :
    (s : RegistryState) (now t : ℕ) (r role : String)
    → IsWellKeyed s
    → now ≤ t
    → (claim_holder (prune s now) r t ≡ claim_holder s r t)
      × (lookup (prune s now) role t ≡ lookup s role t)
unfolding lookup prune
prune_unobservable s now t r role w le = (
  claim_holder-prune s now t r w le,
  present_in-drop_entries role now t s.leases w.leases_keyed le,
)
