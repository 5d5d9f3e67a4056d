-- ===== src/Registry/Keys.antt =====
-- Every lease stands under its peer and every claim under its resource, and no key stands twice.
use kampus_pipeline.Common.{
  String, ◌≡◌, refl, inl, inr, some, none, arith, string_eq, get, delete, get-delete, Option-cases,
  Bool-cases, Bool, Dict, if◌then◌else◌, IsKeyed, delete-IsKeyed, [], ◌∷◌,
}
use kampus_pipeline.Registry.{RegistryState, Lease, Claim, drop_entries}

pub record IsWellKeyed (s : RegistryState) : Type 0 where
  pub leases_keyed : IsKeyed s.leases
  pub claims_keyed : IsKeyed s.claims
  pub lease_peer : (k : String) (l : Lease) → get k s.leases ≡ some l → l.peer ≡ k
  pub claim_key : (k : String) (c : Claim) → get k s.claims ≡ some c → c.resource ≡ k

module _ {V : Type 0} (stale : V → Bool) where
  pub drop_entries-IsKeyed :
      (es copy : Dict String V) → IsKeyed copy → IsKeyed (drop_entries stale es copy)
  unfolding drop_entries
  drop_entries-IsKeyed [] copy h = h
  drop_entries-IsKeyed ((k, v) ∷ es) copy h = elim (Bool-cases (stale v)) [
    | inl t ↦ rw t (drop_entries-IsKeyed es (delete k copy) (delete-IsKeyed k copy h))
    | inr f ↦ rw f (drop_entries-IsKeyed es copy h)
  ]

  -- A key that the entries do not have keeps its value.
  get-drop_entries_other :
      (es copy : Dict String V) (j : String)
      → get j es ≡ none
      → get j (drop_entries stale es copy) ≡ get j copy
  unfolding drop_entries get
  get-drop_entries_other [] copy j h = refl
  get-drop_entries_other ((k, v) ∷ es) copy j h = elim (Bool-cases (stale v)) [
    | inl t ↦
        rw t (ground (arith, get-drop_entries_other es (delete k copy) j, get-delete k j copy))
    | inr f ↦ rw f (ground (arith, get-drop_entries_other es copy j))
  ]

  -- What the loop leaves under a key: the value, unless it is stale.
  get-drop_entries_from :
      (es copy : Dict String V) (j : String) (v : V)
      → IsKeyed es
      → get j es ≡ some v
      → get j copy ≡ some v
      → get j (drop_entries stale es copy) ≡ (if stale v then none else some v)
  unfolding drop_entries get
  get-drop_entries_from [] copy j v h e f = cc
  get-drop_entries_from ((k, w) ∷ es) copy j v h e f = elim (Bool-cases (stale w)) [
    | inl t ↦ rw t (
        ground (
          arith,
          string_eq.same_iff k j,
          get-drop_entries_other es (delete k copy) j,
          get-delete k j copy,
          get-drop_entries_from es (delete k copy) j v h.1,
        ))
    | inr u ↦ rw u (
        ground (
          arith,
          string_eq.same_iff k j,
          get-drop_entries_other es copy j,
          get-drop_entries_from es copy j v h.1,
        ))
  ]

  pub get-drop_entries :
      (m : Dict String V) (j : String)
      → IsKeyed m
      → get j (drop_entries stale m m)
        ≡ elim (get j m) [ none ↦ none | some v ↦ if stale v then none else some v ]
  get-drop_entries m j h = elim (Option-cases (get j m)) [
    | inl n ↦ rw n (rw (get-drop_entries_other m m j n) n)
    | inr (v, e) ↦ rw e (get-drop_entries_from m m j v h e e)
  ]
