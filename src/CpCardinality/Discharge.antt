-- ===== src/CpCardinality/Discharge.antt =====
-- The hold is discharged only on evidence.
use kampus_pipeline.Common.{
  ℕ, ◌≤◌, ◌<◌, String, ◌≡◌, refl, ◌≢◌, ◌↔◌, ◌⊎◌, inl, inr, true, Option, none, some, List, [], ◌∷◌,
  arith, string_eq, nat_eq, Bool, false, not, filter, distinct, map, In, In-filter, In-distinct,
  In-map, ◌==◌, if◌then◌else◌,
}
use kampus_pipeline.CpCardinality.{
  CpCardinalityInput, discharge, distinct_members, decide_cp_cardinality, by_facts, by_members,
  by_count, verdict, others,
}

-- Nothing stands twice in the list.
abbrev pub IsUnique : List String → Type 0
IsUnique [] = Unit {0}
IsUnique (x ∷ xs) = ¬ In x xs × IsUnique xs

filter-IsUnique : (p : String → Bool) (xs : List String) → IsUnique xs → IsUnique (filter p xs)
unfolding filter
filter-IsUnique p [] u = tt
filter-IsUnique p (x ∷ xs) u =
    by_test (p x) (filter-IsUnique p xs u.1) (λ i. u.0 ((In-filter p x xs).0 i).0)
  where
    by_test :
        (b : Bool)
        → IsUnique (filter p xs)
        → ¬ In x (filter p xs)
        → IsUnique (if b then x ∷ filter p xs else filter p xs)
    by_test true k n = (n, k)
    by_test false k n = k

distinct-IsUnique : (xs : List String) → IsUnique (distinct xs)
unfolding distinct
distinct-IsUnique [] = tt
distinct-IsUnique (x ∷ xs) = (
  λ i. absurd (
      not_kept
        ((In-filter (λ (y : String). if y == x then false else true) x (distinct xs)).0 i).1),
  filter-IsUnique (λ (y : String). if y == x then false else true) (distinct xs)
      (distinct-IsUnique xs),
)
  where
    not_kept : (if x == x then false else true) ≡ true → ⊥
    not_kept h = ground (arith, string_eq.same_iff x x)

module _ (trim : String → String) where
  -- What discharges the hold: the author is the only member and the exception is proven, or there
  -- are enough approvals and enough members besides the author to have given them.
  abbrev pub Discharges : CpCardinalityInput → List String → String → ℕ → ℕ → Type 0
  Discharges input members author threshold approvals =
      ((members ≡ author ∷ []) × (input.sole_author_exception_at_head ≡ true))
      ⊎ ((members ≢ author ∷ [])
          × (members ≢ [])
          × (threshold ≤ others trim members author)
          × (threshold ≤ approvals))

  by_count_iff :
      (input : CpCardinalityInput) (members : List String) (author : String)
      (threshold approvals : ℕ)
      → ((by_count trim input members author threshold approvals).decision ≡ discharge)
        ↔ ((threshold ≤ others trim members author) × (threshold ≤ approvals))
  unfolding by_count verdict
  by_count_iff input members author threshold approvals = ground arith

  by_members_iff :
      (input : CpCardinalityInput) (members : List String) (author : String)
      (threshold approvals : ℕ)
      → ((by_members trim input members author threshold approvals).decision ≡ discharge)
        ↔ Discharges input members author threshold approvals
  unfolding by_members verdict
  by_members_iff input [] author threshold approvals =
      (λ e. cc, λ h. elim h [ inl (e, _) ↦ cc | inr (_, e, _, _) ↦ absurd (e refl) ])
  by_members_iff input (m ∷ []) author threshold approvals =
      ground
        (arith, by_count_iff input (m ∷ []) author threshold approvals, string_eq.same_iff m author)
  by_members_iff input (m ∷ k ∷ ms) author threshold approvals =
      ground (arith, by_count_iff input (m ∷ k ∷ ms) author threshold approvals)

  -- A text that a name of the list is, once trimmed, and that is not empty.
  abbrev pub IsMember : List String → String → Type 0
  IsMember names m = (m ≢ "") × ((x : String) × In x names × (m ≡ trim x))

  -- The members are the names, trimmed, that are not empty, each once.
  abbrev pub AreMembers : List String → List String → Type 0
  AreMembers names members = IsUnique members × ((m : String) → In m members ↔ IsMember names m)

  distinct_members-AreMembers :
      (names : List String) → AreMembers names (distinct_members trim names)
  unfolding distinct_members
  distinct_members-AreMembers names = (
    distinct-IsUnique (filter (λ (m : String). not (m == "")) (map trim names)),
    λ m. ground (
      arith,
      In-distinct m (filter (λ (m : String). not (m == "")) (map trim names)),
      In-filter (λ (m : String). not (m == "")) m (map trim names),
      In-map trim m names,
      string_eq.same_iff m "",
    ),
  )

  decide_cp_cardinality-discharge_iff :
      (input : CpCardinalityInput)
      → ((decide_cp_cardinality trim input).decision ≡ discharge) ↔ (
          (threshold : ℕ) × (approvals : ℕ) × (input.required_non_author_approvals ≡ some threshold)
          × (input.non_author_approvals_at_head ≡ some approvals)
          × (0 < threshold)
          × (trim input.author ≢ "")
          × Discharges input
              (distinct_members trim input.members)
              (trim input.author)
              threshold
              approvals)
  unfolding decide_cp_cardinality
  decide_cp_cardinality-discharge_iff input =
      facts input.required_non_author_approvals input.non_author_approvals_at_head
    where
      facts :
          (t a : Option ℕ)
          → ((by_facts trim input t a).decision ≡ discharge) ↔ (
              (threshold : ℕ) × (approvals : ℕ) × (t ≡ some threshold)
              × (a ≡ some approvals)
              × (0 < threshold)
              × (trim input.author ≢ "")
              × Discharges input
                  (distinct_members trim input.members)
                  (trim input.author)
                  threshold
                  approvals)
      facts none a = unfold by_facts verdict in (λ e. cc, λ (t, k, e, _, _, _, _). cc)
      facts (some t) none =
          unfold by_facts verdict in (λ e. absurd (ground arith), λ (x, k, _, e, _, _, _). cc)
      facts (some t) (some a) =
          unfold by_facts verdict in
          (
            λ e. (
              t,
              a,
              refl,
              refl,
              ground arith,
              ground (arith, string_eq.same_iff (trim input.author) ""),
              ground (
                arith,
                by_members_iff input (distinct_members trim input.members) (trim input.author) t a,
              ),
            ),
            λ (x, y, p, q, pos, known, d). ground (
              arith,
              string_eq.same_iff (trim input.author) "",
              by_members_iff input (distinct_members trim input.members) (trim input.author) t a,
            ),
          )

  -- Of the names, trimmed, that are not empty, each taken once, as the members: the hold is discharged
  -- exactly when the threshold is a positive count, the approvals are a count, the author is known, and
  -- either the author is the only member and the exception is proven, or the members are others too,
  -- and both the approvals and the members besides the author reach the threshold.
  pub decide_cp_cardinality_iff :
      (input : CpCardinalityInput)
      → (members : List String) × AreMembers input.members members
        × (((decide_cp_cardinality trim input).decision ≡ discharge) ↔ (
            (threshold : ℕ) × (approvals : ℕ) × (input.required_non_author_approvals
              ≡ some threshold)
            × (input.non_author_approvals_at_head ≡ some approvals)
            × (0 < threshold)
            × (trim input.author ≢ "")
            × Discharges input members (trim input.author) threshold approvals))
  decide_cp_cardinality_iff input = (
    distinct_members trim input.members,
    distinct_members-AreMembers input.members,
    decide_cp_cardinality-discharge_iff input,
  )
