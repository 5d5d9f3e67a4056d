-- ===== src/RoadmapGuard/InSync.antt =====
-- What a pass of the guard establishes.
use kampus_pipeline.Common.{
  ℕ, ◌≡◌, refl, ◌≢◌, ◌↔◌, ◌⊎◌, inl, inr, true, false, Option, none, some, List, [], ◌∷◌, ◌++◌,
  arith, ◌==◌, string_eq, nat_eq, contains_iff, any, any_iff, In, append-eq-nil_iff,
  length-eq-zero_iff, get, length, Bool-cases, Option-cases,
}
use kampus_pipeline.RoadmapGuard.{
  arc, RoadmapRow, Milestone, Violation, pass, legal_states, pin_may_be_absent, collect,
  well_formed, by_number, pinned, active_arcs, one_active, claimed, expected, symmetric,
  all_violations, judge, is_pin, against, verdict_of,
}
use kampus_pipeline.RoadmapGuard.Numbers.{Numbered, by_number_iff}

-- The row's milestone exists, or the row is a queued arc without one.
abbrev pub IsPinned : List Milestone → RoadmapRow → Type 0
IsPinned milestones row =
    ((row.milestone ≡ none) × (row.kind ≡ arc) × (row.state ≡ "queued"))
    ⊎ ((n : ℕ) × (m : Milestone) × (row.milestone ≡ some n) × Numbered n milestones m)

-- An active row's milestone is open, and a done row's is closed.
abbrev pub IsSymmetric : List Milestone → RoadmapRow → Type 0
IsSymmetric milestones row =
    (n : ℕ) (m : Milestone)
    → row.milestone ≡ some n
    → Numbered n milestones m
    → (row.state ≡ "active" → m.is_open ≡ true) × (row.state ≡ "done" → m.is_open ≡ false)

-- The same of what the code finds by the number.
abbrev HasPin : List Milestone → RoadmapRow → Type 0
HasPin milestones row =
    ((row.milestone ≡ none) × (row.kind ≡ arc) × (row.state ≡ "queued"))
    ⊎ ((n : ℕ) × (m : Milestone) × (row.milestone ≡ some n)
        × (get n (by_number milestones) ≡ some m))

abbrev InStep : List Milestone → RoadmapRow → Type 0
InStep milestones row =
    (n : ℕ) (m : Milestone)
    → row.milestone ≡ some n
    → get n (by_number milestones) ≡ some m
    → (row.state ≡ "active" → m.is_open ≡ true) × (row.state ≡ "done" → m.is_open ≡ false)

abbrev pub IsClaimed : List RoadmapRow → Milestone → Type 0
IsClaimed rows m =
    m.is_open ≡ true → (row : RoadmapRow) × In row rows × (row.milestone ≡ some m.number)

collect-eq-nil_iff :
    {A : Type 0} (push : A → List Violation) (xs : List A)
    → (collect push xs ≡ []) ↔ ((a : A) → In a xs → push a ≡ [])
collect-eq-nil_iff {A = A} push [] = (λ e a i. absurd i, λ h. refl)
collect-eq-nil_iff {A = A} push (x ∷ xs) =
    (to (collect-eq-nil_iff push xs).0, from (collect-eq-nil_iff push xs).1)
  where
    to :
        (collect push xs ≡ [] → (a : A) → In a xs → push a ≡ [])
        → collect push (x ∷ xs) ≡ []
        → (a : A) → In a (x ∷ xs)
        → push a ≡ []
    to ih e a (inl s) = rw s ((append-eq-nil_iff (push x) (collect push xs)).0 e).0
    to ih e a (inr i) = ih ((append-eq-nil_iff (push x) (collect push xs)).0 e).1 a i

    from :
        (((a : A) → In a xs → push a ≡ []) → collect push xs ≡ [])
        → ((a : A) → In a (x ∷ xs) → push a ≡ [])
        → collect push (x ∷ xs) ≡ []
    from ih h =
        (append-eq-nil_iff (push x) (collect push xs)).1 (h x (inl refl), ih (λ a i. h a (inr i)))

well_formed_iff : (row : RoadmapRow) → (well_formed row ≡ []) ↔ In row.state (legal_states row.kind)
unfolding well_formed
well_formed_iff row = ground (arith, contains_iff (legal_states row.kind) row.state)

pinned-HasPin_iff :
    (milestones : List Milestone) (row : RoadmapRow)
    → (pinned milestones row ≡ []) ↔ HasPin milestones row
unfolding pinned pin_may_be_absent
pinned-HasPin_iff milestones row = of_pin row.milestone refl
  where
    of_pin :
        (o : Option ℕ) → row.milestone ≡ o → (pinned milestones row ≡ []) ↔ HasPin milestones row
    of_pin none q = rw q (
      λ e. inl (refl, ground arith, ground (arith, string_eq.same_iff row.state "queued")),
      λ h. elim h [ inl (_, k, s) ↦ rw (k, s) refl | inr (n, m, e, _) ↦ cc ],
    )
    of_pin (some n) q = elim (Option-cases (get n (by_number milestones))) [
      | inl missing ↦ (
        λ e. absurd (cc (rw (q, pinned, missing) at e)),
        λ h. elim h [
          | inl (e, _, _) ↦ absurd cc
          | inr (k, m, e, found) ↦ let same : n ≡ k = cc in absurd (cc (rw same at missing, found))
        ],
      )
      | inr (m, found) ↦ (λ e. inr (n, m, q, found), λ h. rw (q, pinned, found) refl)
    ]

one_active_iff : (arcs : List RoadmapRow) → (one_active arcs ≡ []) ↔ (length (active_arcs arcs) ≡ 1)
unfolding one_active
one_active_iff arcs = ground arith

claimed_iff : (rows : List RoadmapRow) (m : Milestone) → (claimed rows m ≡ []) ↔ IsClaimed rows m
unfolding claimed
claimed_iff rows m = (to, from)
  where
    pin : (row : RoadmapRow) → (is_pin m.number row ≡ true) ↔ (row.milestone ≡ some m.number)
    pin row = of_pin row.milestone
      where
        of_pin :
            (o : Option ℕ)
            → ((elim o [ none ↦ false | some k ↦ k == m.number ]) ≡ true) ↔ (o ≡ some m.number)
        of_pin none = ground arith
        of_pin (some k) = ground arith

    to : claimed rows m ≡ [] → IsClaimed rows m
    to e op = elim (Bool-cases (any (is_pin m.number) rows)) [
      | inl t ↦ let (row, i, k) = (any_iff (is_pin m.number) rows).0 t in (row, i, (pin row).0 k)
      | inr f ↦ absurd (cc (rw (op, f) at e))
    ]

    from : IsClaimed rows m → claimed rows m ≡ []
    from h = elim (Bool-cases m.is_open) [
      | inr f ↦ rw f refl
      | inl op ↦
          let (row, i, k) = h op in
          rw (op, (any_iff (is_pin m.number) rows).1 (row, i, (pin row).1 k)) refl
    ]

against_iff :
    (row : RoadmapRow) (m : Milestone)
    → (against row m (expected row.state) ≡ [])
      ↔ ((row.state ≡ "active" → m.is_open ≡ true) × (row.state ≡ "done" → m.is_open ≡ false))
against_iff row m = (to, from)
  where
    active_not_done : row.state ≡ "active" → row.state ≡ "done" → ⊥
    active_not_done a d = cc (a, d)

    to :
        against row m (expected row.state) ≡ []
        → (row.state ≡ "active" → m.is_open ≡ true) × (row.state ≡ "done" → m.is_open ≡ false)
    to e = (
      λ a.
          let t : (row.state == "active") ≡ true = (string_eq.same_iff row.state "active").1 a in
          ground arith,
      λ d.
          let t : (row.state == "done") ≡ true = (string_eq.same_iff row.state "done").1 d in
          ground (arith, string_eq.same_iff row.state "active", active_not_done),
    )

    from :
        ((row.state ≡ "active" → m.is_open ≡ true) × (row.state ≡ "done" → m.is_open ≡ false))
        → against row m (expected row.state) ≡ []
    from (a, d) =
        ground (arith, string_eq.same_iff row.state "active", string_eq.same_iff row.state "done")

symmetric-InStep_iff :
    (milestones : List Milestone) (row : RoadmapRow)
    → (symmetric milestones row ≡ []) ↔ InStep milestones row
unfolding symmetric
symmetric-InStep_iff milestones row = of_pin row.milestone refl
  where
    of_pin :
        (o : Option ℕ) → row.milestone ≡ o → (symmetric milestones row ≡ []) ↔ InStep milestones row
    of_pin none q = rw q (λ e n m p f. absurd cc, λ h. refl)
    of_pin (some k) q = elim (Option-cases (get k (by_number milestones))) [
      | inl missing ↦
          rw (q, symmetric, missing)
            (λ e n m p f. let same : k ≡ n = cc in absurd (cc (rw same at missing, f)), λ h. refl)
      | inr (x, found) ↦
          rw (q, symmetric, found)
            (
              λ e n m p f.
                  let same : k ≡ n = cc in
                  let one : x ≡ m = cc (rw same at found, f) in
                  rw (← one) ((against_iff row x).0 e),
              λ h. (against_iff row x).1 (h k x refl found),
            )
    ]

pinned_iff :
    (milestones : List Milestone) (row : RoadmapRow)
    → (pinned milestones row ≡ []) ↔ IsPinned milestones row
pinned_iff milestones row = (
  λ h. elim ((pinned-HasPin_iff milestones row).0 h) [
    | inl q ↦ inl q
    | inr (n, m, e, found) ↦ inr (n, m, e, (by_number_iff milestones n m).0 found)
  ],
  λ h. (pinned-HasPin_iff milestones row).1 (elim h [
    | inl q ↦ inl q
    | inr (n, m, e, there) ↦ inr (n, m, e, (by_number_iff milestones n m).1 there)
  ]),
)

symmetric_iff :
    (milestones : List Milestone) (row : RoadmapRow)
    → (symmetric milestones row ≡ []) ↔ IsSymmetric milestones row
symmetric_iff milestones row = (
  λ h n m e there.
      (symmetric-InStep_iff milestones row).0 h n m e ((by_number_iff milestones n m).1 there),
  λ h.
      (symmetric-InStep_iff milestones row).1
        (λ n m e found. h n m e ((by_number_iff milestones n m).0 found)),
)

five-append :
    (a b c d e : List Violation)
    → (a ++ b ++ c ++ d ++ e ≡ []) ↔ ((a ≡ []) × (b ≡ []) × (c ≡ []) × (d ≡ []) × (e ≡ []))
five-append [] [] [] [] e = ground arith
five-append [] [] [] (x ∷ d) e = ground arith
five-append [] [] (x ∷ c) d e = ground arith
five-append [] (x ∷ b) c d e = ground arith
five-append (x ∷ a) b c d e = ground arith

-- The guard passes exactly when there are arcs and milestones, every row has a legal state and a
-- milestone that exists (a queued arc may have none), exactly one arc is active, every open milestone
-- is pinned by a row, and active rows have open milestones and done rows closed ones. A number names the
-- last of the milestones that have it.
pub judge_iff :
    (arcs campaigns : List RoadmapRow) (milestones : List Milestone)
    → ((judge arcs campaigns milestones ≡ pass (length arcs) (length campaigns) (length milestones))
        ↔ ((arcs ≢ [])
            × (milestones ≢ [])
            × ((row : RoadmapRow)
                → In row (arcs ++ campaigns)
                → In row.state (legal_states row.kind))
            × ((row : RoadmapRow) → In row (arcs ++ campaigns) → IsPinned milestones row)
            × (length (active_arcs arcs) ≡ 1)
            × ((m : Milestone) → In m milestones → IsClaimed (arcs ++ campaigns) m)
            × ((row : RoadmapRow) → In row (arcs ++ campaigns) → IsSymmetric milestones row)))
unfolding judge
judge_iff arcs campaigns milestones = (to, from)
  where
    parts : (all_violations arcs campaigns milestones ≡ []) ↔ (
        (collect well_formed (arcs ++ campaigns) ≡ [])
        × (collect (pinned milestones) (arcs ++ campaigns) ≡ [])
        × (one_active arcs ≡ [])
        × (collect (claimed (arcs ++ campaigns)) milestones ≡ [])
        × (collect (symmetric milestones) (arcs ++ campaigns) ≡ []))
    parts =
        unfold all_violations in
        five-append (collect well_formed (arcs ++ campaigns))
          (collect (pinned milestones) (arcs ++ campaigns)) (one_active arcs)
          (collect (claimed (arcs ++ campaigns)) milestones)
          (collect (symmetric milestones) (arcs ++ campaigns))

    to :
        judge arcs campaigns milestones ≡ pass (length arcs) (length campaigns) (length milestones)
        → (arcs ≢ [])
          × (milestones ≢ [])
          × ((row : RoadmapRow) → In row (arcs ++ campaigns) → In row.state (legal_states row.kind))
          × ((row : RoadmapRow) → In row (arcs ++ campaigns) → IsPinned milestones row)
          × (length (active_arcs arcs) ≡ 1)
          × ((m : Milestone) → In m milestones → IsClaimed (arcs ++ campaigns) m)
          × ((row : RoadmapRow) → In row (arcs ++ campaigns) → IsSymmetric milestones row)
    to e = elim (Bool-cases (length arcs == 0)) [
      | inl t ↦ absurd (cc (rw t at e))
      | inr some_arcs ↦ elim (Bool-cases (length milestones == 0)) [
        | inl t ↦ absurd (cc (rw (some_arcs, t) at e))
        | inr some_milestones ↦
            let (a, b, c, d, f) = parts.0 (
              no_violation (all_violations arcs campaigns milestones)
                (rw (some_arcs, some_milestones) at e)) in
            (
              ground (arith, length-eq-zero_iff arcs),
              ground (arith, length-eq-zero_iff milestones),
              λ row i.
                  (well_formed_iff row).0
                    ((collect-eq-nil_iff well_formed (arcs ++ campaigns)).0 a row i),
              λ row i.
                  (pinned_iff milestones row).0
                    ((collect-eq-nil_iff (pinned milestones) (arcs ++ campaigns)).0 b row i),
              (one_active_iff arcs).0 c,
              λ m i.
                  (claimed_iff (arcs ++ campaigns) m).0
                    ((collect-eq-nil_iff (claimed (arcs ++ campaigns)) milestones).0 d m i),
              λ row i.
                  (symmetric_iff milestones row).0
                    ((collect-eq-nil_iff (symmetric milestones) (arcs ++ campaigns)).0 f row i),
            )
      ]
    ]
      where
        no_violation :
            (vs : List Violation)
            → verdict_of (length arcs) (length campaigns) (length milestones) vs
              ≡ pass (length arcs) (length campaigns) (length milestones)
            → vs ≡ []
        no_violation [] q = refl
        no_violation (v ∷ vs) q = cc

    from :
        (arcs ≢ [])
          × (milestones ≢ [])
          × ((row : RoadmapRow) → In row (arcs ++ campaigns) → In row.state (legal_states row.kind))
          × ((row : RoadmapRow) → In row (arcs ++ campaigns) → IsPinned milestones row)
          × (length (active_arcs arcs) ≡ 1)
          × ((m : Milestone) → In m milestones → IsClaimed (arcs ++ campaigns) m)
          × ((row : RoadmapRow) → In row (arcs ++ campaigns) → IsSymmetric milestones row)
        → judge arcs campaigns milestones
          ≡ pass (length arcs) (length campaigns) (length milestones)
    from (p, q, a, b, c, d, f) =
        let some_arcs : (length arcs == 0) ≡ false = ground (arith, length-eq-zero_iff arcs) in
        let some_milestones : (length milestones == 0) ≡ false =
          ground (arith, length-eq-zero_iff milestones) in
        let clean : all_violations arcs campaigns milestones ≡ [] = parts.1 (
          (collect-eq-nil_iff well_formed (arcs ++ campaigns)).1
              (λ row i. (well_formed_iff row).1 (a row i)),
          (collect-eq-nil_iff (pinned milestones) (arcs ++ campaigns)).1
              (λ row i. (pinned_iff milestones row).1 (b row i)),
          (one_active_iff arcs).1 c,
          (collect-eq-nil_iff (claimed (arcs ++ campaigns)) milestones).1
              (λ m i. (claimed_iff (arcs ++ campaigns) m).1 (d m i)),
          (collect-eq-nil_iff (symmetric milestones) (arcs ++ campaigns)).1
              (λ row i. (symmetric_iff milestones row).1 (f row i)),
        ) in
        rw (some_arcs, some_milestones, clean) refl
