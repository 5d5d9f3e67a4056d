-- ===== src/Roadmap/Rows.antt =====
-- packages/pipeline-cli/src/tools/roadmap/roadmap.ts: which pull requests hang under a row.
use kampus_pipeline.Common.{
  ℕ, String, Bool, true, ◌||◌, Option, none, some, List, [], ◌∷◌, ◌++◌, map, ◌≡◌, ◌↔◌, ◌⊎◌, refl,
  inl, inr, arith, filter, any, any_iff, contains, contains_iff, In, In-filter, In-map, In-append,
  nat_eq, sym, ◌∙◌, ap, ◌≢◌,
}
use kampus_pipeline.RoadmapGuard.{RowKind, RoadmapRow}
use kampus_pipeline.Roadmap.{
  Issue, PullRequest, RoadmapFacts, EpicNode, is_number, in_milestone, children_of, epics_of,
  child_numbers, linked_pulls, build_row,
}
use kampus_pipeline.Roadmap.Active.{is_number_iff}

-- The number is one of an issue that is pinned to the milestone of the row, or one of a child of an
-- epic that is.
abbrev pub Claims : List Issue → Option ℕ → ℕ → Type 0
Claims issues pin n =
    (i : Issue) × In i issues
    × (pin ≢ none)
    × (i.milestone ≡ pin)
    × ((i.number ≡ n)
        ⊎ ((i.is_epic ≡ true)
            × ((c : Issue) × In c issues × (c.parent ≡ some i.number) × (c.number ≡ n))))

in_milestone_iff :
    (issues : List Issue) (pin : Option ℕ) (i : Issue)
    → In i (in_milestone issues pin) ↔ (In i issues × (pin ≢ none) × (i.milestone ≡ pin))
unfolding in_milestone
in_milestone_iff issues none i = (λ h. absurd h, λ (_, h, _). absurd (h refl))
in_milestone_iff issues (some n) i = ground (
  arith,
  In-filter (λ (i : Issue). is_number i.milestone n) i issues,
  is_number_iff i.milestone n,
)

child_numbers_iff :
    (n : ℕ) (es : List EpicNode)
    → In n (child_numbers es)
      ↔ ((e : EpicNode) × In e es × In n (map (λ (c : Issue). c.number) e.children))
unfolding child_numbers
child_numbers_iff n [] = (λ h. absurd h, λ h. absurd h.1)
child_numbers_iff n (e ∷ es) = (
  λ h. elim ((In-append n (map (λ (c : Issue). c.number) e.children) (child_numbers es)).0 h) [
    | inl i ↦ (e, inl refl, i)
    | inr i ↦ let (f, j, k) = (child_numbers_iff n es).0 i in (f, inr j, k)
  ],
  λ (f, j, k).
      (In-append n (map (λ (c : Issue). c.number) e.children) (child_numbers es)).1
        (place (child_numbers_iff n es).1 f j k),
)
  where
    place :
        (((f : EpicNode) × In f es × In n (map (λ (c : Issue). c.number) f.children))
          → In n (child_numbers es))
        → (f : EpicNode) → In f (e ∷ es)
        → In n (map (λ (c : Issue). c.number) f.children)
        → In n (map (λ (c : Issue). c.number) e.children) ⊎ In n (child_numbers es)
    place ih f (inl q) k = inl (rw (← q) k)
    place ih f (inr j) k = inr (ih (f, j, k))

module _ (issues : List Issue) (pin : Option ℕ) (n : ℕ) where
  inside : List Issue
  inside = in_milestone issues pin

  epics : List EpicNode
  epics = epics_of issues inside

  abbrev claimed : List ℕ
  claimed = map (λ (i : Issue). i.number) inside ++ child_numbers epics

  epic_at :
      (e : EpicNode)
      → In e epics
      → (i : Issue) × In i inside
        × (i.is_epic ≡ true)
        × (e ≡ record { epic = i; children = children_of issues i })
  unfolding epics epics_of
  epic_at e j =
      let (i, k, q) =
        (In-map (λ i. record { epic = i; children = children_of issues i }) e
            (filter (λ (i : Issue). i.is_epic) inside)).0
          j in
      let (l, is_epic) = (In-filter (λ (i : Issue). i.is_epic) i inside).0 k in (i, l, is_epic, q)

  of_claimed : In n claimed → Claims issues pin n
  unfolding inside children_of
  of_claimed h =
      elim ((In-append n (map (λ (i : Issue). i.number) inside) (child_numbers epics)).0 h) [
        | inl j ↦
            let (i, k, q) = (In-map (λ (i : Issue). i.number) n inside).0 j in
            let (a, b, c) = (in_milestone_iff issues pin i).0 k in (i, a, b, c, inl (sym q))
        | inr j ↦
            let (e, k, l) = (child_numbers_iff n epics).0 j in
            let (i, m, is_epic, q) = epic_at e k in
            let (a, b, c) = (in_milestone_iff issues pin i).0 m in
            let (d, o, r) = (In-map (λ (c : Issue). c.number) n e.children).0 l in
            let (there, parent) =
              (In-filter (λ (c : Issue). is_number c.parent i.number) d issues).0
                (child_of e i d q o) in
            (
              i,
              a,
              b,
              c,
              inr (is_epic, (d, there, (is_number_iff d.parent i.number).0 parent, sym r)),
            )
      ]
    where
      child_of :
          (e : EpicNode) (i d : Issue)
          → e ≡ record { epic = i; children = children_of issues i }
          → In d e.children
          → In d (children_of issues i)
      child_of e i d q o = rw (← ap (λ (x : EpicNode). x.children) q) o

  to_claimed : Claims issues pin n → In n claimed
  unfolding inside epics epics_of children_of
  to_claimed (i, a, b, c, inl q) =
      (In-append n (map (λ (i : Issue). i.number) inside) (child_numbers epics)).1 (
        inl (
          (In-map (λ (i : Issue). i.number) n inside).1
            (i, (in_milestone_iff issues pin i).1 (a, b, c), sym q)))
  to_claimed (i, a, b, c, inr (is_epic, (d, there, parent, r))) =
      (In-append n (map (λ (i : Issue). i.number) inside) (child_numbers epics)).1 (
        inr (
          (child_numbers_iff n epics).1 (
            record { epic = i; children = children_of issues i },
            (In-map (λ i. record { epic = i; children = children_of issues i }) _
                  (filter (λ (i : Issue). i.is_epic) inside)).1
                (
                  i,
                  (In-filter (λ (i : Issue). i.is_epic) i inside).1
                      ((in_milestone_iff issues pin i).1 (a, b, c), is_epic),
                  refl,
                ),
            (In-map (λ (c : Issue). c.number) n (children_of issues i)).1 (
              d,
              (In-filter (λ (c : Issue). is_number c.parent i.number) d issues).1
                  (there, (is_number_iff d.parent i.number).1 parent),
              sym r,
            ),
          )))

  epic_claimed : In n (map (λ (e : EpicNode). e.epic.number) epics) → In n claimed
  epic_claimed j =
      let (e, k, q) = (In-map (λ (e : EpicNode). e.epic.number) n epics).0 j in
      let (i, m, _, r) = epic_at e k in
      (In-append n (map (λ (i : Issue). i.number) inside) (child_numbers epics)).1 (
        inl (
          (In-map (λ (i : Issue). i.number) n inside).1
            (i, m, q ∙ ap (λ (x : EpicNode). x.epic.number) r)))

  test_iff :
      ((contains claimed n || contains (map (λ (e : EpicNode). e.epic.number) epics) n) ≡ true)
      ↔ Claims issues pin n
  test_iff = (λ h. of_claimed (claimed_of h), λ k. true_of (to_claimed k))
    where
      claimed_of :
          (contains claimed n || contains (map (λ (e : EpicNode). e.epic.number) epics) n) ≡ true
          → In n claimed
      claimed_of h = ground (
        arith,
        contains_iff claimed n,
        contains_iff (map (λ (e : EpicNode). e.epic.number) epics) n,
        epic_claimed,
      )

      true_of :
          In n claimed
          → (contains claimed n || contains (map (λ (e : EpicNode). e.epic.number) epics) n) ≡ true
      true_of i = ground (arith, contains_iff claimed n)

-- A pull request hangs under a row exactly when it is one of the pull requests and links the number of
-- an issue that is pinned to the milestone of the row, or of a child of an epic that is.
pub build_row-pulls_iff :
    (kind : RowKind) (facts : RoadmapFacts) (name : Option String) (row : RoadmapRow)
    (p : PullRequest)
    → In p (build_row kind facts name row).pulls
      ↔ (In p facts.pulls × ((n : ℕ) × In n p.linked_issues × Claims facts.issues row.milestone n))
unfolding build_row linked_pulls inside epics
build_row-pulls_iff kind facts name row p = (
  λ h.
      let (i, e) = (In-filter links p facts.pulls).0 h in
      let (n, j, t) = (any_iff test p.linked_issues).0 e in
      (i, (n, j, (test_iff facts.issues row.milestone n).0 t)),
  λ (i, (n, j, k)).
      (In-filter links p facts.pulls).1
        (i, (any_iff test p.linked_issues).1 (n, j, (test_iff facts.issues row.milestone n).1 k)),
)
  where
    test : ℕ → Bool
    test n =
        contains (claimed facts.issues row.milestone n) n
        || contains (map (λ (e : EpicNode). e.epic.number) (epics facts.issues row.milestone n)) n

    links : PullRequest → Bool
    links q = any test q.linked_issues
