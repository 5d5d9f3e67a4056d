-- ===== src/EpicLedger/Validate/Groups.antt =====
-- Each group of findings of the floor is empty exactly when its rule holds.
use text.Mathlib.Text.{starts_with}
use text.Mathlib.TextEquality.{starts_with_iff}
use kampus_pipeline.Common.{
  String, any_iff, ℕ, ◌≡◌, refl, ◌↔◌, ◌⊎◌, inl, inr, Bool, true, false, not, List, [], ◌∷◌, ◌++◌,
  map, arith, leb, ◌==◌, nat_eq, string_eq, filter, contains, contains_iff, distinct, In-distinct,
  In, All, All-iff, In-map, sort_by, append-eq-nil_iff, map-eq-nil_iff, sort_by-eq-nil_iff,
  filter-eq-nil_iff, In-sort_by, nat_beq_iff, In-append, ◌&&◌,
}
use kampus_pipeline.EpicLedger.Ledger.{ChildIssue, EpicLedger}
use kampus_pipeline.EpicLedger.Validate.{
  by_number, concat_map, child_defects, zero_ac_defects, story_defects, label_defects,
  containment_defects, triage_defects, missing_labels, has_prefixed_label, has_priority_label,
  priority_labels, needs_triage, feature_label, uncovered, covered, stories_of, orphans,
  dangling_refs,
}
use kampus_pipeline.EpicLedger.Validate.Rules.{HasPrefixed, IsCleanChild}

pub In-covered :
    (s : ℕ) (cs : List ChildIssue)
    → In s (covered cs) ↔ ((c : ChildIssue) × In c cs × In s (stories_of c))
unfolding covered
In-covered s [] = (λ h. absurd h, λ w. absurd w.1)
In-covered s (c ∷ cs) = (to (In-covered s cs).0, from (In-covered s cs).1)
  where
    to :
        (In s (covered cs) → (d : ChildIssue) × In d cs × In s (stories_of d))
        → In s (stories_of c ++ covered cs)
        → (d : ChildIssue) × In d (c ∷ cs) × In s (stories_of d)
    to ih h = elim ((In-append s (stories_of c) (covered cs)).0 h) [
      | inl here ↦ (c, inl refl, here)
      | inr there ↦ let (d, i, j) = ih there in (d, inr i, j)
    ]

    from :
        (((d : ChildIssue) × In d cs × In s (stories_of d)) → In s (covered cs))
        → ((d : ChildIssue) × In d (c ∷ cs) × In s (stories_of d))
        → In s (stories_of c ++ covered cs)
    from ih (d, inl e, j) = (In-append s (stories_of c) (covered cs)).1 (inl (rw e at j))
    from ih (d, inr i, j) = (In-append s (stories_of c) (covered cs)).1 (inr (ih (d, i, j)))

pub concat_map-eq-nil_iff :
    {A B : Type 0} (f : A → List B) (xs : List A) → (concat_map f xs ≡ []) ↔ All (λ a. f a ≡ []) xs
unfolding concat_map
concat_map-eq-nil_iff f [] = ground arith
concat_map-eq-nil_iff f (x ∷ xs) =
    ground (arith, append-eq-nil_iff (f x) (concat_map f xs), concat_map-eq-nil_iff f xs)

has_prefixed_label_iff :
    (labels : List String) (prefix : String)
    → (has_prefixed_label labels prefix ≡ true) ↔ HasPrefixed labels prefix
unfolding has_prefixed_label
has_prefixed_label_iff labels prefix = (
  λ h.
      let (l, i, e) = (any_iff (λ l. starts_with l prefix) labels).0 h in
      record { label = l; there = i; begins = (starts_with_iff l prefix).0 e },
  λ h.
      (any_iff (λ l. starts_with l prefix) labels).1
        (h.label, h.there, (starts_with_iff h.label prefix).1 h.begins),
)

is_priority_iff :
    (l : String) → (contains priority_labels l ≡ true) ↔ ((l ≡ "p0") ⊎ (l ≡ "p1") ⊎ (l ≡ "p2"))
is_priority_iff l = (
  λ h. elim ((contains_iff priority_labels l).0 h) [
    | inl a ↦ inl a
    | inr (inl b) ↦ inr (inl b)
    | inr (inr (inl c)) ↦ inr (inr c)
    | inr (inr (inr n)) ↦ absurd n
  ],
  λ h.
      (contains_iff priority_labels l).1
        (elim h [ inl a ↦ inl a | inr (inl b) ↦ inr (inl b) | inr (inr c) ↦ inr (inr (inl c)) ]),
)

has_priority_label_iff :
    (labels : List String)
    → (has_priority_label labels ≡ true) ↔ (In "p0" labels ⊎ In "p1" labels ⊎ In "p2" labels)
unfolding has_priority_label
has_priority_label_iff labels = (
  λ h.
      let (l, i, e) = (any_iff (λ l. contains priority_labels l) labels).0 h in
      elim ((is_priority_iff l).0 e) [
        | inl a ↦ inl (rw a at i)
        | inr (inl b) ↦ inr (inl (rw b at i))
        | inr (inr c) ↦ inr (inr (rw c at i))
      ],
  λ h. (any_iff (λ l. contains priority_labels l) labels).1 (elim h [
    | inl i ↦ ("p0", i, (is_priority_iff "p0").1 (inl refl))
    | inr (inl i) ↦ ("p1", i, (is_priority_iff "p1").1 (inr (inl refl)))
    | inr (inr i) ↦ ("p2", i, (is_priority_iff "p2").1 (inr (inr refl)))
  ]),
)

label_defects_iff :
    (c : ChildIssue)
    → (label_defects c ≡ []) ↔ (
        HasPrefixed c.labels "type:"
        × HasPrefixed c.labels "status:"
        × (In "p0" c.labels ⊎ In "p1" c.labels ⊎ In "p2" c.labels))
unfolding label_defects missing_labels filter
label_defects_iff c = ground (
  arith,
  has_prefixed_label_iff c.labels "type:",
  has_prefixed_label_iff c.labels "status:",
  has_priority_label_iff c.labels,
)

child_defects_iff :
    (cycle_doc : Bool) (c : ChildIssue)
    → (child_defects true cycle_doc c ≡ []) ↔ IsCleanChild cycle_doc c
unfolding child_defects zero_ac_defects story_defects containment_defects triage_defects
child_defects_iff cycle_doc c = ground (
  arith,
  append-eq-nil_iff (zero_ac_defects c) (
      story_defects true c
      ++ label_defects c
      ++ containment_defects cycle_doc c
      ++ triage_defects c),
  label_defects_iff c,
  contains_iff c.labels feature_label,
  contains_iff c.labels needs_triage,
)

pub dangling_refs_iff :
    (l : EpicLedger)
    → (dangling_refs l ≡ []) ↔ (
        (n : ℕ)
        → In n l.epic.dependencies.nodes
        → (n ≡ l.epic.number)
          ⊎ ((c : ChildIssue) × In c l.children × (n ≡ c.number))
          ⊎ In n l.external_refs)
unfolding dangling_refs
dangling_refs_iff l = (
  λ e. λ n i. resolved n (
      (All-iff _ nodes).0 ((filter-eq-nil_iff test nodes).0 ((sort_by-eq-nil_iff leb _).0 e)) n
        ((In-distinct n l.epic.dependencies.nodes).1 i)),
  λ h. (sort_by-eq-nil_iff leb _).1 (
      (filter-eq-nil_iff test nodes).1 (
        (All-iff _ nodes).1
          (λ n i. rejected n (h n ((In-distinct n l.epic.dependencies.nodes).0 i))))),
)
  where
    nodes : List ℕ
    nodes = distinct l.epic.dependencies.nodes

    numbers : List ℕ
    numbers = map (λ (c : ChildIssue). c.number) l.children

    test : ℕ → Bool
    test n =
        not (n == l.epic.number) && not (contains numbers n) && not (contains l.external_refs n)

    child_of : (n : ℕ) → In n numbers ↔ ((c : ChildIssue) × In c l.children × (n ≡ c.number))
    child_of n = In-map (λ (c : ChildIssue). c.number) n l.children

    resolved :
        (n : ℕ)
        → test n ≡ false
        → (n ≡ l.epic.number)
          ⊎ ((c : ChildIssue) × In c l.children × (n ≡ c.number))
          ⊎ In n l.external_refs
    resolved n e =
        let cases : (n ≡ l.epic.number) ⊎ In n numbers ⊎ In n l.external_refs = ground (
          arith,
          nat_beq_iff n l.epic.number,
          contains_iff numbers n,
          contains_iff l.external_refs n,
        ) in
        elim cases [
          | inl a ↦ inl a
          | inr b ↦ elim b [ inl c ↦ inr (inl ((child_of n).0 c)) | inr d ↦ inr (inr d) ]
        ]

    rejected :
        (n : ℕ)
        → (n ≡ l.epic.number)
          ⊎ ((c : ChildIssue) × In c l.children × (n ≡ c.number))
          ⊎ In n l.external_refs
        → test n ≡ false
    rejected n (inl a) = ground (arith, nat_beq_iff n l.epic.number)
    rejected n (inr (inl b)) =
        let i : In n numbers = (child_of n).1 b in ground (arith, contains_iff numbers n)
    rejected n (inr (inr c)) = ground (arith, contains_iff l.external_refs n)

pub orphans_iff :
    (l : EpicLedger)
    → (orphans l ≡ [])
      ↔ ((c : ChildIssue) → In c l.children → In c.number l.epic.dependencies.nodes)
unfolding orphans
orphans_iff l = (
  λ e c i. listed c (
      (All-iff _ l.children).0
        ((filter-eq-nil_iff test l.children).0
          ((map-eq-nil_iff _ (filter test l.children)).0 ((sort_by-eq-nil_iff leb _).0 e)))
        c i),
  λ h. (sort_by-eq-nil_iff leb _).1 (
      (map-eq-nil_iff _ (filter test l.children)).1 (
        (filter-eq-nil_iff test l.children).1
          ((All-iff _ l.children).1 (λ c i. unlisted c (h c i))))),
)
  where
    test : ChildIssue → Bool
    test c = not (contains l.epic.dependencies.nodes c.number)

    listed : (c : ChildIssue) → test c ≡ false → In c.number l.epic.dependencies.nodes
    listed c e = ground (arith, contains_iff l.epic.dependencies.nodes c.number)

    unlisted : (c : ChildIssue) → In c.number l.epic.dependencies.nodes → test c ≡ false
    unlisted c i = ground (arith, contains_iff l.epic.dependencies.nodes c.number)

pub uncovered_iff :
    (l : EpicLedger)
    → (uncovered l ≡ [])
      ↔ ((s : ℕ) → In s l.epic.stories → (c : ChildIssue) × In c l.children × In s (stories_of c))
unfolding uncovered
uncovered_iff l = (
  λ e s i. (In-covered s l.children).0 (
      covered_ s (
        (All-iff _ stories).0 ((filter-eq-nil_iff test stories).0 ((sort_by-eq-nil_iff leb _).0 e))
          s ((In-distinct s l.epic.stories).1 i))),
  λ h. (sort_by-eq-nil_iff leb _).1 (
      (filter-eq-nil_iff test stories).1 (
        (All-iff _ stories).1 (λ s i.
          passed s ((In-covered s l.children).1 (h s ((In-distinct s l.epic.stories).0 i)))))),
)
  where
    stories : List ℕ
    stories = distinct l.epic.stories

    test : ℕ → Bool
    test s = not (contains (covered l.children) s)

    covered_ : (s : ℕ) → test s ≡ false → In s (covered l.children)
    covered_ s e = ground (arith, contains_iff (covered l.children) s)

    passed : (s : ℕ) → In s (covered l.children) → test s ≡ false
    passed s i = ground (arith, contains_iff (covered l.children) s)

pub children_iff :
    (l : EpicLedger)
    → (concat_map (child_defects true l.cycle_doc_present) (sort_by by_number l.children) ≡ [])
      ↔ ((c : ChildIssue) → In c l.children → IsCleanChild l.cycle_doc_present c)
children_iff l = (
  λ e c i. (child_defects_iff l.cycle_doc_present c).0 (
      (All-iff _ sorted).0 ((concat_map-eq-nil_iff _ sorted).0 e) c
        ((In-sort_by by_number c l.children).1 i)),
  λ h. (concat_map-eq-nil_iff _ sorted).1 (
      (All-iff _ sorted).1 (λ c i.
        (child_defects_iff l.cycle_doc_present c).1
          (h c ((In-sort_by by_number c l.children).0 i)))),
)
  where
    sorted : List ChildIssue
    sorted = sort_by by_number l.children
