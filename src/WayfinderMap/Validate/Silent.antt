-- ===== src/WayfinderMap/Validate/Silent.antt =====
-- packages/pipeline-cli/src/tools/wayfinder-map/validate.ts: when each group of the floor's checks finds
-- nothing.
use kampus_pipeline.Common.{
  ℕ, suc, All, Bool, true, false, not, Option, none, some, List, [], ◌∷◌, ◌++◌, ◌≡◌, ◌≢◌, ◌↔◌, refl,
  inl, inr, arith, map, filter, In, In-filter, In-map, In-distinct, In-sort_by, contains,
  contains_iff, distinct, leb, sort, string_eq, nat_eq, Option-cases, Bool-cases, append-eq-nil_iff,
  sym,
}
use kampus_pipeline.WayfinderMap.{
  FrontierTicket, Map, SubIssue, SubIssueState, is_open, is_closed, MapLedger, Defect,
}
use kampus_pipeline.WayfinderMap.Validate.{
  closed_sub_issues, section_defects, empty_defects, entry_defects, frontier_issues, defined,
  dangling, stale, is_closed_state, unless,
}

-- The sub-issue is known to be closed.
abbrev pub IsClosed : MapLedger → ℕ → Type 0
IsClosed ledger n =
    (s : SubIssue) × In s ledger.sub_issues × (s.number ≡ n) × (s.state ≡ some is_closed)

abbrev pub IsKnown : MapLedger → ℕ → Type 0
IsKnown ledger n = (s : SubIssue) × In s ledger.sub_issues × (s.number ≡ n)

pub IsClosed-iff :
    (ledger : MapLedger) (n : ℕ) → In n (closed_sub_issues ledger.sub_issues) ↔ IsClosed ledger n
unfolding closed_sub_issues
IsClosed-iff ledger n = (
  λ h.
      let i = (In-distinct n (map (λ (s : SubIssue). s.number) known)).0 h in
      let (s, j, e) = (In-map (λ (s : SubIssue). s.number) n known).0 i in
      let (k, state) =
        (In-filter (λ (s : SubIssue). is_closed_state s.state) s ledger.sub_issues).0 j in
      (s, k, sym e, closed_of s.state state),
  λ (s, k, e, state). (In-distinct n (map (λ (s : SubIssue). s.number) known)).1 (
      (In-map (λ (s : SubIssue). s.number) n known).1 (
        s,
        (In-filter (λ (s : SubIssue). is_closed_state s.state) s ledger.sub_issues).1
            (k, rw state refl),
        sym e,
      )),
)
  where
    known : List SubIssue
    known = filter (λ (s : SubIssue). is_closed_state s.state) ledger.sub_issues

    closed_of : (o : Option SubIssueState) → is_closed_state o ≡ true → o ≡ some is_closed
    closed_of none h = cc
    closed_of (some is_open) h = cc
    closed_of (some is_closed) h = refl

In-defined : (n : ℕ) (os : List (Option ℕ)) → In n (defined os) ↔ In (some n) os
unfolding defined
In-defined n [] = ground arith
In-defined n (none ∷ os) = ground (arith, In-defined n os)
In-defined n (some m ∷ os) = ground (arith, In-defined n os)

pub frontier_iff :
    (ts : List FrontierTicket) (n : ℕ)
    → In n (frontier_issues ts) ↔ ((t : FrontierTicket) × In t ts × (t.issue ≡ some n))
unfolding frontier_issues
frontier_iff ts n = (
  λ h.
      let (t, i, e) = (In-map issue (some n) ts).0 ((In-defined n (map issue ts)).0 h) in
      (t, i, sym e),
  λ (t, i, e). (In-defined n (map issue ts)).1 ((In-map issue (some n) ts).1 (t, i, sym e)),
)
  where
    issue : FrontierTicket → Option ℕ
    issue t = t.issue

empty_iff : (xs : List ℕ) → (xs ≡ []) ↔ ((n : ℕ) → ¬ In n xs)
empty_iff [] = (λ h n i. i, λ h. refl)
empty_iff (x ∷ xs) = (λ h. cc, λ h. absurd (h x (inl refl)))

pub entry_defects-eq-nil_iff :
    {A : Type 0} (issue : A → Option ℕ) (report : ℕ → A → Defect) (i : ℕ) (xs : List A)
    → (entry_defects issue report i xs ≡ []) ↔ All (λ x. issue x ≢ none) xs
unfolding entry_defects
entry_defects-eq-nil_iff issue report i [] = ground arith
entry_defects-eq-nil_iff issue report i (x ∷ xs) =
    ground (arith, entry_defects-eq-nil_iff issue report (suc i) xs, Option-cases (issue x))

In-dangling :
    (s : SubIssue) (ss : List SubIssue) (ts : List FrontierTicket) (n : ℕ)
    → In n (dangling (s ∷ ss) ts)
      ↔ (In n (frontier_issues ts) × ¬ In n (map (λ (x : SubIssue). x.number) (s ∷ ss)))
unfolding dangling
In-dangling s ss ts n =
    let known = map (λ (x : SubIssue). x.number) (s ∷ ss) in
    let test : ℕ → Bool = λ m. not (contains known m) in
    ground (
      arith,
      In-distinct n (sort (filter test (frontier_issues ts))),
      In-sort_by leb n (filter test (frontier_issues ts)),
      In-filter test n (frontier_issues ts),
      contains_iff known n,
    )

pub dangling-eq-nil_iff :
    (ss : List SubIssue) (ts : List FrontierTicket)
    → (dangling ss ts ≡ [])
      ↔ ((n : ℕ) → In n (frontier_issues ts) → ss ≢ [] → In n (map (λ (s : SubIssue). s.number) ss))
unfolding dangling
dangling-eq-nil_iff [] ts = (λ h n i some_. absurd (some_ refl), λ h. refl)
dangling-eq-nil_iff (s ∷ ss) ts = (
  λ h n i some_.
      let known = map (λ (x : SubIssue). x.number) (s ∷ ss) in
      elim (Bool-cases (contains known n)) [
        | inl t ↦ (contains_iff known n).0 t
        | inr f ↦ absurd (
            (empty_iff (dangling (s ∷ ss) ts)).0 h n
              ((In-dangling s ss ts n).1 (i, λ j. false_of known n f j)))
      ],
  λ h.
      (empty_iff (dangling (s ∷ ss) ts)).1
        (λ n i. let (j, unknown) = (In-dangling s ss ts n).0 i in unknown (h n j (λ e. cc))),
)
  where
    false_of : (known : List ℕ) (n : ℕ) → contains known n ≡ false → In n known → ⊥
    false_of known n f j = ground (arith, contains_iff known n)

pub stale-eq-nil_iff :
    (ss : List SubIssue) (ts : List FrontierTicket)
    → (stale ss ts ≡ []) ↔ ((n : ℕ) → In n (frontier_issues ts) → ¬ In n (closed_sub_issues ss))
unfolding stale
stale-eq-nil_iff ss ts = (
  λ h n i c. (empty_iff (stale ss ts)).0 h n ((In-stale n).1 (i, c)),
  λ h. (empty_iff (stale ss ts)).1 (λ n i. let (j, c) = (In-stale n).0 i in h n j c),
)
  where
    In-stale :
        (n : ℕ) → In n (stale ss ts) ↔ (In n (frontier_issues ts) × In n (closed_sub_issues ss))
    In-stale n =
        let test : ℕ → Bool = λ m. contains (closed_sub_issues ss) m in
        ground (
          arith,
          In-sort_by leb n (distinct (filter test (frontier_issues ts))),
          In-distinct n (filter test (frontier_issues ts)),
          In-filter test n (frontier_issues ts),
          contains_iff (closed_sub_issues ss) n,
        )

unless-eq-nil_iff : (b : Bool) (d : Defect) → (unless b d ≡ []) ↔ (b ≡ true)
unless-eq-nil_iff true d = ground arith
unless-eq-nil_iff false d = ground arith

flags-eq-nil_iff :
    (a b c d : Bool) (x y z w : Defect)
    → (unless a x ++ unless b y ++ unless c z ++ unless d w ≡ [])
      ↔ ((a ≡ true) × (b ≡ true) × (c ≡ true) × (d ≡ true))
flags-eq-nil_iff a b c d x y z w = ground (
  arith,
  append-eq-nil_iff (unless a x ++ unless b y ++ unless c z) (unless d w),
  append-eq-nil_iff (unless a x ++ unless b y) (unless c z),
  append-eq-nil_iff (unless a x) (unless b y),
  unless-eq-nil_iff a x,
  unless-eq-nil_iff b y,
  unless-eq-nil_iff c z,
  unless-eq-nil_iff d w,
)

pub sections-eq-nil_iff :
    (number : ℕ) (c : Map)
    → (section_defects number c ≡ []) ↔ (
        (c.destination.present ≡ true)
        × (c.decisions_so_far.present ≡ true)
        × (c.open_frontier.present ≡ true)
        × (c.graduated_fog.present ≡ true))
unfolding section_defects
sections-eq-nil_iff number c =
    flags-eq-nil_iff c.destination.present c.decisions_so_far.present c.open_frontier.present
      c.graduated_fog.present _ _ _ _

pub empty-eq-nil_iff :
    (number : ℕ) (c : Map)
    → c.destination.present ≡ true
    → (empty_defects number c ≡ []) ↔ (c.destination.text ≢ "")
unfolding empty_defects
empty-eq-nil_iff number c there = ground (arith, string_eq.same_iff c.destination.text "")

pub seven-eq-nil_iff :
    (a b c d e f g : List Defect)
    → (a ++ b ++ c ++ d ++ e ++ f ++ g ≡ [])
      ↔ ((a ≡ []) × (b ≡ []) × (c ≡ []) × (d ≡ []) × (e ≡ []) × (f ≡ []) × (g ≡ []))
seven-eq-nil_iff a b c d e f g = ground (
  arith,
  append-eq-nil_iff (a ++ b ++ c ++ d ++ e ++ f) g,
  append-eq-nil_iff (a ++ b ++ c ++ d ++ e) f,
  append-eq-nil_iff (a ++ b ++ c ++ d) e,
  append-eq-nil_iff (a ++ b ++ c) d,
  append-eq-nil_iff (a ++ b) c,
  append-eq-nil_iff a b,
)
