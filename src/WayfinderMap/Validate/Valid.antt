-- ===== src/WayfinderMap/Validate/Valid.antt =====
-- packages/pipeline-cli/src/tools/wayfinder-map/validate.ts: the floor finds nothing exactly on a map
-- that is well-formed.
use kampus_pipeline.Common.{
  ℕ, true, false, none, some, List, [], ◌≡◌, ◌≢◌, ◌↔◌, inl, inr, arith, map, filter, In, In-map,
  contains, contains_iff, length, sort_by, string_eq, nat_eq, filter-eq-nil_iff, length-eq-zero_iff,
  nat_beq_iff, All-iff, Option-cases, Bool-cases, map-eq-nil_iff, sort_by-eq-nil_iff, sym,
}
use kampus_pipeline.WayfinderMap.{Decision, FrontierTicket, FogEntry, SubIssue, MapLedger}
use kampus_pipeline.WayfinderMap.Validate.{
  closed_sub_issues, is_answerable, answerable_frontier, is_graduation_ready, section_defects,
  empty_defects, decision_defects, frontier_defects, fog_defects, dangling_defect, stale_defect,
  dangling, stale, findings, defect_le, validate_map, is_valid_map,
}
use kampus_pipeline.WayfinderMap.Validate.Silent.{
  IsClosed, IsKnown, IsClosed-iff, frontier_iff, entry_defects-eq-nil_iff, dangling-eq-nil_iff,
  stale-eq-nil_iff, sections-eq-nil_iff, empty-eq-nil_iff, seven-eq-nil_iff,
}

-- A map is ready for graduation exactly when every ticket that the open frontier names and that is no
-- decision for a person is closed.
pub is_graduation_ready_iff :
    (ledger : MapLedger)
    → (is_graduation_ready ledger ≡ true) ↔ (
        (t : FrontierTicket) (n : ℕ)
        → In t ledger.chart.open_frontier.entries
        → t.issue ≡ some n
        → t.founder_decision_fork ≡ false
        → IsClosed ledger n)
unfolding is_graduation_ready answerable_frontier
is_graduation_ready_iff ledger = (
  λ h t n i named no_fork.
      let quiet =
        (filter-eq-nil_iff (is_answerable closed) entries).0 (
          (length-eq-zero_iff (filter (is_answerable closed) entries)).0 ((nat_beq_iff _ 0).0 h)) in
      (IsClosed-iff ledger n).0
        ((contains_iff closed n).0 (closed_of t n named no_fork ((All-iff _ entries).0 quiet t i))),
  λ h. (nat_beq_iff _ 0).1 (
      (length-eq-zero_iff (filter (is_answerable closed) entries)).1 (
        (filter-eq-nil_iff (is_answerable closed) entries).1 (
          (All-iff _ entries).1 (λ t i. quiet_of t (λ n named no_fork.
            (contains_iff closed n).1 ((IsClosed-iff ledger n).1 (h t n i named no_fork))))))),
)
  where
    closed : List ℕ
    closed = closed_sub_issues ledger.sub_issues

    entries : List FrontierTicket
    entries = ledger.chart.open_frontier.entries

    closed_of :
        (t : FrontierTicket) (n : ℕ)
        → t.issue ≡ some n
        → t.founder_decision_fork ≡ false
        → is_answerable closed t ≡ false
        → contains closed n ≡ true
    closed_of t n named no_fork h = ground arith

    quiet_of :
        (t : FrontierTicket)
        → ((n : ℕ) → t.issue ≡ some n → t.founder_decision_fork ≡ false → contains closed n ≡ true)
        → is_answerable closed t ≡ false
    quiet_of t h = elim (Option-cases t.issue) [
      | inl unnamed ↦ ground arith
      | inr (n, named) ↦ elim (Bool-cases t.founder_decision_fork) [
        | inl fork ↦ ground arith
        | inr no_fork ↦ let c = h n named no_fork in ground arith
      ]
    ]

-- A map is well-formed, told without the code that validates it.
pub record IsWellFormed (ledger : MapLedger) : Type 0 where
  pub has_destination : ledger.chart.destination.present ≡ true
  pub has_text : ledger.chart.destination.text ≢ ""
  pub has_decisions : ledger.chart.decisions_so_far.present ≡ true
  pub has_frontier : ledger.chart.open_frontier.present ≡ true
  pub has_fog : ledger.chart.graduated_fog.present ≡ true
  pub decisions_named :
      (d : Decision) → In d ledger.chart.decisions_so_far.entries → d.from_issue ≢ none
  pub tickets_named :
      (t : FrontierTicket) → In t ledger.chart.open_frontier.entries → t.issue ≢ none
  pub fog_named : (e : FogEntry) → In e ledger.chart.graduated_fog.entries → e.issue ≢ none
  pub tickets_known :
      (t : FrontierTicket) (n : ℕ)
      → In t ledger.chart.open_frontier.entries
      → t.issue ≡ some n
      → ledger.sub_issues ≢ []
      → IsKnown ledger n
  pub tickets_open :
      (t : FrontierTicket) (n : ℕ)
      → In t ledger.chart.open_frontier.entries
      → t.issue ≡ some n
      → ¬ IsClosed ledger n

findings-eq-nil_iff : (l : MapLedger) → (findings l ≡ []) ↔ IsWellFormed l
unfolding findings decision_defects frontier_defects fog_defects
findings-eq-nil_iff l = (
  λ h. well ((seven-eq-nil_iff _ _ _ _ _ _ _).0 h),
  λ k. (seven-eq-nil_iff _ _ _ _ _ _ _).1 (clean k),
)
  where
    known_of : (n : ℕ) → In n (map (λ (s : SubIssue). s.number) l.sub_issues) → IsKnown l n
    known_of n i =
        let (s, j, e) = (In-map (λ (s : SubIssue). s.number) n l.sub_issues).0 i in (s, j, sym e)

    well :
        ((section_defects l.number l.chart ≡ [])
          × (empty_defects l.number l.chart ≡ [])
          × (decision_defects l.number l.chart.decisions_so_far.entries ≡ [])
          × (frontier_defects l.number l.chart.open_frontier.entries ≡ [])
          × (fog_defects l.number l.chart.graduated_fog.entries ≡ [])
          × (map (dangling_defect l.number) (dangling l.sub_issues l.chart.open_frontier.entries)
              ≡ [])
          × (map (stale_defect l.number) (stale l.sub_issues l.chart.open_frontier.entries) ≡ []))
        → IsWellFormed l
    well (a, b, c, d, e, f, g) =
        let (has_destination, has_decisions, has_frontier, has_fog) =
          (sections-eq-nil_iff l.number l.chart).0 a in
        record {
          has_destination = has_destination;
          has_text = (empty-eq-nil_iff l.number l.chart has_destination).0 b;
          has_decisions = has_decisions;
          has_frontier = has_frontier;
          has_fog = has_fog;
          decisions_named = (All-iff _ _).0 ((entry_defects-eq-nil_iff _ _ 0 _).0 c);
          tickets_named = (All-iff _ _).0 ((entry_defects-eq-nil_iff _ _ 0 _).0 d);
          fog_named = (All-iff _ _).0 ((entry_defects-eq-nil_iff _ _ 0 _).0 e);
          tickets_known = λ t n i named some_. known_of n (
              (dangling-eq-nil_iff l.sub_issues l.chart.open_frontier.entries).0
                ((map-eq-nil_iff _ _).0 f) n
                ((frontier_iff l.chart.open_frontier.entries n).1 (t, i, named)) some_);
          tickets_open = λ t n i named c.
              (stale-eq-nil_iff l.sub_issues l.chart.open_frontier.entries).0
                ((map-eq-nil_iff _ _).0 g) n
                ((frontier_iff l.chart.open_frontier.entries n).1 (t, i, named))
                ((IsClosed-iff l n).1 c);
        }

    clean :
        IsWellFormed l
        → (section_defects l.number l.chart ≡ [])
          × (empty_defects l.number l.chart ≡ [])
          × (decision_defects l.number l.chart.decisions_so_far.entries ≡ [])
          × (frontier_defects l.number l.chart.open_frontier.entries ≡ [])
          × (fog_defects l.number l.chart.graduated_fog.entries ≡ [])
          × (map (dangling_defect l.number) (dangling l.sub_issues l.chart.open_frontier.entries)
              ≡ [])
          × (map (stale_defect l.number) (stale l.sub_issues l.chart.open_frontier.entries) ≡ [])
    clean k = (
      (sections-eq-nil_iff l.number l.chart).1
          (k.has_destination, k.has_decisions, k.has_frontier, k.has_fog),
      (empty-eq-nil_iff l.number l.chart k.has_destination).1 k.has_text,
      (entry_defects-eq-nil_iff _ _ 0 _).1 ((All-iff _ _).1 k.decisions_named),
      (entry_defects-eq-nil_iff _ _ 0 _).1 ((All-iff _ _).1 k.tickets_named),
      (entry_defects-eq-nil_iff _ _ 0 _).1 ((All-iff _ _).1 k.fog_named),
      (map-eq-nil_iff _ _).1 (
          (dangling-eq-nil_iff l.sub_issues l.chart.open_frontier.entries).1 (λ n i some_.
            let (t, j, named) = (frontier_iff l.chart.open_frontier.entries n).0 i in
            let (s, m, e) = k.tickets_known t n j named some_ in
            (In-map (λ (s : SubIssue). s.number) n l.sub_issues).1 (s, m, sym e))),
      (map-eq-nil_iff _ _).1 (
          (stale-eq-nil_iff l.sub_issues l.chart.open_frontier.entries).1 (λ n i c.
            let (t, j, named) = (frontier_iff l.chart.open_frontier.entries n).0 i in
            k.tickets_open t n j named ((IsClosed-iff l n).0 c))),
    )

-- A map is valid exactly when it is well-formed: its four sections are there, the destination says
-- something, each decision, ticket and fog entry names an issue, each ticket of the open frontier is a
-- known sub-issue, if any is known, and none of them is known to be closed.
pub is_valid_map_iff : (l : MapLedger) → (is_valid_map l ≡ true) ↔ IsWellFormed l
unfolding is_valid_map validate_map
is_valid_map_iff l = ground (
  arith,
  nat_beq_iff (length (sort_by defect_le (findings l))) 0,
  length-eq-zero_iff (sort_by defect_le (findings l)),
  sort_by-eq-nil_iff defect_le (findings l),
  findings-eq-nil_iff l,
)
