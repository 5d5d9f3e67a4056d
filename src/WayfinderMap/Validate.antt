-- ===== src/WayfinderMap/Validate.antt =====
-- packages/pipeline-cli/src/tools/wayfinder-map/validate.ts: the floor that a map is held to.
pub mod Silent
pub mod Token
pub mod Valid
use kampus_pipeline.Common.{
  ℕ, ◌+◌, suc, String, Bool, true, false, ◌&&◌, not, Option, none, some, List, [], ◌∷◌, ◌++◌, map,
  ltb, if◌then◌else◌, ◌==◌, nat_eq, string_eq, filter, contains, distinct, sort, sort_by, join,
  show, length, ◌&◌, nat_beq, leb,
}
use kampus_pipeline.WayfinderMap.{
  Decision, FrontierTicket, FogEntry, Map, SubIssueState, is_open, is_closed, SubIssue, MapLedger,
  DefectType, Defect, defect_type_rank, defect_type_name, missing_destination,
  missing_decisions_section, missing_frontier_section, missing_fog_section, empty_destination,
  malformed_decision_entry, malformed_frontier_entry, malformed_fog_entry, dangling_frontier_ref,
  closed_frontier_ticket,
}

-- `s.state === "closed"`.
abbrev pub is_closed_state : Option SubIssueState → Bool
is_closed_state none = false
is_closed_state (some is_open) = false
is_closed_state (some is_closed) = true

pub closed_sub_issues : List SubIssue → List ℕ
closed_sub_issues sub_issues = distinct (
    map (λ (s : SubIssue). s.number)
      (filter (λ (s : SubIssue). is_closed_state s.state) sub_issues))

-- The test of `answerableFrontier`.
abbrev pub is_answerable : List ℕ → FrontierTicket → Bool
is_answerable closed t =
    not t.founder_decision_fork && elim t.issue [ none ↦ false | some n ↦ not (contains closed n) ]

pub answerable_frontier : MapLedger → List FrontierTicket
answerable_frontier ledger =
    let closed = closed_sub_issues ledger.sub_issues in
    filter (is_answerable closed) ledger.chart.open_frontier.entries

pub is_graduation_ready : MapLedger → Bool
is_graduation_ready ledger = nat_beq (length (answerable_frontier ledger)) 0

abbrev defect : DefectType → ℕ → String → Defect
defect kind ref message = record { kind = kind; message = message; refs = ref ∷ [] }

-- The list with one defect, if the test fails.
abbrev pub unless : Bool → Defect → List Defect
unless b d = if b then [] else d ∷ []

pub section_defects : ℕ → Map → List Defect
section_defects number chart =
    unless chart.destination.present (
      defect missing_destination number (
        "Map #"
        & show number
        & " has no `## Destination` section; a map must name the end-state it charts toward."))
    ++ unless chart.decisions_so_far.present (
        defect missing_decisions_section number
          ("Map #" & show number & " has no `## Decisions-so-far` section."))
    ++ unless chart.open_frontier.present (
        defect missing_frontier_section number
          ("Map #" & show number & " has no `## Open frontier` section."))
    ++ unless chart.graduated_fog.present (
        defect missing_fog_section number
          ("Map #" & show number & " has no `## Graduated fog` section."))

pub empty_defects : ℕ → Map → List Defect
empty_defects number chart =
    unless (not (chart.destination.present && chart.destination.text == "")) (
      defect empty_destination number (
        "Map #"
        & show number
        & "'s `## Destination` section is empty; it must name the end-state concretely enough to tell \"arrived\" from \"not yet\"."))

-- The defects of the entries without an issue, at their places from `i`.
pub entry_defects : {A : Type 0} → (A → Option ℕ) → (ℕ → A → Defect) → ℕ → List A → List Defect
entry_defects issue report i [] = []
entry_defects issue report i (x ∷ xs) =
    let rest = entry_defects issue report (suc i) xs in
    elim (issue x) [ none ↦ report i x ∷ rest | some n ↦ rest ]

abbrev entry_text : ℕ → String → ℕ → String → String → String
entry_text number section i fault text =
    "Map #"
    & show number
    & " `## "
    & section
    & "` entry "
    & show (i + 1)
    & fault
    & ": \""
    & text
    & "\"."

pub decision_defects : ℕ → List Decision → List Defect
decision_defects number =
    entry_defects (λ d. d.from_issue)
      (λ i d.
        defect malformed_decision_entry number
          (entry_text number "Decisions-so-far" i " has no `— from #N` origin" d.text))
      0

pub frontier_defects : ℕ → List FrontierTicket → List Defect
frontier_defects number =
    entry_defects (λ t. t.issue)
      (λ i t.
        defect malformed_frontier_entry number
          (entry_text number "Open frontier" i " references no sub-issue `#N`" t.question))
      0

pub fog_defects : ℕ → List FogEntry → List Defect
fog_defects number =
    entry_defects (λ e. e.issue)
      (λ i e.
        defect malformed_fog_entry number
          (entry_text number "Graduated fog" i " references no issue `#N`" e.note))
      0

-- The values that are there.
unfoldable pub defined : List (Option ℕ) → List ℕ
defined [] = []
defined (none ∷ os) = defined os
defined (some n ∷ os) = n ∷ defined os

-- The issues that the open frontier names.
pub frontier_issues : List FrontierTicket → List ℕ
frontier_issues ts = defined (map (λ (t : FrontierTicket). t.issue) ts)

-- The numbers that name no sub-issue; none, if no sub-issue is known.
pub dangling : List SubIssue → List FrontierTicket → List ℕ
dangling [] ts = []
dangling (s ∷ ss) ts =
    let known = map (λ (x : SubIssue). x.number) (s ∷ ss) in
    distinct (sort (filter (λ n. not (contains known n)) (frontier_issues ts)))

-- The numbers of sub-issues that are closed.
pub stale : List SubIssue → List FrontierTicket → List ℕ
stale sub_issues ts =
    sort (distinct (filter (λ n. contains (closed_sub_issues sub_issues) n) (frontier_issues ts)))

abbrev pub dangling_defect : ℕ → ℕ → Defect
dangling_defect number n = defect dangling_frontier_ref n (
    "Map #"
    & show number
    & " `## Open frontier` references #"
    & show n
    & ", which is not a real sub-issue of the map.")

abbrev pub stale_defect : ℕ → ℕ → Defect
stale_defect number n = defect closed_frontier_ticket n (
    "Map #"
    & show number
    & " `## Open frontier` lists #"
    & show n
    & ", which is closed; a ticket leaves the frontier only by its answer landing in `## Decisions-so-far` and the ticket moving to `## Graduated fog`.")

-- `refs[0] ?? 0`.
abbrev first_ref : List ℕ → ℕ
first_ref [] = 0
first_ref (n ∷ ns) = n

-- The comparison of the final sort: by rank, then by the first ref.
pub defect_le : Defect → Defect → Bool
defect_le a b =
    if ltb (defect_type_rank a.kind) (defect_type_rank b.kind)
    then true
    else if ltb (defect_type_rank b.kind) (defect_type_rank a.kind)
    then false
    else leb (first_ref a.refs) (first_ref b.refs)

-- The findings, before the final sort.
pub findings : MapLedger → List Defect
findings ledger =
    section_defects ledger.number ledger.chart
    ++ empty_defects ledger.number ledger.chart
    ++ decision_defects ledger.number ledger.chart.decisions_so_far.entries
    ++ frontier_defects ledger.number ledger.chart.open_frontier.entries
    ++ fog_defects ledger.number ledger.chart.graduated_fog.entries
    ++ map (dangling_defect ledger.number)
        (dangling ledger.sub_issues ledger.chart.open_frontier.entries)
    ++ map (stale_defect ledger.number) (stale ledger.sub_issues ledger.chart.open_frontier.entries)

pub validate_map : MapLedger → List Defect
validate_map ledger = sort_by defect_le (findings ledger)

pub is_valid_map : MapLedger → Bool
is_valid_map ledger = nat_beq (length (validate_map ledger)) 0

pub signature_token : DefectType → List ℕ → String
signature_token kind refs = defect_type_name kind & ":" & join "." (map show (sort refs))

-- `"clean"`, or the tokens of the defects in their order.
pub signature_of : List Defect → String
signature_of [] = "clean"
signature_of (d ∷ ds) = join "|" (map (λ (x : Defect). signature_token x.kind x.refs) (d ∷ ds))

pub map_signature : MapLedger → String
map_signature ledger = signature_of (validate_map ledger)
