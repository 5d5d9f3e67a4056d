-- ===== src/WayfinderMap/Check.antt =====
-- packages/pipeline-cli/src/tools/wayfinder-map/mutate.ts: what is checked of a graduation before it is
-- written.
pub mod Lockstep
use kampus_pipeline.Common.{
  ℕ, zero, suc, ◌+◌, String, Bool, true, false, ◌&&◌, ◌||◌, not, Option, none, some, List, [], ◌∷◌,
  map, ltb, nat_beq, if◌then◌else◌, ◌==◌, string_eq, nat_eq, filter, any, contains, sort, join,
  show, length, ◌&◌,
}
use kampus_pipeline.WayfinderMap.{
  Decision, FrontierTicket, FogEntry, MapLedger, DefectType, Defect, defect_type_name,
}
use kampus_pipeline.WayfinderMap.Text.{split_lines}
use kampus_pipeline.WayfinderMap.Markdown.{SectionRange, section_range, destination, slice}
use kampus_pipeline.WayfinderMap.Validate.{validate_map, signature_token}
use kampus_pipeline.WayfinderMap.Graduate.{Refusal, failed, malformed_input, held_by_other}

-- `defectToken` of each defect.
abbrev pub tokens : List Defect → List String
tokens ds = map (λ (d : Defect). signature_token d.kind d.refs) ds

pub introduced_defects : MapLedger → MapLedger → List String
introduced_defects before after =
    let had = tokens (validate_map before) in
    filter (λ token. not (contains had token)) (tokens (validate_map after))

abbrev lines_of : List String → Option SectionRange → List String
lines_of lines none = []
lines_of lines (some r) = slice r.heading r.stop lines

unfoldable pub destination_lines : String → List String
destination_lines body =
    let lines = split_lines body in lines_of lines (section_range lines destination)

-- A body, and the ledger that it is parsed to.
pub record Snapshot : Type 0 where
  pub body : String
  pub ledger : MapLedger

abbrev refusal : String → ℕ → Option Refusal
refusal message exit_code = some (record { message = message; exit_code = exit_code })

-- The place of the first entry, from place `i` on, that is not there any more with its text.
unfoldable pub rewritten : ℕ → List Decision → List Decision → Option ℕ
rewritten i [] now = none
rewritten i (entry ∷ had) [] = some i
rewritten i (entry ∷ had) (x ∷ now) =
    let rest = rewritten (suc i) had now in if x.text == entry.text then rest else some i

-- `t.issue === ticket`.
abbrev pub is_ticket : ℕ → Option ℕ → Bool
is_ticket ticket none = false
is_ticket ticket (some n) = n == ticket

pub check_defects : List String → Option Refusal
check_defects [] = none
check_defects (t ∷ ts) =
    refusal
      ("the mutation would introduce "
        & show (length (t ∷ ts))
        & " defect(s) the map did not have: "
        & join ", " (t ∷ ts))
      malformed_input

-- The checks of the frontier, the fog and the defects.
pub check_moved : Snapshot → Snapshot → ℕ → Option Refusal
check_moved before after ticket =
    if any (λ (t : FrontierTicket). is_ticket ticket t.issue)
      after.ledger.chart.open_frontier.entries
    then refusal ("#" & show ticket & " is still on `## Open frontier` after the mutation") failed
    else if not
        (any (λ (e : FogEntry). is_ticket ticket e.issue) after.ledger.chart.graduated_fog.entries)
    then refusal ("#" & show ticket & " did not land in `## Graduated fog`") failed
    else check_defects (introduced_defects before.ledger after.ledger)

abbrev pub check_rewritten : Option ℕ → Option Refusal → Option Refusal
check_rewritten none next = next
check_rewritten (some i) next =
    refusal
      ("`## Decisions-so-far` entry "
        & show (i + 1)
        & " was rewritten; the answer log is append-only")
      failed

pub check_graduation : Snapshot → Snapshot → ℕ → Option Refusal
check_graduation before after ticket =
    let had = before.ledger.chart.decisions_so_far.entries in
    let now = after.ledger.chart.decisions_so_far.entries in
    if not (join "\n" (destination_lines after.body) == join "\n" (destination_lines before.body))
    then refusal "the mutation changed `## Destination`, which only CHART mode may set" failed
    else if not (nat_beq (length now) (length had + 1))
    then refusal
        ("`## Decisions-so-far` went from "
          & show (length had)
          & " to "
          & show (length now)
          & " entries; a graduation appends exactly one")
        failed
    else check_rewritten (rewritten 0 had now) (check_moved before after ticket)

pub body_precondition : String → String → Option Refusal
body_precondition expected current =
    if expected == current
    then none
    else refusal
        "the map body changed between read and write — another session is editing it; refusing to overwrite. Re-read and retry"
        held_by_other
