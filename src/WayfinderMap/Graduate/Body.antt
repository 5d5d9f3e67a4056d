-- ===== src/WayfinderMap/Graduate/Body.antt =====
-- packages/pipeline-cli/src/tools/wayfinder-map/mutate.ts: `graduateBody`, on the edits of Graduate.
use kampus_pipeline.Common.{
  ℕ, String, Bool, true, false, Option, none, some, List, [], ◌∷◌, map, leb, if◌then◌else◌, ◌==◌,
  string_eq, nat_eq, filter, join, show, length, ◌&◌, sort_by,
}
use kampus_pipeline.WayfinderMap.Text.{trim, split_lines, first_issue_ref, from_ref}
use kampus_pipeline.WayfinderMap.Markdown.{
  MapSection, destination, decisions_so_far, open_frontier, graduated_fog, SectionRange,
  section_range, ListItemRange, list_item_ranges, slice,
}
use kampus_pipeline.WayfinderMap.Graduate.{
  Refusal, malformed_input, zero_scope, Graduation, Graduated, Outcome, ok, refused, refuse,
  section_label, append_item, remove_item, Spawned, read_spawned, Span, nested, Edit, apply_edits,
}

abbrev pub missing : MapSection → Outcome Graduated
missing section =
    refuse
      ("map has no `"
        & section_label section
        & "` section; graduate edits the map's sections, it does not invent them")
      malformed_input

abbrev names_ticket : ℕ → ListItemRange → Bool
names_ticket ticket item = elim (first_issue_ref item.text) [ none ↦ false | some n ↦ n == ticket ]

-- The items of the open frontier that name the ticket.
unfoldable pub matching : ℕ → List String → List ListItemRange
unfolding list_item_ranges first_issue_ref
matching ticket frontier = filter (names_ticket ticket) (list_item_ranges frontier)

unfoldable pub decision_line : ℕ → String → String
decision_line ticket decision = "- " & decision & " — from #" & show ticket

abbrev note_of : Option String → String → String
note_of none decision = decision
note_of (some note) decision = note

unfoldable pub fog_line : Graduation → String → List ℕ → String
unfolding trim
fog_line plan decision refs =
    "- #"
    & show plan.ticket
    & " — "
    & trim (note_of plan.fog_note decision)
    & join "" (map (λ ref. " → spawned #" & show ref) refs)

-- `frontierLines.reduce(appendItem, …)`.
unfoldable pub append_items : List String → List String → List String
unfolding append_item
append_items lines [] = lines
append_items lines (line ∷ more) = append_items (append_item lines line) more

-- The edits, from the last place to the first.
unfoldable pub edits_of :
    List String
    → SectionRange
    → SectionRange
    → SectionRange
    → ListItemRange
    → String
    → String
    → List String
    → List Edit
unfolding append_item append_items remove_item
edits_of lines decisions frontier fog target decision_ fog_ spawned =
    sort_by (λ (a b : Edit). leb b.range.start a.range.start)
      (record {
        range = decisions;
        next = append_item (slice decisions.start decisions.stop lines) decision_;
      }
        ∷ record {
          range = frontier;
          next =
              append_items (remove_item (slice frontier.start frontier.stop lines) target) spawned;
        }
        ∷ record { range = fog; next = append_item (slice fog.start fog.stop lines) fog_ }
        ∷ [])

abbrev pub span_of : MapSection → Option SectionRange → List Span
span_of section none = []
span_of section (some r) = record { section = section; range = r } ∷ []

-- The body with the three edits, once nothing is left to refuse.
unfoldable pub splice_body :
    List String
    → Graduation
    → String
    → Spawned
    → SectionRange
    → SectionRange
    → SectionRange
    → ListItemRange
    → Graduated
unfolding edits_of apply_edits decision_line fog_line
splice_body lines plan decision spawned decisions frontier fog target =
    let decision_ = decision_line plan.ticket decision in
    let fog_ = fog_line plan decision spawned.refs in
    record {
      body = join "\n" (
          apply_edits lines
            (edits_of lines decisions frontier fog target decision_ fog_ spawned.lines));
      decision_line = decision_;
      fog_line = fog_;
      frontier_lines = spawned.lines;
    }

abbrev pub pick_target : List ListItemRange → ℕ → (ListItemRange → Graduated) → Outcome Graduated
pick_target [] ticket make =
    refuse ("#" & show ticket & " is not on `## Open frontier`; there is nothing to graduate")
      zero_scope
pick_target (target ∷ []) ticket make = ok (make target)
pick_target (target ∷ other ∷ more) ticket make =
    refuse
      ("`## Open frontier` names #"
        & show ticket
        & " on "
        & show (length (target ∷ other ∷ more))
        & " entries; removing one would leave the ticket both open and graduated")
      malformed_input

abbrev pub unless_refused : Option Refusal → Outcome Graduated → Outcome Graduated
unless_refused none next = next
unless_refused (some r) next = refused r

-- The check for overlapping sections, and what follows it.
unfoldable pub graduate_spans :
    List String
    → Graduation
    → String
    → Spawned
    → SectionRange
    → SectionRange
    → SectionRange
    → List Span
    → Outcome Graduated
unfolding nested matching splice_body
graduate_spans lines plan decision spawned decisions frontier fog spans =
    unless_refused (nested spans spans) (
      pick_target (matching plan.ticket (slice frontier.start frontier.stop lines)) plan.ticket
        (splice_body lines plan decision spawned decisions frontier fog))

-- The spans of the three sections, and of the destination if it is there.
abbrev pub spans_of : SectionRange → SectionRange → SectionRange → Option SectionRange → List Span
spans_of decisions frontier fog dest =
    record { section = decisions_so_far; range = decisions }
    ∷ record { section = open_frontier; range = frontier }
    ∷ record { section = graduated_fog; range = fog }
    ∷ span_of destination dest

unfoldable pub graduate_sections :
    List String
    → Graduation
    → String
    → Spawned
    → SectionRange
    → SectionRange
    → SectionRange
    → Outcome Graduated
unfolding graduate_spans
graduate_sections lines plan decision spawned decisions frontier fog =
    graduate_spans lines plan decision spawned decisions frontier fog
      (spans_of decisions frontier fog (section_range lines destination))

abbrev pub require :
    MapSection → Option SectionRange → (SectionRange → Outcome Graduated) → Outcome Graduated
require section none next = missing section
require section (some r) next = next r

unfoldable pub graduate_lines : List String → Graduation → String → Spawned → Outcome Graduated
unfolding section_range graduate_sections
graduate_lines lines plan decision spawned =
    require decisions_so_far (section_range lines decisions_so_far) (λ decisions.
      require open_frontier (section_range lines open_frontier) (λ frontier.
        require graduated_fog (section_range lines graduated_fog)
          (λ fog. graduate_sections lines plan decision spawned decisions frontier fog)))

abbrev pub with_spawned : Outcome Spawned → (Spawned → Outcome Graduated) → Outcome Graduated
with_spawned (refused r) next = refused r
with_spawned (ok s) next = next s

abbrev pub is_named : Option ℕ → Bool
is_named none = false
is_named (some n) = true

unfoldable pub graduate_body : String → Graduation → Outcome Graduated
unfolding trim from_ref read_spawned graduate_lines split_lines
graduate_body body plan =
    let decision = trim plan.decision in
    if decision == ""
    then refuse "empty --decision: a graduation must record what was decided or found"
        malformed_input
    else if is_named (from_ref false decision)
    then refuse
        ("--decision already carries a \"from #N\" attribution; graduate composes \"— from #"
          & show plan.ticket
          & "\" itself")
        malformed_input
    else with_spawned (read_spawned plan.ticket plan.spawned)
        (graduate_lines (split_lines body) plan decision)
