-- ===== src/WayfinderMap/Tests.antt =====
-- A map with one open ticket and one decision for a person, and the map after its graduation.
use kampus_pipeline.Common.{
  List, ℕ, String, true, false, none, some, [], ◌∷◌, ◌≡◌, refl, ◌↔◌, In, length, sort_by, insert_by,
  join, units, show, filter, last?,
}
use kampus_pipeline.EpicLock.{skip, literal}
use kampus_pipeline.WayfinderMap.{
  Decision, FrontierTicket, FogEntry, Map, MapLedger, SubIssue, is_open, is_closed,
}
use kampus_pipeline.WayfinderMap.Text.{split_lines}
use kampus_pipeline.WayfinderMap.Markdown.{
  SectionRange, section_range, destination, slice, parse_map_body, list_item_ranges,
}
use kampus_pipeline.WayfinderMap.Markdown.Bounds.{Spans, list_item_ranges-Spans}
use kampus_pipeline.WayfinderMap.Graduate.{Graduation, Graduated, ok}
use kampus_pipeline.WayfinderMap.Graduate.Body.{graduate_body}
use kampus_pipeline.WayfinderMap.Graduate.Splice.{Runs}
use kampus_pipeline.WayfinderMap.Graduate.Kept.{graduate_body-Runs}
use kampus_pipeline.WayfinderMap.Validate.{is_valid_map, is_graduation_ready}
use kampus_pipeline.WayfinderMap.Validate.Silent.{IsClosed}
use kampus_pipeline.WayfinderMap.Validate.Valid.{
  IsWellFormed, is_valid_map_iff, is_graduation_ready_iff,
}
use kampus_pipeline.WayfinderMap.Check.{Snapshot, check_graduation}
use kampus_pipeline.WayfinderMap.Check.Lockstep.{IsLockstep, check_graduation-eq-none_iff}

abbrev before_body : String
before_body =
    "## Destination\nSomewhere\n## Decisions so far\n## Open frontier\n- #7 how?\n## Graduated fog\n"

abbrev after_body : String
after_body =
    "## Destination\nSomewhere\n## Decisions so far\n- so — from #7\n## Open frontier\n## Graduated fog\n- #7 — so\n"

abbrev ledger : String → MapLedger
ledger body = record {
  number = 1;
  chart = parse_map_body (λ t. false) body;
  sub_issues = record { number = 7; state = some is_open } ∷ [];
}

abbrev plan : Graduation
plan = record { ticket = 7; decision = " so"; fog_note = none; spawned = [] }

is_valid_map_iff_example :
    (is_valid_map (ledger before_body) ≡ true) ↔ IsWellFormed (ledger before_body)
is_valid_map_iff_example = is_valid_map_iff (ledger before_body)

is_graduation_ready_iff_example : (is_graduation_ready (ledger before_body) ≡ true) ↔ (
    (t : FrontierTicket) (n : ℕ)
    → In t (ledger before_body).chart.open_frontier.entries
    → t.issue ≡ some n
    → t.founder_decision_fork ≡ false
    → IsClosed (ledger before_body) n)
is_graduation_ready_iff_example = is_graduation_ready_iff (ledger before_body)

abbrev snapshot : String → Snapshot
snapshot body = record { body = body; ledger = ledger body }

check_graduation-eq-none_iff_example :
    (check_graduation (snapshot before_body) (snapshot after_body) 7 ≡ none)
    ↔ IsLockstep (snapshot before_body) (snapshot after_body) 7
check_graduation-eq-none_iff_example =
    check_graduation-eq-none_iff (snapshot before_body) (snapshot after_body) 7

list_item_ranges-Spans_example :
    Spans 0 (length (split_lines after_body)) (list_item_ranges (split_lines after_body))
list_item_ranges-Spans_example = list_item_ranges-Spans (split_lines after_body)

abbrev result : Graduated
result = record {
  body = after_body;
  decision_line = "- so — from #7";
  fog_line = "- #7 — so";
  frontier_lines = [];
}

abbrev dest : SectionRange
dest = record { heading = 0; start = 1; stop = 2 }

located : section_range (split_lines before_body) destination ≡ some dest
unfolding kampus_pipeline.WayfinderMap.Text.starts_with kampus_pipeline.WayfinderMap.Text.trim_end
    kampus_pipeline.WayfinderMap.Text.trim kampus_pipeline.WayfinderMap.Text.split_lines
    kampus_pipeline.WayfinderMap.Text.count_hashes kampus_pipeline.WayfinderMap.Text.heading_text
    kampus_pipeline.WayfinderMap.Text.heading_level kampus_pipeline.WayfinderMap.Text.any_heading
    kampus_pipeline.WayfinderMap.Text.gap kampus_pipeline.WayfinderMap.Text.ends_word
    kampus_pipeline.WayfinderMap.Text.optional_s
    kampus_pipeline.WayfinderMap.Text.destination_heading
    kampus_pipeline.WayfinderMap.Text.decisions_heading
    kampus_pipeline.WayfinderMap.Text.frontier_heading kampus_pipeline.WayfinderMap.Text.fog_heading
    kampus_pipeline.WayfinderMap.Text.has_terminator kampus_pipeline.WayfinderMap.Text.after_bullet
    kampus_pipeline.WayfinderMap.Text.list_item kampus_pipeline.WayfinderMap.Text.read_number
    kampus_pipeline.WayfinderMap.Text.issue_refs kampus_pipeline.WayfinderMap.Text.first_issue_ref
    kampus_pipeline.WayfinderMap.Text.ref_after kampus_pipeline.WayfinderMap.Text.from_ref
    kampus_pipeline.WayfinderMap.Text.spawned_refs kampus_pipeline.WayfinderMap.Text.gap_char
    kampus_pipeline.WayfinderMap.Text.has_fork_marker
    kampus_pipeline.WayfinderMap.Markdown.section_heading
    kampus_pipeline.WayfinderMap.Markdown.section_end
    kampus_pipeline.WayfinderMap.Markdown.range_from
    kampus_pipeline.WayfinderMap.Markdown.section_range kampus_pipeline.WayfinderMap.Markdown.drop
    kampus_pipeline.WayfinderMap.Markdown.take kampus_pipeline.WayfinderMap.Markdown.slice_section
    kampus_pipeline.WayfinderMap.Markdown.flush kampus_pipeline.WayfinderMap.Markdown.continue_item
    kampus_pipeline.WayfinderMap.Markdown.ends_item kampus_pipeline.WayfinderMap.Markdown.next_item
    kampus_pipeline.WayfinderMap.Markdown.items_from
    kampus_pipeline.WayfinderMap.Markdown.list_item_ranges
    kampus_pipeline.WayfinderMap.Markdown.parse_destination
    kampus_pipeline.WayfinderMap.Markdown.parse_decisions
    kampus_pipeline.WayfinderMap.Markdown.parse_frontier
    kampus_pipeline.WayfinderMap.Markdown.collect_spawned
    kampus_pipeline.WayfinderMap.Markdown.parse_fog_entry
    kampus_pipeline.WayfinderMap.Markdown.parse_fog
    kampus_pipeline.WayfinderMap.Markdown.parse_map_body
    kampus_pipeline.WayfinderMap.Graduate.insert_at
    kampus_pipeline.WayfinderMap.Graduate.after_last_text
    kampus_pipeline.WayfinderMap.Graduate.append_item
    kampus_pipeline.WayfinderMap.Graduate.remove_item kampus_pipeline.WayfinderMap.Graduate.overlaps
    kampus_pipeline.WayfinderMap.Graduate.read_spawned
    kampus_pipeline.WayfinderMap.Graduate.nested_with kampus_pipeline.WayfinderMap.Graduate.nested
    kampus_pipeline.WayfinderMap.Graduate.apply_edit
    kampus_pipeline.WayfinderMap.Graduate.apply_edits
    kampus_pipeline.WayfinderMap.Graduate.Body.matching
    kampus_pipeline.WayfinderMap.Graduate.Body.decision_line
    kampus_pipeline.WayfinderMap.Graduate.Body.fog_line
    kampus_pipeline.WayfinderMap.Graduate.Body.append_items
    kampus_pipeline.WayfinderMap.Graduate.Body.edits_of
    kampus_pipeline.WayfinderMap.Graduate.Body.splice_body
    kampus_pipeline.WayfinderMap.Graduate.Body.graduate_sections
    kampus_pipeline.WayfinderMap.Graduate.Body.graduate_lines
    kampus_pipeline.WayfinderMap.Graduate.Body.graduate_body sort_by insert_by show join units
    filter last? skip literal
located = refl

graduates : graduate_body before_body plan ≡ ok result
unfolding kampus_pipeline.WayfinderMap.Text.starts_with kampus_pipeline.WayfinderMap.Text.trim_end
    kampus_pipeline.WayfinderMap.Text.trim kampus_pipeline.WayfinderMap.Text.split_lines
    kampus_pipeline.WayfinderMap.Text.count_hashes kampus_pipeline.WayfinderMap.Text.heading_text
    kampus_pipeline.WayfinderMap.Text.heading_level kampus_pipeline.WayfinderMap.Text.any_heading
    kampus_pipeline.WayfinderMap.Text.gap kampus_pipeline.WayfinderMap.Text.ends_word
    kampus_pipeline.WayfinderMap.Text.optional_s
    kampus_pipeline.WayfinderMap.Text.destination_heading
    kampus_pipeline.WayfinderMap.Text.decisions_heading
    kampus_pipeline.WayfinderMap.Text.frontier_heading kampus_pipeline.WayfinderMap.Text.fog_heading
    kampus_pipeline.WayfinderMap.Text.has_terminator kampus_pipeline.WayfinderMap.Text.after_bullet
    kampus_pipeline.WayfinderMap.Text.list_item kampus_pipeline.WayfinderMap.Text.read_number
    kampus_pipeline.WayfinderMap.Text.issue_refs kampus_pipeline.WayfinderMap.Text.first_issue_ref
    kampus_pipeline.WayfinderMap.Text.ref_after kampus_pipeline.WayfinderMap.Text.from_ref
    kampus_pipeline.WayfinderMap.Text.spawned_refs kampus_pipeline.WayfinderMap.Text.gap_char
    kampus_pipeline.WayfinderMap.Text.has_fork_marker
    kampus_pipeline.WayfinderMap.Markdown.section_heading
    kampus_pipeline.WayfinderMap.Markdown.section_end
    kampus_pipeline.WayfinderMap.Markdown.range_from
    kampus_pipeline.WayfinderMap.Markdown.section_range kampus_pipeline.WayfinderMap.Markdown.drop
    kampus_pipeline.WayfinderMap.Markdown.take kampus_pipeline.WayfinderMap.Markdown.slice_section
    kampus_pipeline.WayfinderMap.Markdown.flush kampus_pipeline.WayfinderMap.Markdown.continue_item
    kampus_pipeline.WayfinderMap.Markdown.ends_item kampus_pipeline.WayfinderMap.Markdown.next_item
    kampus_pipeline.WayfinderMap.Markdown.items_from
    kampus_pipeline.WayfinderMap.Markdown.list_item_ranges
    kampus_pipeline.WayfinderMap.Markdown.parse_destination
    kampus_pipeline.WayfinderMap.Markdown.parse_decisions
    kampus_pipeline.WayfinderMap.Markdown.parse_frontier
    kampus_pipeline.WayfinderMap.Markdown.collect_spawned
    kampus_pipeline.WayfinderMap.Markdown.parse_fog_entry
    kampus_pipeline.WayfinderMap.Markdown.parse_fog
    kampus_pipeline.WayfinderMap.Markdown.parse_map_body
    kampus_pipeline.WayfinderMap.Graduate.insert_at
    kampus_pipeline.WayfinderMap.Graduate.after_last_text
    kampus_pipeline.WayfinderMap.Graduate.append_item
    kampus_pipeline.WayfinderMap.Graduate.remove_item kampus_pipeline.WayfinderMap.Graduate.overlaps
    kampus_pipeline.WayfinderMap.Graduate.read_spawned
    kampus_pipeline.WayfinderMap.Graduate.nested_with kampus_pipeline.WayfinderMap.Graduate.nested
    kampus_pipeline.WayfinderMap.Graduate.apply_edit
    kampus_pipeline.WayfinderMap.Graduate.apply_edits
    kampus_pipeline.WayfinderMap.Graduate.Body.matching
    kampus_pipeline.WayfinderMap.Graduate.Body.decision_line
    kampus_pipeline.WayfinderMap.Graduate.Body.fog_line
    kampus_pipeline.WayfinderMap.Graduate.Body.append_items
    kampus_pipeline.WayfinderMap.Graduate.Body.edits_of
    kampus_pipeline.WayfinderMap.Graduate.Body.splice_body
    kampus_pipeline.WayfinderMap.Graduate.Body.graduate_sections
    kampus_pipeline.WayfinderMap.Graduate.Body.graduate_lines
    kampus_pipeline.WayfinderMap.Graduate.Body.graduate_body sort_by insert_by show join units
    filter last? skip literal
graduates = refl

graduate_body-Runs_example :
    (out : List String) × (after_body ≡ join "\n" out)
    × Runs (slice 0 2 (split_lines before_body)) out
graduate_body-Runs_example = graduate_body-Runs before_body plan result dest graduates located
