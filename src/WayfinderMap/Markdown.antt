-- ===== src/WayfinderMap/Markdown.antt =====
-- packages/pipeline-cli/src/tools/wayfinder-map/markdown.ts: the sections of a map's body, their list
-- items, and the map that they are parsed to. `is_unknown_fork` stands for the pattern of an
-- unrecognized fork annotation, which reads Unicode letters.
pub mod Bounds
use kampus_pipeline.Common.{
  ℕ, zero, suc, ◌-◌, String, Bool, true, false, ◌&&◌, ◌||◌, not, Option, none, some, List, [], ◌∷◌,
  ◌++◌, map, leb, if◌then◌else◌, ◌==◌, string_eq, nat_eq, filter, find, contains, distinct, sort,
  head?, join,
}
use kampus_pipeline.WayfinderMap.{
  Decision, FrontierTicket, FogEntry, DestinationSection, ListSection, Map,
}
use kampus_pipeline.WayfinderMap.Text.{
  trim, split_lines, heading_level, any_heading, destination_heading, decisions_heading,
  frontier_heading, fog_heading, list_item, issue_refs, first_issue_ref, from_ref, spawned_refs,
  has_fork_marker,
}

pub data MapSection : Type 0 where
  destination decisions_so_far open_frontier graduated_fog : MapSection

-- `SECTION_HEADING`.
unfoldable pub section_heading : MapSection → String → Bool
section_heading destination = destination_heading
section_heading decisions_so_far = decisions_heading
section_heading open_frontier = frontier_heading
section_heading graduated_fog = fog_heading

-- `stop` is the field `end`.
pub record SectionRange : Type 0 where
  pub heading : ℕ
  pub start : ℕ
  pub stop : ℕ

-- The place of the next heading of the level or above it among the lines from place `i` on, or the end.
unfoldable pub section_end : ℕ → ℕ → List String → ℕ
section_end level i [] = i
section_end level i (line ∷ lines) =
    let rest = section_end level (suc i) lines in
    if any_heading line && leb (heading_level line) level then i else rest

-- The first section whose heading passes the test, among the lines from place `i` on.
unfoldable pub range_from : (String → Bool) → ℕ → List String → Option SectionRange
unfolding section_end
range_from test i [] = none
range_from test i (line ∷ lines) =
    let rest = range_from test (suc i) lines in
    if test line
    then some (record {
      heading = i;
      start = suc i;
      stop = section_end (heading_level line) (suc i) lines;
    })
    else rest

unfoldable pub section_range : List String → MapSection → Option SectionRange
unfolding range_from section_heading
section_range lines section = range_from (section_heading section) 0 lines

-- `lines.slice(i, j)`.
unfoldable pub drop : {A : Type 0} → ℕ → List A → List A
drop zero xs = xs
drop (suc n) [] = []
drop (suc n) (x ∷ xs) = drop n xs

unfoldable pub take : {A : Type 0} → ℕ → List A → List A
take zero xs = []
take (suc n) [] = []
take (suc n) (x ∷ xs) = x ∷ take n xs

abbrev pub slice : {A : Type 0} → ℕ → ℕ → List A → List A
slice i j xs = take (j - i) (drop i xs)

pub record Section : Type 0 where
  pub present : Bool
  pub lines : List String

abbrev section_of : List String → Option SectionRange → Section
section_of lines none = record { present = false; lines = [] }
section_of lines (some r) = record { present = true; lines = slice r.start r.stop lines }

unfoldable pub slice_section : String → MapSection → Section
unfolding section_range
slice_section body section =
    let lines = split_lines body in section_of lines (section_range lines section)

pub record ListItemRange : Type 0 where
  pub text : String
  pub start : ℕ
  pub stop : ℕ

-- The item that is being read.
pub record OpenItem : Type 0 where
  pub parts : List String
  pub start : ℕ
  pub stop : ℕ

-- The function `flush`, on the items that follow.
unfoldable pub flush : Option OpenItem → List ListItemRange → List ListItemRange
flush none items = items
flush (some o) items =
    record { text = trim (join " " o.parts); start = o.start; stop = o.stop } ∷ items

-- A line that is no bullet and not blank, at place `i`.
unfoldable pub continue_item : ℕ → String → Option OpenItem → Option OpenItem
continue_item i line none = none
continue_item i line (some o) =
    some (record { parts = o.parts ++ trim line ∷ []; start = o.start; stop = suc i })

-- The line begins an item or is blank, so that the item before it is complete.
unfoldable pub ends_item : String → Bool
ends_item line = elim (list_item line) [ none ↦ trim line == "" | some t ↦ true ]

-- The item that is open after the line at place `i`.
unfoldable pub next_item : ℕ → String → Option OpenItem → Option OpenItem
unfolding continue_item
next_item i line current = elim (list_item line) [
  | none ↦ if trim line == "" then none else continue_item i line current
  | some t ↦ some (record { parts = trim t ∷ []; start = i; stop = suc i })
]

-- The items of the lines from place `i` on.
unfoldable pub items_from : ℕ → Option OpenItem → List String → List ListItemRange
items_from i current [] = flush current []
items_from i current (line ∷ lines) =
    let rest = items_from (suc i) (next_item i line current) lines in
    if ends_item line then flush current rest else rest

unfoldable pub list_item_ranges : List String → List ListItemRange
unfolding items_from
list_item_ranges lines = items_from 0 none lines

abbrev list_items : Section → List String
list_items section = map (λ (i : ListItemRange). i.text) (list_item_ranges section.lines)

unfoldable pub parse_destination : String → DestinationSection
unfolding slice_section
parse_destination body =
    let section = slice_section body destination in
    record {
      present = section.present;
      text = trim (join " " (filter (λ l. not (l == "")) (map trim section.lines)));
    }

unfoldable pub parse_decisions : String → ListSection Decision
unfolding slice_section list_item_ranges
parse_decisions body =
    let section = slice_section body decisions_so_far in
    record {
      present = section.present;
      entries = map (λ t. record { text = t; from_issue = from_ref false t }) (list_items section);
    }

unfoldable pub parse_frontier : (String → Bool) → String → ListSection FrontierTicket
unfolding slice_section list_item_ranges has_fork_marker
parse_frontier is_unknown_fork body =
    let section = slice_section body open_frontier in
    record {
      present = section.present;
      entries =
          map
            (λ q. record {
              issue = first_issue_ref q;
              question = q;
              founder_decision_fork = has_fork_marker q || is_unknown_fork q;
            })
            (list_items section);
    }

abbrev or_first : Option ℕ → Option ℕ → Option ℕ
or_first none o = o
or_first (some n) o = some n

unfoldable pub collect_spawned : String → List ℕ
unfolding spawned_refs
collect_spawned text = sort (distinct (spawned_refs text))

unfoldable pub parse_fog_entry : String → FogEntry
unfolding collect_spawned
parse_fog_entry note =
    let spawned = collect_spawned note in
    let refs = issue_refs note in
    record {
      issue = or_first (find (λ n. not (contains spawned n)) refs) (head? refs);
      note = note;
      spawned = sort spawned;
    }

unfoldable pub parse_fog : String → ListSection FogEntry
unfolding slice_section list_item_ranges parse_fog_entry
parse_fog body =
    let section = slice_section body graduated_fog in
    record { present = section.present; entries = map parse_fog_entry (list_items section) }

unfoldable pub parse_map_body : (String → Bool) → String → Map
unfolding parse_destination parse_decisions parse_frontier parse_fog
parse_map_body is_unknown_fork body = record {
  destination = parse_destination body;
  decisions_so_far = parse_decisions body;
  open_frontier = parse_frontier is_unknown_fork body;
  graduated_fog = parse_fog body;
}
