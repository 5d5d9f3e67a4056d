-- ===== src/WayfinderMap/Graduate.antt =====
-- packages/pipeline-cli/src/tools/wayfinder-map/mutate.ts: one graduation, as three edits of the map's
-- body or a refusal.
pub mod Splice
pub mod Order
pub mod Body
pub mod Kept
use kampus_pipeline.Common.{
  ℕ, zero, suc, ◌+◌, ◌-◌, String, Bool, true, false, ◌&&◌, ◌||◌, not, Option, none, some, List, [],
  ◌∷◌, ◌++◌, map, ltb, leb, nat_beq, if◌then◌else◌, ◌==◌, string_eq, nat_eq, filter, last?, join,
  show, length, ◌&◌, sort_by,
}
use kampus_pipeline.WayfinderMap.Text.{trim, split_lines, after_bullet, first_issue_ref, from_ref}
use kampus_pipeline.WayfinderMap.Markdown.{
  MapSection, destination, decisions_so_far, open_frontier, graduated_fog, SectionRange,
  section_range, ListItemRange, list_item_ranges, take, drop, slice,
}

-- The codes of `exit-codes.ts` that a mutation ends with.
abbrev pub failed : ℕ
failed = 1

abbrev pub malformed_input : ℕ
malformed_input = 4

abbrev pub held_by_other : ℕ
held_by_other = 6

abbrev pub zero_scope : ℕ
zero_scope = 7

pub record Refusal : Type 0 where
  pub message : String
  pub exit_code : ℕ

pub record Graduation : Type 0 where
  pub ticket : ℕ
  pub decision : String
  pub fog_note : Option String
  pub spawned : List String

pub record Graduated : Type 0 where
  pub body : String
  pub decision_line : String
  pub fog_line : String
  pub frontier_lines : List String

pub data Outcome (A : Type 0) : Type 0 where
  ok : A → Outcome A
  refused : Refusal → Outcome A

abbrev pub refuse : {A : Type 0} → String → ℕ → Outcome A
refuse message exit_code = refused (record { message = message; exit_code = exit_code })

-- `SECTION_LABEL`.
abbrev pub section_label : MapSection → String
section_label destination = "## Destination"
section_label decisions_so_far = "## Decisions-so-far"
section_label open_frontier = "## Open frontier"
section_label graduated_fog = "## Graduated fog"

-- `splice(at, 0, line)`.
unfoldable pub insert_at : ℕ → String → List String → List String
unfolding take drop
insert_at at_ line lines = take at_ lines ++ line ∷ drop at_ lines

-- One more than the place of the last line that is not blank, or 0.
unfoldable pub after_last_text : ℕ → List String → ℕ
after_last_text i [] = 0
after_last_text i (line ∷ lines) =
    let rest = after_last_text (suc i) lines in
    if nat_beq rest 0 then (if trim line == "" then 0 else suc i) else rest

abbrev append_place : Option ListItemRange → List String → ℕ
append_place none lines = after_last_text 0 lines
append_place (some item) lines = item.stop

unfoldable pub append_item : List String → String → List String
unfolding insert_at after_last_text list_item_ranges
append_item lines line = insert_at (append_place (last? (list_item_ranges lines)) lines) line lines

unfoldable pub remove_item : List String → ListItemRange → List String
unfolding take drop
remove_item lines item = take item.start lines ++ drop (item.start + (item.stop - item.start)) lines

unfoldable pub overlaps : SectionRange → SectionRange → Bool
overlaps a b = ltb a.heading b.stop && ltb b.heading a.stop

-- The refs and the lines that the loop over `plan.spawned` collects.
pub record Spawned : Type 0 where
  pub refs : List ℕ
  pub lines : List String

abbrev strip_bullet : String → String
strip_bullet s = elim (after_bullet s) [ none ↦ s | some t ↦ t ]

abbrev push_spawned : ℕ → String → Outcome Spawned → Outcome Spawned
push_spawned ref text (refused r) = refused r
push_spawned ref text (ok s) = ok (record { refs = ref ∷ s.refs; lines = ("- " & text) ∷ s.lines })

abbrev spawn_one : ℕ → String → Option ℕ → Outcome Spawned → Outcome Spawned
spawn_one ticket text none rest =
    refuse
      ("--spawn \"" & text
        & "\" names no sub-issue #M; a frontier entry without one is MALFORMED_FRONTIER_ENTRY")
      malformed_input
spawn_one ticket text (some ref) rest =
    if nat_beq ref ticket
    then refuse
        ("--spawn \""
          & text
          & "\" names #"
          & show ticket
          & ", the ticket being graduated; a graduation cannot re-open its own frontier entry")
        malformed_input
    else push_spawned ref text rest

unfoldable pub read_spawned : ℕ → List String → Outcome Spawned
unfolding after_bullet first_issue_ref
read_spawned ticket [] = ok (record { refs = []; lines = [] })
read_spawned ticket (raw ∷ more) =
    let rest = read_spawned ticket more in
    let text = strip_bullet (trim raw) in spawn_one ticket text (first_issue_ref text) rest

pub record Span : Type 0 where
  pub section : MapSection
  pub range : SectionRange

abbrev section_place : MapSection → ℕ
section_place destination = 0
section_place decisions_so_far = 1
section_place open_frontier = 2
section_place graduated_fog = 3

abbrev pub nests : Span → Span → Bool
nests a b =
    not (nat_beq (section_place a.section) (section_place b.section)) && overlaps a.range b.range

-- The refusal for the first pair of spans that overlap.
unfoldable pub nested_with : Span → List Span → Option Refusal
nested_with a [] = none
nested_with a (b ∷ bs) =
    let rest = nested_with a bs in
    if nests a b
    then some (record {
      message =
          "`"
          & section_label a.section
          & "` and `"
          & section_label b.section
          & "` nest (drifted heading levels); graduate refuses to splice overlapping sections";
      exit_code = malformed_input;
    })
    else rest

unfoldable pub nested : List Span → List Span → Option Refusal
nested [] all = none
nested (a ∷ spans) all =
    let rest = nested spans all in elim (nested_with a all) [ none ↦ rest | some r ↦ some r ]

pub record Edit : Type 0 where
  pub range : SectionRange
  pub next : List String

unfoldable pub apply_edit : List String → Edit → List String
unfolding take drop
apply_edit lines e =
    take e.range.start lines
    ++ e.next
    ++ drop (e.range.start + (e.range.stop - e.range.start)) lines

unfoldable pub apply_edits : List String → List Edit → List String
unfolding apply_edit
apply_edits lines [] = lines
apply_edits lines (e ∷ edits) = apply_edits (apply_edit lines e) edits
