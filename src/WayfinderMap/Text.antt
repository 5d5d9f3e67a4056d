-- ===== src/WayfinderMap/Text.antt =====
-- packages/pipeline-cli/src/tools/wayfinder-map/markdown.ts: the patterns that a line is read by. In none
-- of them can a piece give back what a later piece needs, so the first match is the only one.
use Prim.Native.Char.{code}
use kampus_pipeline.Common.{
  ℕ, suc, ◌+◌, ◌-◌, ◌*◌, String, Bool, true, false, ◌&&◌, ◌||◌, not, Option, none, some, List, [],
  ◌∷◌, leb, nat_beq, if◌then◌else◌, ◌==◌, string_eq, units, head?,
}
use kampus_pipeline.EpicLock.{is_space, is_word, skip, literal}

unfoldable pub starts_with : (ℕ → Bool) → String → Bool
starts_with p String.[] = false
starts_with p (String.◌∷◌ c s) = p (code c)

-- `text.trim()`.
unfoldable pub trim_end : String → String
trim_end String.[] = ""
trim_end (String.◌∷◌ c s) =
    let rest = trim_end s in if rest == "" && is_space (code c) then "" else String.◌∷◌ c rest

unfoldable pub trim : String → String
unfolding skip
trim s = trim_end (skip is_space s)

-- `body.split("\n")`.
abbrev onto_first : (String → String) → List String → List String
onto_first f [] = f "" ∷ []
onto_first f (l ∷ ls) = f l ∷ ls

unfoldable pub split_lines : String → List String
split_lines String.[] = "" ∷ []
split_lines (String.◌∷◌ c s) =
    let rest = split_lines s in
    if nat_beq (code c) 10 then "" ∷ rest else onto_first (String.◌∷◌ c) rest

abbrev is_hash : ℕ → Bool
is_hash c = nat_beq c b'#'

unfoldable pub count_hashes : String → ℕ
count_hashes String.[] = 0
count_hashes (String.◌∷◌ c s) =
    let rest = count_hashes s in if is_hash (code c) then suc rest else 0

-- The text after `^#{1,6}\s+`.
unfoldable pub heading_text : String → Option String
unfolding count_hashes skip starts_with
heading_text line =
    if leb 1 (count_hashes line)
      && leb (count_hashes line) 6
      && starts_with is_space (skip is_hash line)
    then some (skip is_space (skip is_hash line))
    else none

-- The function `headingLevel`.
unfoldable pub heading_level : String → ℕ
unfolding count_hashes skip starts_with
heading_level line =
    if leb 1 (count_hashes line)
      && leb (count_hashes line) 6
      && starts_with is_space (skip is_hash line)
    then count_hashes line
    else 0

-- `ANY_HEADING`.
unfoldable pub any_heading : String → Bool
unfolding heading_text
any_heading line = elim (heading_text line) [ none ↦ false | some t ↦ not (t == "") ]

-- `[-\s]`.
abbrev is_gap : ℕ → Bool
is_gap c = nat_beq c b'-' || is_space c

-- `[-\s]+`.
unfoldable pub gap : String → Option String
unfolding starts_with skip
gap s = if starts_with is_gap s then some (skip is_gap s) else none

-- `\b` after a word character.
unfoldable pub ends_word : String → Bool
unfolding starts_with
ends_word s = not (starts_with is_word s)

unfoldable pub optional_s : String → String
optional_s String.[] = String.[]
optional_s (String.◌∷◌ c s) =
    if nat_beq (code c) b's' || nat_beq (code c) b'S' then s else String.◌∷◌ c s

abbrev pub and_then : Option String → (String → Option String) → Option String
and_then none f = none
and_then (some s) f = f s

abbrev is_some_word : Option String → Bool
is_some_word none = false
is_some_word (some s) = ends_word s

-- The text that begins with the ASCII word, read without regard to case: what follows the word.
abbrev word : String → String → Option String
word w s = literal (units w) s

-- `DESTINATION_HEADING`, `DECISIONS_HEADING`, `FRONTIER_HEADING` and `FOG_HEADING`.
unfoldable pub destination_heading : String → Bool
unfolding heading_text literal ends_word
destination_heading line = is_some_word (and_then (heading_text line) (word "destination"))

unfoldable pub decisions_heading : String → Bool
unfolding heading_text literal ends_word gap optional_s
decisions_heading line = is_some_word (
    and_then
      (and_then
        (and_then
          (and_then (and_then (heading_text line) (word "decision")) (λ s. gap (optional_s s)))
          (word "so"))
        gap)
      (word "far"))

unfoldable pub frontier_heading : String → Bool
unfolding heading_text literal ends_word gap
frontier_heading line =
    is_some_word
      (and_then (and_then (and_then (heading_text line) (word "open")) gap) (word "frontier"))

unfoldable pub fog_heading : String → Bool
unfolding heading_text literal ends_word gap
fog_heading line =
    is_some_word
      (and_then (and_then (and_then (heading_text line) (word "graduated")) gap) (word "fog"))

-- `.` matches no line terminator.
abbrev is_terminator : ℕ → Bool
is_terminator c = nat_beq c 10 || nat_beq c 13 || nat_beq c 0x2028 || nat_beq c 0x2029

unfoldable pub has_terminator : String → Bool
has_terminator String.[] = false
has_terminator (String.◌∷◌ c s) = let rest = has_terminator s in is_terminator (code c) || rest

abbrev is_bullet : ℕ → Bool
is_bullet c = nat_beq c b'-' || nat_beq c b'*' || nat_beq c b'+'

-- `[-*+]\s+`: what follows it.
unfoldable pub after_bullet : String → Option String
unfolding starts_with skip
after_bullet String.[] = none
after_bullet (String.◌∷◌ c s) =
    if is_bullet (code c) && starts_with is_space s then some (skip is_space s) else none

-- What `LIST_ITEM` captures.
unfoldable pub list_item : String → Option String
unfolding after_bullet skip has_terminator
list_item line = elim (after_bullet (skip is_space line)) [
  | none ↦ none
  | some t ↦ if t == "" || has_terminator t then none else some t
]

abbrev is_digit : ℕ → Bool
is_digit c = leb b'0' c && leb c b'9'

-- The number that the digits at the front of the text are, after the number before them.
unfoldable pub read_number : ℕ → String → ℕ
read_number n String.[] = n
read_number n (String.◌∷◌ c s) =
    let rest = read_number (n * 10 + (code c - b'0')) s in if is_digit (code c) then rest else n

-- `/#(\d+)/g`: the numbers that it captures.
unfoldable pub issue_refs : String → List ℕ
unfolding starts_with read_number
issue_refs String.[] = []
issue_refs (String.◌∷◌ c s) =
    let rest = issue_refs s in
    if is_hash (code c) && starts_with is_digit s then read_number 0 s ∷ rest else rest

unfoldable pub first_issue_ref : String → Option ℕ
unfolding issue_refs
first_issue_ref text = head? (issue_refs text)

-- `#(\d+)` at the front of the text.
abbrev ref_at : String → Option ℕ
ref_at String.[] = none
ref_at (String.◌∷◌ c s) =
    if is_hash (code c) && starts_with is_digit s then some (read_number 0 s) else none

-- `\s+#(\d+)` at the front of the text.
unfoldable pub ref_after : Option String → Option ℕ
unfolding starts_with skip read_number
ref_after none = none
ref_after (some s) = if starts_with is_space s then ref_at (skip is_space s) else none

abbrev or_else : Option ℕ → Option ℕ → Option ℕ
or_else none o = o
or_else (some n) o = some n

-- The first number after `\bfrom\s+#`; the flag tells whether a word character comes before the text.
unfoldable pub from_ref : Bool → String → Option ℕ
unfolding literal ref_after
from_ref after_word String.[] = none
from_ref after_word (String.◌∷◌ c s) =
    let rest = from_ref (is_word (code c)) s in
    if after_word then rest else or_else (ref_after (word "from" (String.◌∷◌ c s))) rest

-- The numbers after each `spawned\s+#`.
unfoldable pub spawned_refs : String → List ℕ
unfolding literal ref_after
spawned_refs String.[] = []
spawned_refs (String.◌∷◌ c s) =
    let rest = spawned_refs s in
    elim (ref_after (word "spawned" (String.◌∷◌ c s))) [ none ↦ rest | some n ↦ n ∷ rest ]

-- One character of `[-\s]`.
unfoldable pub gap_char : String → Option String
gap_char String.[] = none
gap_char (String.◌∷◌ c s) = if is_gap (code c) then some s else none

abbrev is_found : Option String → Bool
is_found none = false
is_found (some s) = true

abbrev starts_with_words : String → String → String → Bool
starts_with_words v w s =
    is_found (
      and_then (and_then (and_then (and_then (word v s) gap_char) (word w)) gap_char) (word "fork"))

-- `FORK_MARKER_PATTERN`.
unfoldable pub has_fork_marker : String → Bool
unfolding literal gap_char
has_fork_marker String.[] = false
has_fork_marker (String.◌∷◌ c s) =
    let rest = has_fork_marker s in
    starts_with_words "decision" "owner" (String.◌∷◌ c s)
    || starts_with_words "founder" "decision" (String.◌∷◌ c s)
    || rest
