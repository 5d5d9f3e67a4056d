-- ===== src/WayfinderMap/Markdown/Bounds.antt =====
-- packages/pipeline-cli/src/tools/wayfinder-map/markdown.ts: where the sections of a body and the items
-- of a section lie among its lines.
use kampus_pipeline.Common.{
  ℕ, suc, ◌+◌, ◌≤◌, ◌<◌, String, Bool, true, false, Option, none, some, List, [], ◌∷◌, ◌≡◌, arith,
  length, Bool-cases, if◌then◌else◌, inl, inr, ◌⊎◌, Option-cases, ◌==◌, string_eq,
}
use kampus_pipeline.WayfinderMap.Text.{trim, list_item}
use kampus_pipeline.WayfinderMap.Markdown.{
  ListItemRange, OpenItem, flush, continue_item, ends_item, next_item, items_from, list_item_ranges,
}

-- The items lie one after the other, each on at least one line, between the two places.
abbrev pub Spans : ℕ → ℕ → List ListItemRange → Type 0
Spans lo hi [] = lo ≤ hi
Spans lo hi (x ∷ xs) = (lo ≤ x.start) × (x.start < x.stop) × Spans x.stop hi xs

-- The item that is open before place `i` begins at `lo` or after it.
abbrev IsOpen : ℕ → ℕ → Option OpenItem → Type 0
IsOpen lo i none = lo ≤ i
IsOpen lo i (some o) = (lo ≤ o.start) × (o.start < o.stop) × (o.stop ≤ i)

-- Where the next item may begin.
abbrev after_open : ℕ → Option OpenItem → ℕ
after_open lo none = lo
after_open lo (some o) = o.stop

flush-Spans :
    (lo hi i : ℕ) (current : Option OpenItem) (items : List ListItemRange)
    → IsOpen lo i current
    → Spans (after_open lo current) hi items
    → Spans lo hi (flush current items)
unfolding flush
flush-Spans lo hi i none items h s = s
flush-Spans lo hi i (some o) items h s = (h.0, h.1, s)

after_open-le :
    (lo i : ℕ) (current : Option OpenItem) → IsOpen lo i current → after_open lo current ≤ i
after_open-le lo i none h = h
after_open-le lo i (some o) h = h.2

continue_item-IsOpen :
    (lo i : ℕ) (line : String) (current : Option OpenItem)
    → IsOpen lo i current
    → IsOpen lo (suc i) (continue_item i line current)
unfolding continue_item
continue_item-IsOpen lo i line none h = omega arith
continue_item-IsOpen lo i line (some o) h = omega arith

-- A line is blank, or continues the item, or begins one.
line-cases :
    (i : ℕ) (line : String) (current : Option OpenItem)
    → ((ends_item line ≡ true) × (next_item i line current ≡ none))
      ⊎ (((ends_item line ≡ false) × (next_item i line current ≡ continue_item i line current))
          ⊎ ((ends_item line ≡ true)
              × ((t : List String) × (next_item i line current
                    ≡ some (record { parts = t; start = i; stop = suc i })))))
unfolding ends_item next_item
line-cases i line current = elim (Option-cases (list_item line)) [
  | inl n ↦ elim (Bool-cases (trim line == "")) [
    | inl t ↦ inl (ground arith, ground arith)
    | inr f ↦ inr (inl (ground arith, ground arith))
  ]
  | inr (t, e) ↦ inr (inr (ground arith, (trim t ∷ [], ground arith)))
]

next_item-IsOpen :
    (lo i : ℕ) (line : String) (current : Option OpenItem)
    → IsOpen lo i current
    → IsOpen
        (if ends_item line then after_open lo current else lo)
        (suc i)
        (next_item i line current)
next_item-IsOpen lo i line current h = elim (line-cases i line current) [
  | inl (t, e) ↦ rw (t, e) (omega (arith, after_open-le lo i current h))
  | inr (inl (f, e)) ↦ rw (f, e) (continue_item-IsOpen lo i line current h)
  | inr (inr (t, (parts, e))) ↦ rw (t, e) (omega (arith, after_open-le lo i current h))
]

complete-Spans :
    (b : Bool) (lo hi i : ℕ) (current : Option OpenItem) (items : List ListItemRange)
    → IsOpen lo i current
    → Spans (if b then after_open lo current else lo) hi items
    → Spans lo hi (if b then flush current items else items)
complete-Spans true lo hi i current items h s = flush-Spans lo hi i current items h s
complete-Spans false lo hi i current items h s = s

items_from-Spans :
    (lo i n : ℕ) (current : Option OpenItem) (lines : List String)
    → IsOpen lo i current
    → n ≡ i + length lines
    → Spans lo n (items_from i current lines)
unfolding items_from
items_from-Spans lo i n current [] h e =
    flush-Spans lo n i current [] h (omega (arith, after_open-le lo i current h))
items_from-Spans lo i n current (line ∷ lines) h e =
    complete-Spans (ends_item line) lo n i current _ h (
      items_from-Spans (if ends_item line then after_open lo current else lo) (suc i) n
        (next_item i line current) lines (next_item-IsOpen lo i line current h) (omega arith))

-- The items of a section lie one after the other within its lines, each on at least one line.
pub list_item_ranges-Spans : (lines : List String) → Spans 0 (length lines) (list_item_ranges lines)
unfolding list_item_ranges
list_item_ranges-Spans lines =
    items_from-Spans 0 0 (length lines) none lines (omega arith) (omega arith)
