-- ===== src/WayfinderMap/Graduate/Kept.antt =====
-- packages/pipeline-cli/src/tools/wayfinder-map/mutate.ts: a graduation leaves the destination of the
-- map as it is.
use kampus_pipeline.Common.{
  ℕ, suc, ◌+◌, ◌≤◌, String, Bool, false, Option, none, some, List, [], ◌∷◌, ◌≡◌, refl, sym, ap, ◌∙◌,
  inl, inr, ◌⊎◌, arith, All, length, Bool-cases, Option-cases, join, ◌==◌, string_eq, sort_by,
}
use kampus_pipeline.WayfinderMap.Text.{trim, split_lines, from_ref, heading_level}
use kampus_pipeline.WayfinderMap.Markdown.{
  MapSection, destination, decisions_so_far, open_frontier, graduated_fog, SectionRange,
  section_range, section_heading, range_from, section_end, ListItemRange, take, drop, slice,
}
use kampus_pipeline.WayfinderMap.Graduate.{
  Graduation, Graduated, Outcome, ok, refused, Spawned, Span, overlaps, nested, nested_with, Edit,
  apply_edits, read_spawned, nests, Refusal, append_item, remove_item,
}
use kampus_pipeline.WayfinderMap.Graduate.Body.{
  graduate_body, graduate_lines, graduate_sections, graduate_spans, spans_of, unless_refused,
  splice_body, edits_of, pick_target, require, append_items, with_spawned, is_named,
}
use kampus_pipeline.WayfinderMap.Graduate.Splice.{IsRange, Runs, Apart, apply_edits-Runs, cut}
use kampus_pipeline.WayfinderMap.Graduate.Order.{Separate, later, sort_by-Descends, All-sort_by}

section_end-bounds :
    (level i : ℕ) (lines : List String)
    → (i ≤ section_end level i lines) × (section_end level i lines ≤ i + length lines)
unfolding section_end
section_end-bounds level i [] = omega arith
section_end-bounds level i (line ∷ lines) = ground (arith, section_end-bounds level (suc i) lines)

range_from-bounds :
    (test : String → Bool) (i : ℕ) (lines : List String) (r : SectionRange)
    → range_from test i lines ≡ some r
    → IsRange r × (r.stop ≤ i + length lines)
unfolding range_from
range_from-bounds test i [] r h = cc
range_from-bounds test i (line ∷ lines) r h = elim (Bool-cases (test line)) [
  | inl t ↦ let b = section_end-bounds (heading_level line) (suc i) lines in ground arith
  | inr f ↦
      let k = range_from-bounds test (suc i) lines r (ground arith) in (k.0, omega (arith, k.1))
]

section_range-IsRange :
    (lines : List String) (section : MapSection) (r : SectionRange)
    → section_range lines section ≡ some r
    → IsRange r × (r.stop ≤ length lines)
unfolding section_range
section_range-IsRange lines section r h =
    let k = range_from-bounds (section_heading section) 0 lines r h in (k.0, omega (arith, k.1))

overlaps-Separate : (a b : SectionRange) → overlaps a b ≡ false → Separate a b
unfolding overlaps
overlaps-Separate a b h = ground arith

nested_with-none :
    (a : Span) (bs : List Span) → nested_with a bs ≡ none → All (λ b. nests a b ≡ false) bs
unfolding nested_with
nested_with-none a [] h = tt
nested_with-none a (b ∷ bs) h = elim (Bool-cases (nests a b)) [
  | inl t ↦ absurd (ground arith)
  | inr f ↦ (f, nested_with-none a bs (ground arith))
]

nested-none :
    (spans all : List Span)
    → nested spans all ≡ none
    → All (λ a. All (λ b. nests a b ≡ false) all) spans
unfolding nested
nested-none [] all h = tt
nested-none (a ∷ spans) all h = elim (Option-cases (nested_with a all)) [
  | inl n ↦ (nested_with-none a all n, nested-none spans all (ground arith))
  | inr (r, e) ↦ absurd (ground arith)
]

pick_target-ok :
    (items : List ListItemRange) (ticket : ℕ) (make : ListItemRange → Graduated) (g : Graduated)
    → pick_target items ticket make ≡ ok g
    → (target : ListItemRange) × (make target ≡ g)
pick_target-ok [] ticket make g h = cc
pick_target-ok (target ∷ []) ticket make g h = (target, ground arith)
pick_target-ok (target ∷ other ∷ more) ticket make g h = cc

require-ok :
    (section : MapSection) (o : Option SectionRange) (next : SectionRange → Outcome Graduated)
    (g : Graduated)
    → require section o next ≡ ok g
    → (r : SectionRange) × (o ≡ some r) × (next r ≡ ok g)
require-ok section none next g h = cc
require-ok section (some r) next g h = (r, refl, h)

with_spawned-ok :
    (o : Outcome Spawned) (next : Spawned → Outcome Graduated) (g : Graduated)
    → with_spawned o next ≡ ok g
    → (s : Spawned) × (next s ≡ ok g)
with_spawned-ok (refused r) next g h = cc
with_spawned-ok (ok s) next g h = (s, h)

graduate_body-lines :
    (body : String) (plan : Graduation) (g : Graduated)
    → graduate_body body plan ≡ ok g
    → (s : Spawned) × (graduate_lines (split_lines body) plan (trim plan.decision) s ≡ ok g)
unfolding graduate_body
graduate_body-lines body plan g h = elim (Bool-cases (trim plan.decision == "")) [
  | inl t ↦ absurd (ground arith)
  | inr f ↦ elim (Bool-cases (is_named (from_ref false (trim plan.decision)))) [
    | inl t ↦ absurd (ground arith)
    | inr k ↦
        with_spawned-ok (read_spawned plan.ticket plan.spawned)
          (graduate_lines (split_lines body) plan (trim plan.decision)) g (ground arith)
  ]
]

-- The three edits lie apart from the destination and from each other.
three-Runs :
    (lines spawned : List String) (decisions frontier fog dest : SectionRange)
    (target : ListItemRange) (decision_ fog_ : String)
    → IsRange decisions × IsRange frontier × IsRange fog
    → IsRange dest × (dest.stop ≤ length lines)
    → Separate decisions frontier × Separate decisions fog × Separate frontier fog
    → Separate decisions dest × Separate frontier dest × Separate fog dest
    → Runs
        (slice dest.heading dest.stop lines)
        (apply_edits lines (edits_of lines decisions frontier fog target decision_ fog_ spawned))
unfolding edits_of
three-Runs lines spawned decisions frontier fog dest target decision_ fog_ (a, b, c) (d, inside)
      (ab, ac, bc) (ad, bd, cd) =
    let (same, before, width) = cut lines dest.heading dest.stop (omega arith) inside in
    let (p, q, e) =
      apply_edits-Runs (take dest.heading lines) (slice dest.heading dest.stop lines)
        (drop dest.stop lines) (sort_by later es)
        (All-sort_by (λ (x : Edit). IsRange x.range) es (a, (b, (c, tt))))
        (sort_by-Descends es (a, (b, (c, tt))) ((ab, (ac, tt)), ((bc, tt), (tt, tt))))
        (All-sort_by (Apart lo hi) es (
          apart decisions a ad before width,
          (apart frontier b bd before width, (apart fog c cd before width, tt)),
        )) in
    (p, q, ap (λ ls. apply_edits ls (sort_by later es)) same ∙ e)
  where
    lo : ℕ
    lo = length (take dest.heading lines)

    hi : ℕ
    hi = lo + length (slice dest.heading dest.stop lines)

    es : List Edit
    es =
        record {
          range = decisions;
          next = append_item (slice decisions.start decisions.stop lines) decision_;
        }
        ∷ record {
          range = frontier;
          next =
              append_items (remove_item (slice frontier.start frontier.stop lines) target) spawned;
        }
        ∷ record { range = fog; next = append_item (slice fog.start fog.stop lines) fog_ }
        ∷ []

    apart :
        (r : SectionRange)
        → IsRange r
        → Separate r dest
        → lo ≡ dest.heading
        → length (slice dest.heading dest.stop lines) + dest.heading ≡ dest.stop
        → (r.stop ≤ lo) ⊎ (hi ≤ r.start)
    apart r a (inl k) x y = inl (omega arith)
    apart r a (inr k) x y = inr (omega arith)

abbrev Keeps : List String → SectionRange → Graduated → Type 0
Keeps lines dest g =
    (out : List String) × (g.body ≡ join "\n" out) × Runs (slice dest.heading dest.stop lines) out

unless_refused-ok :
    (o : Option Refusal) (next : Outcome Graduated) (g : Graduated)
    → unless_refused o next ≡ ok g
    → (o ≡ none) × (next ≡ ok g)
unless_refused-ok none next g h = (refl, h)
unless_refused-ok (some r) next g h = cc

sections-Keeps :
    (lines : List String) (plan : Graduation) (decision : String) (s : Spawned)
    (decisions frontier fog dest : SectionRange) (g : Graduated)
    → IsRange decisions × IsRange frontier × IsRange fog
    → IsRange dest × (dest.stop ≤ length lines)
    → graduate_spans lines plan decision s decisions frontier fog
        (spans_of decisions frontier fog (some dest))
      ≡ ok g
    → Keeps lines dest g
unfolding graduate_spans splice_body
sections-Keeps lines plan decision s decisions frontier fog dest g ranges inside h =
    let spans = spans_of decisions frontier fog (some dest) in
    let (n, k) = unless_refused-ok (nested spans spans) _ g h in
    let (target, made) = pick_target-ok _ plan.ticket _ g k in
    let (a, (b, (c, _))) = nested-none spans spans n in
    (
      _,
      sym (ap (λ (x : Graduated). x.body) made),
      three-Runs lines s.lines decisions frontier fog dest target _ _ ranges inside
          (
            overlaps-Separate decisions frontier a.1.0,
            overlaps-Separate decisions fog a.1.1.0,
            overlaps-Separate frontier fog b.1.1.0,
          )
          (
            overlaps-Separate decisions dest a.1.1.1.0,
            overlaps-Separate frontier dest b.1.1.1.0,
            overlaps-Separate fog dest c.1.1.1.0,
          ),
    )

-- If the body has a section of the destination and the graduation is not refused, the lines of that
-- section, with its heading, are a run of the lines that the new body joins.
pub graduate_body-Runs :
    (body : String) (plan : Graduation) (g : Graduated) (dest : SectionRange)
    → graduate_body body plan ≡ ok g
    → section_range (split_lines body) destination ≡ some dest
    → (out : List String) × (g.body ≡ join "\n" out)
      × Runs (slice dest.heading dest.stop (split_lines body)) out
unfolding graduate_lines graduate_sections
graduate_body-Runs body plan g dest h e =
    let lines = split_lines body in
    let (s, h1) = graduate_body-lines body plan g h in
    let (decisions, e1, h2) =
      require-ok decisions_so_far (section_range lines decisions_so_far) _ g h1 in
    let (frontier, e2, h3) = require-ok open_frontier (section_range lines open_frontier) _ g h2 in
    let (fog, e3, h4) = require-ok graduated_fog (section_range lines graduated_fog) _ g h3 in
    sections-Keeps lines plan (trim plan.decision) s decisions frontier fog dest g
      (
        (section_range-IsRange lines decisions_so_far decisions e1).0,
        (section_range-IsRange lines open_frontier frontier e2).0,
        (section_range-IsRange lines graduated_fog fog e3).0,
      )
      (section_range-IsRange lines destination dest e)
      (ap
          (λ o.
            graduate_spans lines plan (trim plan.decision) s decisions frontier fog
              (spans_of decisions frontier fog o))
          (sym e)
        ∙ h4)
