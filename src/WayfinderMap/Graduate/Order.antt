-- ===== src/WayfinderMap/Graduate/Order.antt =====
-- packages/pipeline-cli/src/tools/wayfinder-map/mutate.ts: the edits of sections that do not overlap, as
-- they are sorted, go from the last place to the first.
use kampus_pipeline.Common.{
  ℕ, ◌≤◌, Bool, List, [], ◌∷◌, ◌⊎◌, inl, inr, arith, leb, All, All-iff, In-sort_by, Bool-cases,
  sort_by, insert_by,
}
use kampus_pipeline.WayfinderMap.Markdown.{SectionRange}
use kampus_pipeline.WayfinderMap.Graduate.{Edit}
use kampus_pipeline.WayfinderMap.Graduate.Splice.{IsRange, Descends}

-- The two sections, headings included, do not overlap.
abbrev pub Separate : SectionRange → SectionRange → Type 0
Separate r s = (r.stop ≤ s.heading) ⊎ (s.stop ≤ r.heading)

-- The comparison of the edits.
abbrev pub later : Edit → Edit → Bool
later a b = leb b.range.start a.range.start

abbrev pub AllSeparate : List Edit → Type 0
AllSeparate [] = Unit {0}
AllSeparate (e ∷ es) = All (λ (f : Edit). Separate e.range f.range) es × AllSeparate es

stop-le :
    (r s : SectionRange)
    → IsRange r
    → IsRange s
    → Separate r s
    → s.start ≤ r.start
    → s.stop ≤ r.start
stop-le r s p q d h = ground arith

stop-le' :
    (r s : SectionRange)
    → IsRange r
    → IsRange s
    → Separate r s
    → r.start ≤ s.start
    → r.stop ≤ s.start
stop-le' r s p q d h = ground arith

All-insert_by :
    (P : Edit → Type 0) (x : Edit) (ys : List Edit) → P x → All P ys → All P (insert_by later x ys)
unfolding insert_by
All-insert_by P x [] p a = ground arith
All-insert_by P x (y ∷ ys) p a = elim (Bool-cases (later x y)) [
  | inl t ↦ rw (t, insert_by) (p, a)
  | inr f ↦ rw (f, insert_by) (a.0, All-insert_by P x ys p a.1)
]

below :
    (x : Edit) (s : ℕ) (ys : List Edit)
    → IsRange x.range
    → s ≤ x.range.start
    → All (λ (f : Edit). IsRange f.range) ys
    → All (λ (f : Edit). Separate x.range f.range) ys
    → All (λ (f : Edit). f.range.stop ≤ s) ys
    → All (λ (f : Edit). f.range.stop ≤ x.range.start) ys
below x s [] r h a b c = tt
below x s (f ∷ ys) r h a b c = (omega (arith, c.0, h), below x s ys r h a.1 b.1 c.1)

insert_by-Descends :
    (x : Edit) (ys : List Edit)
    → IsRange x.range
    → All (λ (f : Edit). IsRange f.range) ys
    → All (λ (f : Edit). Separate x.range f.range) ys
    → Descends ys
    → Descends (insert_by later x ys)
unfolding insert_by
insert_by-Descends x [] r a b d = (tt, tt)
insert_by-Descends x (y ∷ ys) r a b d = elim (Bool-cases (later x y)) [
  | inl t ↦
      let h : y.range.start ≤ x.range.start = ground arith in
      rw (t, insert_by)
        ((stop-le x.range y.range r a.0 b.0 h, below x y.range.start ys r h a.1 b.1 d.0), d)
  | inr f ↦
      let h : x.range.start ≤ y.range.start = ground arith in
      rw (f, insert_by)
        (
          All-insert_by (λ (f : Edit). f.range.stop ≤ y.range.start) x ys
              (stop-le' x.range y.range r a.0 b.0 h) d.0,
          insert_by-Descends x ys r a.1 b.1 d.1,
        )
]

pub All-sort_by : (P : Edit → Type 0) (es : List Edit) → All P es → All P (sort_by later es)
All-sort_by P es a =
    (All-iff P (sort_by later es)).1 (λ e i. (All-iff P es).0 a e ((In-sort_by later e es).0 i))

pub sort_by-Descends :
    (es : List Edit)
    → All (λ (f : Edit). IsRange f.range) es
    → AllSeparate es
    → Descends (sort_by later es)
unfolding sort_by
sort_by-Descends [] a s = tt
sort_by-Descends (e ∷ es) a s =
    insert_by-Descends e (sort_by later es) a.0 (All-sort_by _ es a.1) (All-sort_by _ es s.0)
      (sort_by-Descends es a.1 s.1)
