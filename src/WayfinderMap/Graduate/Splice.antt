-- ===== src/WayfinderMap/Graduate/Splice.antt =====
-- packages/pipeline-cli/src/tools/wayfinder-map/mutate.ts: edits of sections that do not overlap, made
-- from the last place to the first, leave the lines of another section as they are.
use mathlib.Core.List.{append_assoc}
use kampus_pipeline.Common.{
  ℕ, zero, suc, ◌+◌, ◌-◌, ◌≤◌, String, List, [], ◌∷◌, ◌++◌, ◌≡◌, refl, sym, ap, ◌∙◌, ◌⊎◌, inl, inr,
  arith, length, length-append, All,
}
use kampus_pipeline.WayfinderMap.Markdown.{SectionRange, take, drop, slice}
use kampus_pipeline.WayfinderMap.Graduate.{Edit, apply_edit, apply_edits}

take-append_le : {A : Type 0} (n : ℕ) (p r : List A) → n ≤ length p → take n (p ++ r) ≡ take n p
unfolding take
take-append_le zero p r h = refl
take-append_le (suc n) [] r h = absurd (omega (arith, h))
take-append_le (suc n) (x ∷ p) r h = ap (λ t. x ∷ t) (take-append_le n p r (omega (arith, h)))

drop-append_le :
    {A : Type 0} (n : ℕ) (p r : List A) → n ≤ length p → drop n (p ++ r) ≡ drop n p ++ r
unfolding drop
drop-append_le zero p r h = refl
drop-append_le (suc n) [] r h = absurd (omega (arith, h))
drop-append_le (suc n) (x ∷ p) r h = drop-append_le n p r (omega (arith, h))

take-append_add :
    {A : Type 0} (p r : List A) (m n : ℕ) → n ≡ length p + m → take n (p ++ r) ≡ p ++ take m r
unfolding take
take-append_add [] r m n h = ap (λ k. take k r) (omega (arith, h))
take-append_add (x ∷ p) r m zero h = absurd (omega (arith, h))
take-append_add (x ∷ p) r m (suc n) h = ap (λ t. x ∷ t) (take-append_add p r m n (omega (arith, h)))

drop-append_add :
    {A : Type 0} (p r : List A) (m n : ℕ) → n ≡ length p + m → drop n (p ++ r) ≡ drop m r
unfolding drop
drop-append_add [] r m n h = ap (λ k. drop k r) (omega (arith, h))
drop-append_add (x ∷ p) r m zero h = absurd (omega (arith, h))
drop-append_add (x ∷ p) r m (suc n) h = drop-append_add p r m n (omega (arith, h))

length-take_le : {A : Type 0} (n : ℕ) (p : List A) → n ≤ length p → length (take n p) ≡ n
unfolding take
length-take_le zero p h = refl
length-take_le (suc n) [] h = absurd (omega (arith, h))
length-take_le (suc n) (x ∷ p) h = omega (arith, length-take_le n p (omega (arith, h)))

take-append-drop : {A : Type 0} (n : ℕ) (xs : List A) → take n xs ++ drop n xs ≡ xs
unfolding take drop
take-append-drop zero xs = refl
take-append-drop (suc n) [] = refl
take-append-drop (suc n) (x ∷ xs) = ap (λ t. x ∷ t) (take-append-drop n xs)

drop-nil : {A : Type 0} (n : ℕ) → drop {A = A} n [] ≡ []
unfolding drop
drop-nil zero = refl
drop-nil (suc n) = refl

drop-drop : {A : Type 0} (m n k : ℕ) (xs : List A) → k ≡ n + m → drop m (drop n xs) ≡ drop k xs
unfolding drop
drop-drop m zero k xs h = ap (λ j. drop j xs) (omega (arith, h))
drop-drop zero (suc n) k [] h = sym (drop-nil k)
drop-drop (suc m) (suc n) k [] h = sym (drop-nil k)
drop-drop m (suc n) zero (x ∷ xs) h = absurd (omega (arith, h))
drop-drop m (suc n) (suc k) (x ∷ xs) h = drop-drop m n k xs (omega (arith, h))

length-drop_le :
    {A : Type 0} (n : ℕ) (xs : List A) → n ≤ length xs → length (drop n xs) + n ≡ length xs
unfolding drop
length-drop_le zero xs h = omega arith
length-drop_le (suc n) [] h = absurd (omega (arith, h))
length-drop_le (suc n) (x ∷ xs) h = omega (arith, length-drop_le n xs (omega (arith, h)))

-- The lines before a slice, the slice and the lines after it.
pub cut :
    (lines : List String) (a b : ℕ)
    → a ≤ b
    → b ≤ length lines
    → (lines ≡ take a lines ++ slice a b lines ++ drop b lines)
      × (length (take a lines) ≡ a)
      × (length (slice a b lines) + a ≡ b)
cut lines a b h k = (
  sym (
      append_assoc (take a lines) (slice a b lines) (drop b lines)
      ∙ ap (λ t. take a lines ++ (slice a b lines ++ t))
          (sym (drop-drop (b - a) a b lines (omega arith)))
      ∙ ap (λ t. take a lines ++ t) (take-append-drop (b - a) (drop a lines))
      ∙ take-append-drop a lines),
  length-take_le a lines (omega arith),
  omega (
    arith,
    length-take_le (b - a) (drop a lines) (omega (arith, length-drop_le a lines (omega arith))),
  ),
)

-- The range is one that the lines may have.
abbrev pub IsRange : SectionRange → Type 0
IsRange r = (r.start ≡ suc r.heading) × (r.start ≤ r.stop)

-- The edits go from the last place to the first.
abbrev pub Descends : List Edit → Type 0
Descends [] = Unit {0}
Descends (e ∷ es) = All (λ (f : Edit). f.range.stop ≤ e.range.start) es × Descends es

-- The edit lies before or after the kept lines.
abbrev pub Apart : ℕ → ℕ → Edit → Type 0
Apart lo hi e = (e.range.stop ≤ lo) ⊎ (hi ≤ e.range.start)

-- The kept lines are a run of the lines.
abbrev pub Runs : List String → List String → Type 0
Runs kept lines = (p : List String) × (q : List String) × (lines ≡ p ++ kept ++ q)

apply_edit-after :
    (pk q : List String) (e : Edit)
    → e.range.start ≤ e.range.stop
    → length pk ≤ e.range.start
    → (r : List String) × (apply_edit (pk ++ q) e ≡ pk ++ r)
unfolding apply_edit
apply_edit-after pk q e h k =
    let m = e.range.start - length pk in
    let n = e.range.stop - length pk in
    (
      take m q ++ e.next ++ drop n q,
      rw
          (
            take-append_add pk q m e.range.start (omega arith),
            drop-append_add pk q n (e.range.start + (e.range.stop - e.range.start)) (omega arith),
          )
          (ap (λ t. t ++ drop n q) (append_assoc pk (take m q) e.next)
            ∙ append_assoc pk (take m q ++ e.next) (drop n q)),
    )

apply_edit-before :
    (p r : List String) (e : Edit)
    → e.range.start ≤ e.range.stop
    → e.range.stop ≤ length p
    → (s : List String) × (apply_edit (p ++ r) e ≡ s ++ r) × (e.range.start ≤ length s)
unfolding apply_edit
apply_edit-before p r e h k =
    let n = e.range.start + (e.range.stop - e.range.start) in
    let a = take e.range.start p ++ e.next in
    (
      a ++ drop n p,
      rw (take-append_le e.range.start p r (omega arith), drop-append_le n p r (omega arith))
          (sym (append_assoc a (drop n p) r)),
      omega (
        arith,
        length-append a (drop n p),
        length-append (take e.range.start p) e.next,
        length-take_le e.range.start p (omega arith),
      ),
    )

Apart-of_All :
    (lo hi s : ℕ) (es : List Edit)
    → s ≤ lo
    → All (λ (f : Edit). f.range.stop ≤ s) es
    → All (Apart lo hi) es
Apart-of_All lo hi s [] h a = tt
Apart-of_All lo hi s (f ∷ es) h a = (inl (omega (arith, a.0)), Apart-of_All lo hi s es h a.1)

-- Edits from the last place to the first that lie apart from some lines leave these as a run.
pub apply_edits-Runs :
    (p kept q : List String) (es : List Edit)
    → All (λ (e : Edit). IsRange e.range) es
    → Descends es
    → All (Apart (length p) (length p + length kept)) es
    → Runs kept (apply_edits (p ++ kept ++ q) es)
unfolding apply_edits
apply_edits-Runs p kept q [] r d a = (p, q, refl)
apply_edits-Runs p kept q (e ∷ es) r d (inl before, a) =
    let (s, same, longer) = apply_edit-before p (kept ++ q) e r.0.1 before in
    let (p', q', end_) =
      apply_edits-Runs s kept q es r.1 d.1
        (Apart-of_All (length s) (length s + length kept) e.range.start es longer d.0) in
    (
      p',
      q',
      ap (λ ls. apply_edits (apply_edit ls e) es) (append_assoc p kept q)
          ∙ ap (λ ls. apply_edits ls es) (same ∙ sym (append_assoc s kept q))
          ∙ end_,
    )
apply_edits-Runs p kept q (e ∷ es) r d (inr after, a) =
    let (q', same) =
      apply_edit-after (p ++ kept) q e r.0.1 (omega (arith, length-append p kept, after)) in
    let (p'', q'', end_) = apply_edits-Runs p kept q' es r.1 d.1 a in
    (p'', q'', ap (λ ls. apply_edits ls es) same ∙ end_)
