-- ===== src/Common/Minimum.antt =====
-- The first element of a sorted list is a least one.
use mathlib.Core.Path.{◌≡◌, refl}
use mathlib.Core.Logic.{inl, inr}
use mathlib.Core.Bool.{Bool, true, false}
use mathlib.Core.Option.{Option, none, some}
use mathlib.Core.List.{List, [], ◌∷◌, ◌++◌}
use native.Mathlib.Omega.{arith}
use kampus_pipeline.Common.Tests.{if◌then◌else◌}
use kampus_pipeline.Common.Lists.{In, head?}
use kampus_pipeline.Common.Sort.{sort_by, insert_by}

-- A comparison under which any two elements are in order, and that is transitive.
pub record IsOrder {A : Type 0} (le : A → A → Bool) : Type 0 where
  pub total : (a b : A) → le a b ≡ false → le b a ≡ true
  pub trans : (a b c : A) → le a b ≡ true → le b c ≡ true → le a c ≡ true

module _ {A : Type 0} (le : A → A → Bool) (o : IsOrder le) where
  -- Of two elements the one that a stable sort puts first.
  abbrev pub least_of : A → Option A → A
  least_of x none = x
  least_of x (some y) = if le x y then x else y

  pub head-sort_by-cons :
      (x : A) (xs : List A)
      → head? (sort_by le (x ∷ xs)) ≡ some (least_of x (head? (sort_by le xs)))
  unfolding sort_by
  head-sort_by-cons x xs = by_cases (sort_by le xs)
    where
      by_cases : (ys : List A) → head? (insert_by le x ys) ≡ some (least_of x (head? ys))
      by_cases [] = unfold insert_by in refl
      by_cases (y ∷ ys) = unfold insert_by in ground arith

  least_of_trans :
      (x a : A) (h : Option A) → (m : A) → h ≡ some m → le m a ≡ true → le (least_of x h) a ≡ true
  least_of_trans x a none m e l = cc
  least_of_trans x a (some y) m e l = ground (arith, o.trans x y a)

  pub head-sort_by-least :
      (xs : List A) (m a : A) → head? (sort_by le xs) ≡ some m → In a xs → le m a ≡ true
  head-sort_by-least [] m a e i = absurd i
  head-sort_by-least (x ∷ xs) m a e (inl s) =
      first (head? (sort_by le xs)) (rw head-sort_by-cons at e)
    where
      first : (h : Option A) → some (least_of x h) ≡ some m → le m a ≡ true
      first none q = ground (arith, o.total x x)
      first (some y) q = ground (arith, o.total x y, o.total x x)
  head-sort_by-least (x ∷ xs) m a e (inr i) =
      later (head? (sort_by le xs)) (rw head-sort_by-cons at e)
        (λ k q. head-sort_by-least xs k a q i) refl
    where
      later :
          (h : Option A)
          → some (least_of x h) ≡ some m
          → ((k : A) → head? (sort_by le xs) ≡ some k → le k a ≡ true)
          → head? (sort_by le xs) ≡ h
          → le m a ≡ true
      later none q ih r = absurd (no_head xs i r)
        where
          no_head : (ys : List A) → In a ys → head? (sort_by le ys) ≡ none → ⊥
          no_head [] j s = absurd j
          no_head (y ∷ ys) j s = cc (head-sort_by-cons y ys)
      later (some y) q ih r = ground (arith, ih y r, o.trans x y a)

  -- One more element at the end comes first only if the first one is after it.
  pub head-sort_by-concat :
      (xs : List A) (m c : A)
      → head? (sort_by le xs) ≡ some m
      → head? (sort_by le (xs ++ c ∷ [])) ≡ some (if le m c then m else c)
  head-sort_by-concat [] m c e = unfold sort_by in cc
  head-sort_by-concat (x ∷ []) m c e = unfold sort_by insert_by in ground arith
  head-sort_by-concat (x ∷ y ∷ xs) m c e =
      step (least_of y (head? (sort_by le xs)))
        (rw head-sort_by-cons at (rw head-sort_by-cons at e))
        (head-sort_by-concat (y ∷ xs) _ c (head-sort_by-cons y xs))
    where
      step :
          (h : A)
          → some (if le x h then x else h) ≡ some m
          → head? (sort_by le (y ∷ xs ++ c ∷ [])) ≡ some (if le h c then h else c)
          → head? (sort_by le (x ∷ y ∷ xs ++ c ∷ [])) ≡ some (if le m c then m else c)
      step h q ih = rw (head-sort_by-cons x (y ∷ xs ++ c ∷ [])) (
          rw ih (
            ground (
              arith,
              o.trans x h c,
              o.total x h,
              o.trans h x c,
              o.total x c,
              o.trans x c h,
              o.total h c,
              o.trans c h x,
            )))
