-- ===== src/Common/Nil.antt =====
-- When a list built by the program's operations is empty.
use mathlib.Core.Path.{◌≡◌, refl}
use mathlib.Core.Logic.{◌↔◌, inl, inr}
use mathlib.Core.Bool.{Bool, false}
use mathlib.Core.List.{List, [], ◌∷◌, ◌++◌, map}
use native.Mathlib.Omega.{arith}
use kampus_pipeline.Common.Lists.{In, All, filter, length}
use kampus_pipeline.Common.Sort.{sort_by, length-sort_by}

module _ {A : Type 0} where
  pub append-eq-nil_iff : (xs ys : List A) → (xs ++ ys ≡ []) ↔ ((xs ≡ []) × (ys ≡ []))
  append-eq-nil_iff [] ys = ground arith
  append-eq-nil_iff (x ∷ xs) ys = ground arith

  pub map-eq-nil_iff : {B : Type 0} (f : A → B) (xs : List A) → (map f xs ≡ []) ↔ (xs ≡ [])
  map-eq-nil_iff f [] = ground arith
  map-eq-nil_iff f (x ∷ xs) = ground arith

  pub length-eq-zero_iff : (xs : List A) → (length xs ≡ 0) ↔ (xs ≡ [])
  length-eq-zero_iff [] = ground arith
  length-eq-zero_iff (x ∷ xs) = ground arith

  pub sort_by-eq-nil_iff : (le : A → A → Bool) (xs : List A) → (sort_by le xs ≡ []) ↔ (xs ≡ [])
  sort_by-eq-nil_iff le xs =
      ground
        (arith, length-eq-zero_iff (sort_by le xs), length-eq-zero_iff xs, length-sort_by le xs)

  pub filter-eq-nil_iff :
      (p : A → Bool) (xs : List A) → (filter p xs ≡ []) ↔ All (λ a. p a ≡ false) xs
  unfolding filter
  filter-eq-nil_iff p [] = ground arith
  filter-eq-nil_iff p (x ∷ xs) = ground (arith, filter-eq-nil_iff p xs)

  pub All-iff : (P : A → Type 0) (xs : List A) → All P xs ↔ ((a : A) → In a xs → P a)
  All-iff P [] = (λ h a i. absurd i, λ h. tt)
  All-iff P (x ∷ xs) = (to (All-iff P xs).0, from (All-iff P xs).1)
    where
      to : (All P xs → (a : A) → In a xs → P a) → All P (x ∷ xs) → (a : A) → In a (x ∷ xs) → P a
      to ih h a (inl e) = rw e h.0
      to ih h a (inr i) = ih h.1 a i

      from :
          (((a : A) → In a xs → P a) → All P xs) → ((a : A) → In a (x ∷ xs) → P a) → All P (x ∷ xs)
      from ih h = (h x (inl refl), ih (λ a i. h a (inr i)))
