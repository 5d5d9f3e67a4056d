-- ===== src/Common/Maximum.antt =====
-- The last element of a sorted list is a greatest one.
use mathlib.Core.Path.{◌≡◌}
use mathlib.Core.Logic.{inl, inr}
use mathlib.Core.Bool.{Bool, true}
use mathlib.Core.Option.{some}
use mathlib.Core.List.{List, [], ◌∷◌}
use native.Mathlib.Omega.{arith}
use kampus_pipeline.Common.Tests.{Bool-cases}
use kampus_pipeline.Common.Lists.{In, All, last?}
use kampus_pipeline.Common.Sort.{sort_by, insert_by, In-sort_by}
use kampus_pipeline.Common.Minimum.{IsOrder}

pub last-In : {A : Type 0} (xs : List A) (m : A) → last? xs ≡ some m → In m xs
unfolding last?
last-In [] m e = cc
last-In (x ∷ []) m e = inl cc
last-In (x ∷ y ∷ xs) m e = inr (last-In (y ∷ xs) m e)

module _ {A : Type 0} (le : A → A → Bool) (o : IsOrder le) where
  abbrev IsSorted : List A → Type 0
  IsSorted [] = Unit {0}
  IsSorted (x ∷ xs) = All (λ y. le x y ≡ true) xs × IsSorted xs

  insert_by-All :
      (P : A → Type 0) (x : A) (ys : List A) → P x → All P ys → All P (insert_by le x ys)
  unfolding insert_by
  insert_by-All P x [] p h = (p, tt)
  insert_by-All P x (y ∷ ys) p h = elim (Bool-cases (le x y)) [
    | inl t ↦ rw t (p, h)
    | inr f ↦ rw f (h.0, insert_by-All P x ys p h.1)
  ]

  All-trans :
      (x y : A) (ys : List A)
      → le x y ≡ true
      → All (λ z. le y z ≡ true) ys
      → All (λ z. le x z ≡ true) ys
  All-trans x y [] l h = tt
  All-trans x y (z ∷ ys) l h = (o.trans x y z l h.0, All-trans x y ys l h.1)

  insert_by-IsSorted : (x : A) (ys : List A) → IsSorted ys → IsSorted (insert_by le x ys)
  unfolding insert_by
  insert_by-IsSorted x [] h = (tt, tt)
  insert_by-IsSorted x (y ∷ ys) h = elim (Bool-cases (le x y)) [
    | inl t ↦ rw t ((t, All-trans x y ys t h.0), h)
    | inr f ↦
        rw f
          (insert_by-All (λ z. le y z ≡ true) x ys (o.total x y f) h.0, insert_by-IsSorted x ys h.1)
  ]

  sort_by-IsSorted : (xs : List A) → IsSorted (sort_by le xs)
  unfolding sort_by
  sort_by-IsSorted [] = tt
  sort_by-IsSorted (x ∷ xs) = insert_by-IsSorted x (sort_by le xs) (sort_by-IsSorted xs)

  reflexive : (a : A) → le a a ≡ true
  reflexive a = ground (arith, o.total a a)

  of_All : (P : A → Type 0) (xs : List A) (m : A) → All P xs → In m xs → P m
  of_All P [] m h i = absurd i
  of_All P (x ∷ xs) m h (inl e) = rw e h.0
  of_All P (x ∷ xs) m h (inr i) = of_All P xs m h.1 i

  last-greatest :
      (xs : List A) (m a : A) → IsSorted xs → last? xs ≡ some m → In a xs → le a m ≡ true
  unfolding last?
  last-greatest [] m a h e i = absurd i
  last-greatest (x ∷ []) m a h e (inl s) = let q : m ≡ a = cc in rw q (reflexive a)
  last-greatest (x ∷ []) m a h e (inr i) = absurd i
  last-greatest (x ∷ y ∷ xs) m a h e (inl s) =
      rw s (of_All (λ z. le x z ≡ true) (y ∷ xs) m h.0 (last-In (y ∷ xs) m e))
  last-greatest (x ∷ y ∷ xs) m a h e (inr i) = last-greatest (y ∷ xs) m a h.1 e i

  pub last-sort_by-greatest :
      (xs : List A) (m a : A) → last? (sort_by le xs) ≡ some m → In a xs → le a m ≡ true
  last-sort_by-greatest xs m a e i =
      last-greatest (sort_by le xs) m a (sort_by-IsSorted xs) e ((In-sort_by le a xs).1 i)
