-- ===== src/Common/Lists.antt =====
-- Lists measured by native numbers and filtered by Boolean tests, and membership by recursion.
use Prim.Native.Nat.{ℕ, suc, ◌+◌}
use mathlib.Core.Path.{◌≡◌, refl, ap, ◌∙◌}
use mathlib.Core.Logic.{◌⊎◌, ◌↔◌, inl, inr}
use mathlib.Core.Bool.{Bool, true, false, ◌||◌}
use mathlib.Core.Option.{Option, none, some}
use mathlib.Core.List.{List, [], ◌∷◌, ◌++◌, map}
use native.Mathlib.Omega.{arith}
use kampus_pipeline.Common.Tests.{if◌then◌else◌, Bool-cases}

module _ {ℓ} {A : Type ℓ} where
  abbrev pub length : List A → ℕ
  length [] = 0
  length (x ∷ xs) = suc (length xs)

  unfoldable pub filter : (A → Bool) → List A → List A
  filter p [] = []
  filter p (x ∷ xs) = let rest = filter p xs in if p x then x ∷ rest else rest

  unfoldable pub any : (A → Bool) → List A → Bool
  any p [] = false
  any p (x ∷ xs) = p x || any p xs

  unfoldable pub find : (A → Bool) → List A → Option A
  find p [] = none
  find p (x ∷ xs) = let rest = find p xs in if p x then some x else rest

  abbrev pub head? : List A → Option A
  head? [] = none
  head? (x ∷ xs) = some x

  unfoldable pub last? : List A → Option A
  last? [] = none
  last? (x ∷ []) = some x
  last? (x ∷ y ∷ xs) = last? (y ∷ xs)

  pub length-append : (xs ys : List A) → length (xs ++ ys) ≡ length xs + length ys
  length-append [] ys = omega arith
  length-append (x ∷ xs) ys = omega (arith, length-append xs ys)

  pub filter_of_true :
      (p : A → Bool) (x : A) (xs : List A) → p x ≡ true → filter p (x ∷ xs) ≡ x ∷ filter p xs
  unfolding filter
  filter_of_true p x xs h = rw h

  pub filter_of_false :
      (p : A → Bool) (x : A) (xs : List A) → p x ≡ false → filter p (x ∷ xs) ≡ filter p xs
  unfolding filter
  filter_of_false p x xs h = rw h

  pub filter-append :
      (p : A → Bool) (xs ys : List A) → filter p (xs ++ ys) ≡ filter p xs ++ filter p ys
  unfolding filter
  filter-append p [] ys = refl
  filter-append p (x ∷ xs) ys = elim (Bool-cases (p x)) [
    | inl t ↦ rw (t, filter-append p xs ys)
    | inr f ↦ rw (f, filter-append p xs ys)
  ]

module _ {A : Type 0} where
  -- `a` is an element of the list.
  abbrev pub In : A → List A → Type 0
  In a [] = ⊥
  In a (x ∷ xs) = (a ≡ x) ⊎ In a xs

  -- Every element of the list has the property.
  abbrev pub All : (A → Type 0) → List A → Type 0
  All P [] = Unit {0}
  All P (x ∷ xs) = P x × All P xs

  pub In-append : (a : A) (xs ys : List A) → In a (xs ++ ys) ↔ (In a xs ⊎ In a ys)
  In-append a [] ys = ground arith
  In-append a (x ∷ xs) ys = ground (arith, In-append a xs ys)

  pub In-filter :
      (p : A → Bool) (a : A) (xs : List A) → In a (filter p xs) ↔ (In a xs × (p a ≡ true))
  unfolding filter
  In-filter p a [] = ground arith
  In-filter p a (x ∷ xs) = ground (arith, In-filter p a xs)

  pub any_iff :
      (p : A → Bool) (xs : List A) → (any p xs ≡ true) ↔ ((a : A) × In a xs × (p a ≡ true))
  unfolding any
  any_iff p [] = (λ h. cc, λ w. absurd w.1)
  any_iff p (x ∷ xs) = (to (any_iff p xs), from (any_iff p xs))
    where
      to :
          ((any p xs ≡ true) ↔ ((a : A) × In a xs × (p a ≡ true)))
          → any p (x ∷ xs) ≡ true
          → (a : A) × In a (x ∷ xs) × (p a ≡ true)
      to ih h = elim (Bool-cases (p x)) [
        | inl t ↦ (x, inl refl, t)
        | inr f ↦ let (a, m, q) = ih.0 (rw f at h) in (a, inr m, q)
      ]

      from :
          ((any p xs ≡ true) ↔ ((a : A) × In a xs × (p a ≡ true)))
          → ((a : A) × In a (x ∷ xs) × (p a ≡ true))
          → any p (x ∷ xs) ≡ true
      from ih (a, inl e, q) = ground arith
      from ih (a, inr m, q) = let r : any p xs ≡ true = ih.1 (a, m, q) in ground arith

  pub find-eq-none_iff :
      (p : A → Bool) (xs : List A) → (find p xs ≡ none) ↔ All (λ a. p a ≡ false) xs
  unfolding find
  find-eq-none_iff p [] = ground arith
  find-eq-none_iff p (x ∷ xs) = ground (arith, find-eq-none_iff p xs)

module _ {A B : Type 0} where
  pub In-map : (f : A → B) (b : B) (xs : List A) → In b (map f xs) ↔ ((a : A) × In a xs × (b ≡ f a))
  In-map f b [] = (λ h. absurd h, λ w. absurd w.1)
  In-map f b (x ∷ xs) = (to (In-map f b xs), from (In-map f b xs))
    where
      to :
          (In b (map f xs) ↔ ((a : A) × In a xs × (b ≡ f a)))
          → In b (map f (x ∷ xs))
          → (a : A) × In a (x ∷ xs) × (b ≡ f a)
      to ih (inl e) = (x, inl refl, e)
      to ih (inr m) = let (a, k, e) = ih.0 m in (a, inr k, e)

      from :
          (In b (map f xs) ↔ ((a : A) × In a xs × (b ≡ f a)))
          → ((a : A) × In a (x ∷ xs) × (b ≡ f a))
          → In b (map f (x ∷ xs))
      from ih (a, inl e, q) = inl (q ∙ ap f e)
      from ih (a, inr m, q) = inr (ih.1 (a, m, q))
