-- ===== src/Common/Permutation.antt =====
-- Sorting by a key forgets the order of the input, where a key decides its element.
use Prim.Native.Nat.{ℕ}
use mathlib.Core.Path.{◌≡◌, refl, ap, ◌∙◌}
use mathlib.Core.Logic.{◌↔◌, inl, inr}
use mathlib.Core.Bool.{Bool, true, false}
use mathlib.Core.List.Permᴰ
use mathlib.Core.List.{List, [], ◌∷◌, map, Permᴰ}
use native.Mathlib.Omega.{arith}
use kampus_pipeline.Common.Tests.{if◌then◌else◌, leb}
use kampus_pipeline.Common.Lists.{In, filter}
use kampus_pipeline.Common.Sort.{sort_by, insert_by}

module _ {A : Type 0} where
  pub In-permᴰ : {xs ys : List A} (a : A) → Permᴰ xs ys → In a xs ↔ In a ys
  In-permᴰ a Permᴰ.nil = ground arith
  In-permᴰ a (Permᴰ.cons e p) = ground (arith, In-permᴰ a p)
  In-permᴰ a (Permᴰ.swap e f) = ground arith
  In-permᴰ a (Permᴰ.trans p q) = ground (arith, In-permᴰ a p, In-permᴰ a q)

  pub filter-permᴰ :
      {xs ys : List A} (p : A → Bool) → Permᴰ xs ys → Permᴰ (filter p xs) (filter p ys)
  unfolding filter
  filter-permᴰ p Permᴰ.nil = Permᴰ.nil
  filter-permᴰ p (Permᴰ.cons {a} {b} {l₁} {l₂} e q) = rw e (keep (p b) (filter-permᴰ p q))
    where
      keep :
          (t : Bool)
          → Permᴰ (filter p l₁) (filter p l₂)
          → Permᴰ
              (if t then b ∷ filter p l₁ else filter p l₁)
              (if t then b ∷ filter p l₂ else filter p l₂)
      keep true r = Permᴰ.cons refl r
      keep false r = r
  filter-permᴰ p (Permᴰ.swap {a} {b} {a'} {b'} {l} e f) = rw (e, f) (keep (p b') (p a'))
    where
      keep :
          (t u : Bool)
          → Permᴰ
              (if t
                then b' ∷ (if u then a' ∷ filter p l else filter p l)
                else (if u then a' ∷ filter p l else filter p l))
              (if u
                then a' ∷ (if t then b' ∷ filter p l else filter p l)
                else (if t then b' ∷ filter p l else filter p l))
      keep true true = Permᴰ.swap refl refl
      keep true false = Permᴰ.refl _
      keep false true = Permᴰ.refl _
      keep false false = Permᴰ.refl _
  filter-permᴰ p (Permᴰ.trans q r) = Permᴰ.trans (filter-permᴰ p q) (filter-permᴰ p r)

  pub map-permᴰ :
      {B : Type 0} {xs ys : List A} (f : A → B) → Permᴰ xs ys → Permᴰ (map f xs) (map f ys)
  map-permᴰ f Permᴰ.nil = Permᴰ.nil
  map-permᴰ f (Permᴰ.cons e q) = Permᴰ.cons (ap f e) (map-permᴰ f q)
  map-permᴰ f (Permᴰ.swap e g) = Permᴰ.swap (ap f e) (ap f g)
  map-permᴰ f (Permᴰ.trans q r) = Permᴰ.trans (map-permᴰ f q) (map-permᴰ f r)

module _ {A : Type 0} (key : A → ℕ) where
  abbrev pub by_key : A → A → Bool
  by_key a b = leb (key a) (key b)

  -- Two elements of the list with one key are equal.
  abbrev pub KeyDecides : List A → Type 0
  KeyDecides xs = (a b : A) → In a xs → In b xs → key a ≡ key b → a ≡ b

  insert_by_comm :
      (x y : A) (s : List A)
      → (key x ≡ key y → x ≡ y)
      → insert_by by_key x (insert_by by_key y s) ≡ insert_by by_key y (insert_by by_key x s)
  unfolding insert_by
  insert_by_comm x y [] h = ground arith
  insert_by_comm x y (z ∷ s) h = ground (arith, insert_by_comm x y s h)

  -- A permuted list is sorted to the same list.
  pub sort_by-permᴰ :
      {xs ys : List A} → Permᴰ xs ys → KeyDecides xs → sort_by by_key xs ≡ sort_by by_key ys
  unfolding sort_by
  sort_by-permᴰ Permᴰ.nil k = refl
  sort_by-permᴰ (Permᴰ.cons {a} {b} {l₁} {l₂} e p) k =
      rw (e, sort_by-permᴰ p (λ c d i j. k c d (inr i) (inr j)))
  sort_by-permᴰ (Permᴰ.swap {a} {b} {a'} {b'} {l} e f) k =
      rw (← e, ← f) (insert_by_comm a b (sort_by by_key l) (k a b (inl refl) (inr (inl refl))))
  sort_by-permᴰ (Permᴰ.trans p q) k =
      sort_by-permᴰ p k
      ∙ sort_by-permᴰ q (λ c d i j. k c d ((In-permᴰ c p).1 i) ((In-permᴰ d p).1 j))
