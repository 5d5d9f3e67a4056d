-- ===== src/Common/Equality.antt =====
-- Types whose values the program compares with `===`.
use Prim.Native.Nat.{ℕ}
use Prim.Native.String.{String}
use mathlib.Core.Path.{◌≡◌, refl}
use mathlib.Core.Logic.{◌↔◌, ◌≢◌, inl, inr}
use mathlib.Core.Bool.{Bool, true, false, ◌||◌}
use mathlib.Core.List.{List, [], ◌∷◌}
use native.Mathlib.Omega.{arith}
use text.Mathlib.Text.{◌==◌ as str_eq}
use text.Mathlib.TextEquality.{eq_iff}
use kampus_pipeline.Common.Tests.{nat_beq, nat_beq_iff, if◌then◌else◌, Bool-cases}
use kampus_pipeline.Common.Lists.{filter, In, In-filter}

-- `===` on the values of a type, where it holds of equal values only.
pub record Same {ℓ} (A : Type ℓ) : Type ℓ where
  pub same : A → A → Bool
  pub same_iff : (x y : A) → (same x y ≡ true) ↔ (x ≡ y)

instance abbrev pub string_eq : Same String
string_eq = record { same = str_eq; same_iff = eq_iff }

instance abbrev pub nat_eq : Same ℕ
nat_eq = record { same = nat_beq; same_iff = nat_beq_iff }

infix 50 ◌==◌
abbrev pub ◌==◌ {ℓ} : {A : Type ℓ} ⦃e : Same A⦄ → A → A → Bool
◌==◌ ⦃e⦄ = e.same

module _ {ℓ} {A : Type ℓ} ⦃e : Same A⦄ where
  pub beq_refl : (a : A) → (a == a) ≡ true
  beq_refl a = (e.same_iff a a).1 refl

  pub beq_of_ne : (a b : A) → a ≢ b → (a == b) ≡ false
  beq_of_ne a b h = elim (Bool-cases (a == b)) [
    | inl t ↦ absurd (h ((e.same_iff a b).0 t))
    | inr f ↦ f
  ]

  -- `xs.includes(a)`, and `has` on a set made from `xs`.
  unfoldable pub contains : List A → A → Bool
  contains [] a = false
  contains (x ∷ xs) a = a == x || contains xs a

  -- `[...new Set(xs)]`: the first of each group of equal values, in order.
  unfoldable pub distinct : List A → List A
  distinct [] = []
  distinct (x ∷ xs) = x ∷ filter (λ y. if y == x then false else true) (distinct xs)

module _ {A : Type 0} ⦃e : Same A⦄ where
  pub contains_iff : (xs : List A) (a : A) → (contains xs a ≡ true) ↔ In a xs
  unfolding contains
  contains_iff [] a = ground arith
  contains_iff (x ∷ xs) a = ground (arith, e.same_iff a x, contains_iff xs a)

  pub In-distinct : (a : A) (xs : List A) → In a (distinct xs) ↔ In a xs
  unfolding distinct
  In-distinct a [] = ground arith
  In-distinct a (x ∷ xs) = ground (
    arith,
    In-distinct a xs,
    In-filter (λ (y : A). if y == x then false else true) a (distinct xs),
    e.same_iff a x,
  )

-- A type with such a test has decidable equality, so it is a set.
pub Same-discrete : {A : Type 0} → Same A → Discrete A
Same-discrete e a b = elim (Bool-cases (e.same a b)) [
  | inl t ↦ yes ((e.same_iff a b).0 t)
  | inr f ↦ no (λ p. cc ((e.same_iff a b).1 p))
]

pub String-discrete : Discrete String
String-discrete = Same-discrete string_eq
