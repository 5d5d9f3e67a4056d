-- ===== src/Common/TextOrder.antt =====
-- `<` on texts is a strict order, and texts that it leaves in either order have equal code units.
use Prim.Native.Nat.{ℕ}
use Prim.Native.String.{String}
use mathlib.Core.Path.{◌≡◌, refl}
use mathlib.Core.Bool.{true, false}
use mathlib.Core.List.{List, [], ◌∷◌}
use native.Mathlib.Omega.{arith}
use kampus_pipeline.Common.Text.{units, units_lt, text_lt}

units_lt_asym : (xs ys : List ℕ) → units_lt xs ys ≡ true → units_lt ys xs ≡ false
unfolding units_lt
units_lt_asym [] [] h = refl
units_lt_asym [] (y ∷ ys) h = refl
units_lt_asym (x ∷ xs) [] h = cc
units_lt_asym (x ∷ xs) (y ∷ ys) h = ground (arith, units_lt_asym xs ys)

units_lt_tie : (xs ys : List ℕ) → units_lt xs ys ≡ false → units_lt ys xs ≡ false → xs ≡ ys
unfolding units_lt
units_lt_tie [] [] h k = refl
units_lt_tie [] (y ∷ ys) h k = cc
units_lt_tie (x ∷ xs) [] h k = cc
units_lt_tie (x ∷ xs) (y ∷ ys) h k = ground (arith, units_lt_tie xs ys)

units_lt_trans :
    (xs ys zs : List ℕ) → units_lt xs ys ≡ true → units_lt ys zs ≡ true → units_lt xs zs ≡ true
unfolding units_lt
units_lt_trans [] [] zs h k = cc
units_lt_trans [] (y ∷ ys) [] h k = cc
units_lt_trans [] (y ∷ ys) (z ∷ zs) h k = refl
units_lt_trans (x ∷ xs) [] zs h k = cc
units_lt_trans (x ∷ xs) (y ∷ ys) [] h k = cc
units_lt_trans (x ∷ xs) (y ∷ ys) (z ∷ zs) h k = ground (arith, units_lt_trans xs ys zs)

pub text_lt_asym : (a b : String) → text_lt a b ≡ true → text_lt b a ≡ false
unfolding text_lt
text_lt_asym a b h = units_lt_asym (units a) (units b) h

pub text_lt_tie : (a b : String) → text_lt a b ≡ false → text_lt b a ≡ false → units a ≡ units b
unfolding text_lt
text_lt_tie a b h k = units_lt_tie (units a) (units b) h k

pub text_lt_trans : (a b c : String) → text_lt a b ≡ true → text_lt b c ≡ true → text_lt a c ≡ true
unfolding text_lt
text_lt_trans a b c h k = units_lt_trans (units a) (units b) (units c) h k

pub text_lt_of_units :
    (a b c d : String) → units a ≡ units b → units c ≡ units d → text_lt a c ≡ text_lt b d
unfolding text_lt
text_lt_of_units a b c d h k = cc
