-- ===== src/Common/Text/Decimal.antt =====
-- Numbers in decimal, put together with dots, are read back.
use Prim.Native.Nat.{ℕ, zero, suc, ◌+◌, ◌*◌, ◌-◌, ◌/◌, ◌%◌, ◌<◌}
use Prim.Native.Char.{code}
use Prim.Native.String.{String}
use Prim.Native.String.append.{nil, cons}
use text.Mathlib.TextLemmas.{append_assoc, append-nil}
use mathlib.Core.Path.{◌≡◌, refl, sym, ap, ◌∙◌}
use mathlib.Core.Bool.{Bool, true, false}
use mathlib.Core.List.{List, [], ◌∷◌, map}
use native.Mathlib.Omega.{arith}
use mathlib.Core.Option.{Option, none, some}
use kampus_pipeline.Common.Tests.{ltb, nat_beq, if◌then◌else◌}
use kampus_pipeline.Common.Text.{digit, digits_from, show, join, ◌&◌}

-- The digits read so far, as a number.
abbrev so_far : Option ℕ → ℕ
so_far none = 0
so_far (some n) = n

-- The numbers of a text of digits and dots, after digits that are read.
unfoldable numbers : Option ℕ → String → List ℕ
numbers none String.[] = []
numbers (some n) String.[] = n ∷ []
numbers o (String.◌∷◌ c s) =
    let digits = numbers (some (so_far o * 10 + (code c - 48))) s in
    let others = numbers none s in if nat_beq (code c) 46 then so_far o ∷ others else digits

numbers-digit :
    (o : Option ℕ) (d : ℕ) (tail : String)
    → d < 10
    → numbers o (digit d & tail) ≡ numbers (some (so_far o * 10 + d)) tail
unfolding numbers
numbers-digit o zero tail h = rw (cons, nil) refl
numbers-digit o (suc zero) tail h = rw (cons, nil) refl
numbers-digit o (suc (suc zero)) tail h = rw (cons, nil) refl
numbers-digit o (suc (suc (suc zero))) tail h = rw (cons, nil) refl
numbers-digit o (suc (suc (suc (suc zero)))) tail h = rw (cons, nil) refl
numbers-digit o (suc (suc (suc (suc (suc zero))))) tail h = rw (cons, nil) refl
numbers-digit o (suc (suc (suc (suc (suc (suc zero)))))) tail h = rw (cons, nil) refl
numbers-digit o (suc (suc (suc (suc (suc (suc (suc zero))))))) tail h = rw (cons, nil) refl
numbers-digit o (suc (suc (suc (suc (suc (suc (suc (suc zero)))))))) tail h = rw (cons, nil) refl
numbers-digit o (suc (suc (suc (suc (suc (suc (suc (suc (suc zero))))))))) tail h =
    rw (cons, nil) refl
numbers-digit o (suc (suc (suc (suc (suc (suc (suc (suc (suc (suc d)))))))))) tail h =
    absurd (omega (arith, h))

-- A number of several digits is read as it is, whatever comes after.
numbers-digits_from :
    (fuel n : ℕ) (tail : String)
    → n < fuel
    → numbers none (digits_from fuel n tail) ≡ numbers (some n) tail
unfolding digits_from
numbers-digits_from zero n tail h = absurd (omega (arith, h))
numbers-digits_from (suc fuel) n tail h =
    by_size (ltb n 10) refl (λ g. numbers-digits_from fuel (n / 10) (digit (n % 10) & tail) g)
  where
    by_size :
        (b : Bool)
        → ltb n 10 ≡ b
        → (n / 10 < fuel
            → numbers none (digits_from fuel (n / 10) (digit (n % 10) & tail))
              ≡ numbers (some (n / 10)) (digit (n % 10) & tail))
        → numbers none
            (if b then digit n & tail else digits_from fuel (n / 10) (digit (n % 10) & tail))
          ≡ numbers (some n) tail
    by_size true q ih =
        numbers-digit none n tail (ground arith) ∙ ap (λ m. numbers (some m) tail) (omega arith)
    by_size false q ih =
        let big : 10 < suc n = ground arith in
        ih (omega (arith, h, big))
        ∙ numbers-digit (some (n / 10)) (n % 10) tail (omega arith)
        ∙ ap (λ m. numbers (some m) tail) (omega arith)

digits_from-append :
    (fuel n : ℕ) (tail more : String)
    → digits_from fuel n tail & more ≡ digits_from fuel n (tail & more)
unfolding digits_from
digits_from-append zero n tail more = refl
digits_from-append (suc fuel) n tail more =
    by_size (ltb n 10) (digits_from-append fuel (n / 10) (digit (n % 10) & tail) more)
  where
    by_size :
        (b : Bool)
        → digits_from fuel (n / 10) (digit (n % 10) & tail) & more
          ≡ digits_from fuel (n / 10) ((digit (n % 10) & tail) & more)
        → (if b then digit n & tail else digits_from fuel (n / 10) (digit (n % 10) & tail)) & more
          ≡ (if b
              then digit n & (tail & more)
              else digits_from fuel (n / 10) (digit (n % 10) & (tail & more)))
    by_size true ih = append_assoc (digit n) tail more
    by_size false ih =
        ih ∙ ap (λ t. digits_from fuel (n / 10) t) (append_assoc (digit (n % 10)) tail more)

numbers-show : (n : ℕ) (more : String) → numbers none (show n & more) ≡ numbers (some n) more
unfolding show
numbers-show n more =
    rw (digits_from-append (suc n) n "" more, nil)
      (numbers-digits_from (suc n) n more (omega arith))

numbers-dot : (n : ℕ) (more : String) → numbers (some n) ("." & more) ≡ n ∷ numbers none more
unfolding numbers
numbers-dot n more = rw (cons, nil) refl

numbers-join : (ns : List ℕ) → numbers none (join "." (map show ns)) ≡ ns
unfolding join
numbers-join [] = unfold numbers in refl
numbers-join (n ∷ []) =
    ap (λ t. numbers none t) (sym (append-nil (show n)))
    ∙ numbers-show n ""
    ∙ (unfold numbers in refl)
numbers-join (n ∷ m ∷ ns) =
    numbers-show n ("." & join "." (map show (m ∷ ns)))
    ∙ numbers-dot n (join "." (map show (m ∷ ns)))
    ∙ ap (λ ks. n ∷ ks) (numbers-join (m ∷ ns))

-- Two lists of numbers that are written alike are one.
pub join-show_inj : (ns ms : List ℕ) → join "." (map show ns) ≡ join "." (map show ms) → ns ≡ ms
join-show_inj ns ms e = sym (numbers-join ns) ∙ ap (λ t. numbers none t) e ∙ numbers-join ms
