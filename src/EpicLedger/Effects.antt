-- ===== src/EpicLedger/Effects.antt =====
-- The effects that the gate and the loop run: an effect takes the world to a result and the world
-- after it. `Github` is the capability of epic-ledger/github.ts and `RePlanner` that of loop.ts, of
-- which the two files use only what stands here.
use kampus_pipeline.Common.{ℕ, String, List, [], ◌∷◌, ◌≡◌, refl}
use kampus_pipeline.EpicLedger.Ledger.{EpicLedger}

pub data Result (E A : Type 0) : Type 0 where
  ok : A → Result E A
  err : E → Result E A

abbrev pub Io : Type 0 → Type 0 → Type 0 → Type 0
Io W E A = W → Result E A × W

module _ {W E : Type 0} where
  abbrev pub return : {A : Type 0} → A → Io W E A
  return a w = (ok a, w)

  abbrev pub then_with : {A B : Type 0} → (A → Io W E B) → Result E A × W → Result E B × W
  then_with f (ok a, w) = f a w
  then_with f (err e, w) = (err e, w)

  infixl 5 ◌>>=◌ ◌>>◌
  abbrev pub ◌>>=◌ : {A B : Type 0} → Io W E A → (A → Io W E B) → Io W E B
  ◌>>=◌ m f w = then_with f (m w)

  abbrev pub ◌>>◌ : {B : Type 0} → Io W E (Unit {0}) → Io W E B → Io W E B
  m >> k = m >>= λ _. k

  -- `Effect.forEach(xs, f, {discard: true})`, in the order of the list.
  unfoldable pub for_each : {A : Type 0} → (A → Io W E (Unit {0})) → List A → Io W E (Unit {0})
  for_each f [] w = (ok tt, w)
  for_each f (x ∷ xs) w = then_with (λ _. for_each f xs) (f x w)

pub record Github (W E : Type 0) : Type 0 where
  pub epic_ledger : ℕ → Io W E EpicLedger
  pub flip_child_to_triaged : ℕ → Io W E (Unit {0})
  pub post_comment : ℕ → String → Io W E (Unit {0})
  pub park_needs_info : ℕ → Io W E (Unit {0})

pub record RePlanner (W E : Type 0) : Type 0 where
  pub re_plan : ℕ → Io W E (Unit {0})

-- What holds of the value that an effect returns, if it succeeds.
abbrev pub Yields : {W E A : Type 0} → (A → Type 0) → Result E A × W → Type 0
Yields P (ok a, w) = P a
Yields P (err e, w) = Unit {0}

pub then_with-Yields :
    {W E A B : Type 0} (P : B → Type 0) (f : A → Io W E B) (x : Result E A × W)
    → ((a : A) (w : W) → x ≡ (ok a, w) → Yields P (f a w))
    → Yields P (then_with f x)
then_with-Yields P f (ok a, w) h = h a w refl
then_with-Yields P f (err e, w) h = tt

pub Yields-map :
    {W E A : Type 0} (P Q : A → Type 0) (x : Result E A × W)
    → ((a : A) → P a → Q a)
    → Yields P x
    → Yields Q x
Yields-map P Q (ok a, w) h p = h a p
Yields-map P Q (err e, w) h p = tt
