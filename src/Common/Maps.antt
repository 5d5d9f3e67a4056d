-- ===== src/Common/Maps.antt =====
-- `Map` of the language: entries in the order in which their keys were first set.
use mathlib.Core.Path.{◌≡◌, refl}
use mathlib.Core.Logic.{◌≢◌, inl, inr}
use mathlib.Core.Option.{Option, none, some}
use mathlib.Core.List.{List, [], ◌∷◌}
use native.Mathlib.Omega.{arith}
use kampus_pipeline.Common.Tests.{if◌then◌else◌, Bool-cases}
use kampus_pipeline.Common.Lists.{In}
use kampus_pipeline.Common.Equality.{Same, ◌==◌}

abbrev pub Dict : Type 0 → Type 0 → Type 0
Dict K V = List (K × V)

module _ {K V : Type 0} ⦃e : Same K⦄ where
  unfoldable pub get : K → Dict K V → Option V
  get k [] = none
  get k ((j, v) ∷ m) = let rest = get k m in if j == k then some v else rest

  unfoldable pub set : K → V → Dict K V → Dict K V
  set k v [] = (k, v) ∷ []
  set k v ((j, w) ∷ m) = let rest = set k v m in if j == k then (j, v) ∷ m else (j, w) ∷ rest

  unfoldable pub delete : K → Dict K V → Dict K V
  delete k [] = []
  delete k ((j, w) ∷ m) = let rest = delete k m in if j == k then rest else (j, w) ∷ rest

  -- `new Map(entries)`: a later entry for a key replaces the value of an earlier one.
  unfoldable pub of_entries : Dict K V → List (K × V) → Dict K V
  of_entries m [] = m
  of_entries m ((k, v) ∷ es) = of_entries (set k v m) es

  pub get-set :
      (k j : K) (v : V) (m : Dict K V) → get j (set k v m) ≡ (if k == j then some v else get j m)
  unfolding get set
  get-set k j v [] = refl
  get-set k j v ((i, w) ∷ m) =
      ground (arith, e.same_iff k j, e.same_iff i k, e.same_iff i j, get-set k j v m)

  pub get-delete :
      (k j : K) (m : Dict K V) → get j (delete k m) ≡ (if k == j then none else get j m)
  unfolding get delete
  get-delete k j [] = ground arith
  get-delete k j ((i, w) ∷ m) =
      ground (arith, e.same_iff k j, e.same_iff i k, e.same_iff i j, get-delete k j m)

  -- No two entries have one key.
  abbrev pub IsKeyed : Dict K V → Type 0
  IsKeyed [] = Unit {0}
  IsKeyed ((k, v) ∷ m) = (get k m ≡ none) × IsKeyed m

  pub set-IsKeyed : (k : K) (v : V) (m : Dict K V) → IsKeyed m → IsKeyed (set k v m)
  unfolding set get
  set-IsKeyed k v [] h = (refl, tt)
  set-IsKeyed k v ((i, w) ∷ m) h =
      ground (arith, e.same_iff i k, e.same_iff k i, get-set k i v m, set-IsKeyed k v m h.1)

  pub delete-IsKeyed : (k : K) (m : Dict K V) → IsKeyed m → IsKeyed (delete k m)
  unfolding delete
  delete-IsKeyed k [] h = tt
  delete-IsKeyed k ((i, w) ∷ m) h =
      ground (arith, e.same_iff k i, get-delete k i m, delete-IsKeyed k m h.1)

  -- In a dictionary without repeated keys the entries are what `get` finds.
  pub In-of_get : (k : K) (v : V) (m : Dict K V) → get k m ≡ some v → In (k, v) m
  unfolding get
  In-of_get k v ((i, w) ∷ m) h = elim (Bool-cases (i == k)) [
    | inl same ↦ inl (ground (arith, e.same_iff i k))
    | inr other ↦ inr (In-of_get k v m (rw other at h))
  ]
  In-of_get k v [] h = cc

  pub get-ne-none : (k : K) (v : V) (m : Dict K V) → In (k, v) m → get k m ≢ none
  unfolding get
  get-ne-none k v [] h = absurd h
  get-ne-none k v ((i, w) ∷ m) (inl s) = ground (arith, e.same_iff i k)
  get-ne-none k v ((i, w) ∷ m) (inr s) = ground (arith, get-ne-none k v m s)

  pub get-of_In : (k : K) (v : V) (m : Dict K V) → IsKeyed m → In (k, v) m → get k m ≡ some v
  unfolding get
  get-of_In k v [] h i = absurd i
  get-of_In k v ((i, w) ∷ m) h (inl s) = ground (arith, e.same_iff i k)
  get-of_In k v ((i, w) ∷ m) h (inr s) =
      ground (arith, e.same_iff i k, get-of_In k v m h.1 s, get-ne-none k v m s)
