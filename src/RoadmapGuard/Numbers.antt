-- ===== src/RoadmapGuard/Numbers.antt =====
-- packages/pipeline-cli/src/tools/roadmap-guard/roadmap-guard.ts: which milestone `byNumber` has for a
-- number.
use kampus_pipeline.Common.{
  ℕ, Bool, ◌≡◌, refl, sym, ap, ◌∙◌, map, of_entries, set, get-set, if◌then◌else◌, ◌≢◌, ◌↔◌, ◌⊎◌,
  inl, inr, true, false, some, List, [], ◌∷◌, arith, ◌==◌, string_eq, nat_eq, In, get,
}
use kampus_pipeline.RoadmapGuard.{Milestone, by_number}

-- The milestone is the last of the list that has the number.
abbrev pub Numbered : ℕ → List Milestone → Milestone → Type 0
Numbered n [] m = ⊥
Numbered n (x ∷ xs) m =
    Numbered n xs m ⊎ ((x ≡ m) × (x.number ≡ n) × ((y : Milestone) → In y xs → y.number ≢ n))

get-of_entries_iff :
    (d : List (ℕ × Milestone)) (xs : List Milestone) (n : ℕ) (m : Milestone)
    → (get n (of_entries d (map (λ (x : Milestone). (x.number, x)) xs)) ≡ some m)
      ↔ (Numbered n xs m ⊎ ((get n d ≡ some m) × ((y : Milestone) → In y xs → y.number ≢ n)))
unfolding of_entries
get-of_entries_iff d [] n m =
    (λ h. inr (h, λ y i. absurd i), λ h. elim h [ inl k ↦ absurd k | inr (e, _) ↦ e ])
get-of_entries_iff d (x ∷ xs) n m =
    first (x.number == n) refl (get-of_entries_iff (set x.number x d) xs n m)
      (get-set x.number n x d)
  where
    none_of :
        x.number ≢ n
        → ((y : Milestone) → In y xs → y.number ≢ n)
        → (y : Milestone) → In y (x ∷ xs)
        → y.number ≢ n
    none_of ne h y (inl q) = rw q ne
    none_of ne h y (inr i) = h y i

    first :
        (b : Bool)
        → (x.number == n) ≡ b
        → (get n (of_entries (set x.number x d) (map (λ (x : Milestone). (x.number, x)) xs))
            ≡ some m)
          ↔ (Numbered n xs m
              ⊎ ((get n (set x.number x d) ≡ some m) × ((y : Milestone) → In y xs → y.number ≢ n)))
        → get n (set x.number x d) ≡ (if b then some x else get n d)
        → (get n (of_entries (set x.number x d) (map (λ (x : Milestone). (x.number, x)) xs))
            ≡ some m)
          ↔ (Numbered n (x ∷ xs) m
              ⊎ ((get n d ≡ some m) × ((y : Milestone) → In y (x ∷ xs) → y.number ≢ n)))
    first true t ih q = (
      λ h. elim (ih.0 h) [
        | inl k ↦ inl (inl k)
        | inr (e, ne) ↦ inl (inr (some-eq (sym q ∙ e), (nat_eq.same_iff x.number n).0 t, ne))
      ],
      λ h. elim h [
        | inl (inl k) ↦ ih.1 (inl k)
        | inl (inr (e, _, ne)) ↦ ih.1 (inr (q ∙ ap some e, ne))
        | inr (_, ne) ↦ absurd (ne x (inl refl) ((nat_eq.same_iff x.number n).0 t))
      ],
    )
      where
        some-eq : {y z : Milestone} → some y ≡ some z → y ≡ z
        some-eq p = ground arith
    first false f ih q = (
      λ h. elim (ih.0 h) [ inl k ↦ inl (inl k) | inr (e, ne) ↦ inr (sym q ∙ e, none_of other ne) ],
      λ h. elim h [
        | inl (inl k) ↦ ih.1 (inl k)
        | inl (inr (_, same, _)) ↦ absurd (other same)
        | inr (e, ne) ↦ ih.1 (inr (q ∙ e, λ y i. ne y (inr i)))
      ],
    )
      where
        other : x.number ≢ n
        other e = ground (arith, nat_eq.same_iff x.number n)

-- What the code finds by a number is the last milestone with it.
pub by_number_iff :
    (milestones : List Milestone) (n : ℕ) (m : Milestone)
    → (get n (by_number milestones) ≡ some m) ↔ Numbered n milestones m
by_number_iff milestones n m = (
  λ h. elim ((get-of_entries_iff [] milestones n m).0 h) [
    | inl k ↦ k
    | inr (e, _) ↦ absurd (no_entry e)
  ],
  λ k. (get-of_entries_iff [] milestones n m).1 (inl k),
)
  where
    no_entry : get n [] ≡ some m → ⊥
    no_entry e = unfold get in cc
