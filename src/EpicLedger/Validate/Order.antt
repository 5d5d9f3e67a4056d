-- ===== src/EpicLedger/Validate/Order.antt =====
-- The findings do not depend on the order in which the children are presented.
use mathlib.Core.Path.{fun_ext}
use mathlib.Core.Logic.{∥∥₁_elim}
use mathlib.Core.List.{Permᴰ, Perm}
use mathlib.Core.HLevel.{hedberg}
use native.Mathlib.Decide.{ℕ_discrete}
use kampus_pipeline.Common.{
  String-discrete, ℕ, ◌≡◌, ap, ◌↔◌, not, List, [], ◌++◌, map, arith, ◌==◌, nat_eq, string_eq,
  filter, contains, contains_iff, distinct, sort, In, sort_by, In-append, ◌&&◌,
}
use kampus_pipeline.Common.Permutation.{
  KeyDecides, sort_by-permᴰ, filter-permᴰ, map-permᴰ, In-permᴰ,
}
use kampus_pipeline.EpicLedger.Ledger.{ChildIssue, EpicLedger, Defect}
use kampus_pipeline.EpicLedger.Validate.{
  findings, validate_ledger, ledger_signature, not_after, covered, uncovered, orphans,
  orphan_defects, dangling_refs, stories_of,
}

contains_ext : (xs ys : List ℕ) → ((n : ℕ) → In n xs ↔ In n ys) → contains xs ≡ contains ys
contains_ext xs ys h = fun_ext (λ n. ground (arith, h n, contains_iff xs n, contains_iff ys n))

nil-permᴰ : {xs ys : List ChildIssue} → Permᴰ xs ys → (xs ≡ []) ↔ (ys ≡ [])
nil-permᴰ Permᴰ.nil = ground arith
nil-permᴰ (Permᴰ.cons e p) = ground arith
nil-permᴰ (Permᴰ.swap e f) = ground arith
nil-permᴰ (Permᴰ.trans p q) = ground (arith, nil-permᴰ p, nil-permᴰ q)

Defects-set : IsSet (List Defect)
Defects-set = hedberg (hlevel (String-discrete, ℕ_discrete))

covered-permᴰ :
    {xs ys : List ChildIssue} (s : ℕ) → Permᴰ xs ys → In s (covered xs) ↔ In s (covered ys)
unfolding covered
covered-permᴰ s Permᴰ.nil = ground arith
covered-permᴰ s (Permᴰ.cons {a} {b} {l₁} {l₂} e p) = rw e (
    ground (
      arith,
      covered-permᴰ s p,
      In-append s (stories_of b) (covered l₁),
      In-append s (stories_of b) (covered l₂),
    ))
covered-permᴰ s (Permᴰ.swap {a} {b} {a'} {b'} {l} e f) =
    rw (e, f)
      (ground (
        arith,
        In-append s (stories_of b') (stories_of a' ++ covered l),
        In-append s (stories_of a') (stories_of b' ++ covered l),
        In-append s (stories_of b') (covered l),
        In-append s (stories_of a') (covered l),
      ))
covered-permᴰ s (Permᴰ.trans p q) = ground (arith, covered-permᴰ s p, covered-permᴰ s q)

module _ (l : EpicLedger) (children : List ChildIssue) (p : Permᴰ l.children children) where
  abbrev permuted : EpicLedger
  permuted = record l { children = children }

  dangling_refs-permuted : dangling_refs l ≡ dangling_refs permuted
  unfolding dangling_refs
  dangling_refs-permuted =
      let number = λ (c : ChildIssue). c.number in
      let same : contains (map number l.children) ≡ contains (map number children) =
        contains_ext _ _ (λ n. In-permᴰ n (map-permᴰ number p)) in
      ap
        (λ has. sort (
          filter (λ n. not (n == l.epic.number) && not (has n) && not (contains l.external_refs n))
            (distinct l.epic.dependencies.nodes)))
        same

  orphans-permuted : orphans l ≡ orphans permuted
  unfolding orphans
  orphans-permuted = sort_by-permᴰ (λ n. n) (map-permᴰ _ (filter-permᴰ _ p)) (λ a b i j e. e)

  uncovered-permuted : uncovered l ≡ uncovered permuted
  unfolding uncovered
  uncovered-permuted =
      ap (λ has. sort (filter (λ s. not (has s)) (distinct l.epic.stories)))
        (contains_ext _ _ (λ s. covered-permᴰ s p))

  findings-permuted :
      KeyDecides (λ (c : ChildIssue). c.number) l.children → findings l ≡ findings permuted
  unfolding findings orphan_defects
  findings-permuted k = rw (
    dangling_refs-permuted,
    orphans-permuted,
    uncovered-permuted,
    sort_by-permᴰ (λ (c : ChildIssue). c.number) p k,
  )

  validate_ledger-permuted :
      KeyDecides (λ (c : ChildIssue). c.number) l.children
      → validate_ledger l ≡ validate_ledger permuted
  unfolding validate_ledger
  validate_ledger-permuted k =
      ground (arith, nil-permᴰ p, ap (sort_by not_after) (findings-permuted k))

-- Presenting the children in another order changes neither the list of defects nor the signature,
-- where no two different children have one number.
pub validate_ledger-perm :
    (l : EpicLedger) (children : List ChildIssue)
    → Perm l.children children
    → KeyDecides (λ (c : ChildIssue). c.number) l.children
    → (validate_ledger l ≡ validate_ledger (record l { children = children }))
      × (ledger_signature l ≡ ledger_signature (record l { children = children }))
unfolding ledger_signature
validate_ledger-perm l children p k =
    let same : validate_ledger l ≡ validate_ledger (record l { children = children }) =
      ∥∥₁_elim p (Defects-set _ _) (λ q. validate_ledger-permuted l children q k) in
    (same, ground (arith, same))
