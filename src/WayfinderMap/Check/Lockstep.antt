-- ===== src/WayfinderMap/Check/Lockstep.antt =====
-- packages/pipeline-cli/src/tools/wayfinder-map/mutate.ts: the check lets a graduation pass exactly when
-- the three edits moved in step.
use kampus_pipeline.Common.{
  ◌==◌, ℕ, suc, ◌+◌, String, Bool, true, false, not, Option, none, some, List, [], ◌∷◌, ◌++◌, ◌≡◌,
  ◌≢◌, ◌↔◌, refl, sym, ap, sort, inl, inr, arith, map, length, any, any_iff, In, In-map, join,
  nat_beq_iff, string_eq, nat_eq, contains, contains_iff, Bool-cases, All-iff, filter-eq-nil_iff,
  length-append,
}
use kampus_pipeline.WayfinderMap.{Decision, FrontierTicket, FogEntry, MapLedger, Defect}
use kampus_pipeline.WayfinderMap.Validate.{validate_map, signature_token}
use kampus_pipeline.WayfinderMap.Validate.Token.{signature_token_inj, signature_token_same}
use kampus_pipeline.WayfinderMap.Check.{
  tokens, introduced_defects, destination_lines, Snapshot, rewritten, is_ticket, check_defects,
  check_moved, check_graduation,
}

abbrev texts : List Decision → List String
texts ds = map (λ (d : Decision). d.text) ds

-- Each of the first defects has the type and, in order, the refs of one of the others.
abbrev pub IsCovered : List Defect → List Defect → Type 0
IsCovered ds es =
    (d : Defect)
    → In d ds
    → (e : Defect) × In e es × (e.kind ≡ d.kind) × (sort e.refs ≡ sort d.refs)

-- What a graduation of the ticket does to the map, and leaves.
pub record IsLockstep (before after : Snapshot) (ticket : ℕ) : Type 0 where
  pub destination_kept :
      join "\n" (destination_lines after.body) ≡ join "\n" (destination_lines before.body)
  -- The texts of the decisions are those before, and one more.
  pub appended :
      (t : String) × (texts after.ledger.chart.decisions_so_far.entries
        ≡ texts before.ledger.chart.decisions_so_far.entries ++ t ∷ [])
  pub off_frontier :
      (t : FrontierTicket) → In t after.ledger.chart.open_frontier.entries → t.issue ≢ some ticket
  pub in_fog :
      (e : FogEntry) × In e after.ledger.chart.graduated_fog.entries × (e.issue ≡ some ticket)
  pub no_new_defect : IsCovered (validate_map after.ledger) (validate_map before.ledger)

is_ticket_iff : (ticket : ℕ) (o : Option ℕ) → (is_ticket ticket o ≡ true) ↔ (o ≡ some ticket)
is_ticket_iff ticket none = ground arith
is_ticket_iff ticket (some n) = ground (arith, nat_eq.same_iff n ticket)

length-texts : (ds : List Decision) → length (texts ds) ≡ length ds
length-texts [] = refl
length-texts (d ∷ ds) = omega (arith, length-texts ds)

rewritten_iff :
    (i : ℕ) (had now : List Decision)
    → length now ≡ length had + 1
    → (rewritten i had now ≡ none) ↔ ((t : String) × (texts now ≡ texts had ++ t ∷ []))
unfolding rewritten
rewritten_iff i [] [] h = absurd (omega (arith, h))
rewritten_iff i [] (x ∷ []) h = (λ e. (x.text, refl), λ e. refl)
rewritten_iff i [] (x ∷ y ∷ now) h = absurd (omega (arith, h))
rewritten_iff i (e ∷ had) [] h = absurd (omega (arith, h))
rewritten_iff i (e ∷ had) (x ∷ now) h = (
  λ k. elim (Bool-cases (x.text == e.text)) [
    | inl t ↦
        let (u, q) = (rewritten_iff (suc i) had now (omega (arith, h))).0 (rw t at k) in
        (u, cons-eq ((string_eq.same_iff x.text e.text).0 t) q)
    | inr f ↦ absurd (some-ne-none (rw f at k))
  ],
  λ (u, q).
      let same = (string_eq.same_iff x.text e.text).1 (head-eq q) in
      rw same ((rewritten_iff (suc i) had now (omega (arith, h))).1 (u, tail-eq q)),
)
  where
    some-ne-none : {n : ℕ} → some n ≡ none → ⊥
    some-ne-none k = cc

    cons-eq : {a b : String} {xs ys : List String} → a ≡ b → xs ≡ ys → a ∷ xs ≡ b ∷ ys
    cons-eq p q = cc

    head-eq : {a b : String} {xs ys : List String} → a ∷ xs ≡ b ∷ ys → a ≡ b
    head-eq p = ground arith

    tail-eq : {a b : String} {xs ys : List String} → a ∷ xs ≡ b ∷ ys → xs ≡ ys
    tail-eq p = ground arith

check_defects_iff :
    (before after : MapLedger)
    → (check_defects (introduced_defects before after) ≡ none)
      ↔ IsCovered (validate_map after) (validate_map before)
unfolding introduced_defects check_defects
check_defects_iff before after = (
  λ h d i. of_token d (
      (contains_iff had (token d)).0 (
        true_of d (
          (All-iff _ fresh).0 ((filter-eq-nil_iff test fresh).0 (empty _ h)) (token d)
            ((In-map token (token d) (validate_map after)).1 (d, i, refl))))),
  λ h.
      rw
        ((filter-eq-nil_iff test fresh).1 (
          (All-iff _ fresh).1 (λ t i.
            let (d, j, e) = (In-map token t (validate_map after)).0 i in
            false_of t ((contains_iff had t).1 (rw e (to_token d (h d j)))))))
        refl,
)
  where
    token : Defect → String
    token d = signature_token d.kind d.refs

    had : List String
    had = tokens (validate_map before)

    fresh : List String
    fresh = tokens (validate_map after)

    test : String → Bool
    test t = not (contains had t)

    of_token :
        (d : Defect)
        → In (token d) had
        → (e : Defect) × In e (validate_map before)
          × (e.kind ≡ d.kind)
          × (sort e.refs ≡ sort d.refs)
    of_token d i =
        let (e, j, same) = (In-map token (token d) (validate_map before)).0 i in
        let (kinds, refs) = signature_token_inj d.kind e.kind d.refs e.refs same in
        (e, j, sym kinds, sym refs)

    to_token :
        (d : Defect)
        → ((e : Defect) × In e (validate_map before)
            × (e.kind ≡ d.kind)
            × (sort e.refs ≡ sort d.refs))
        → In (token d) had
    to_token d (e, j, kinds, refs) =
        (In-map token (token d) (validate_map before)).1
          (e, j, signature_token_same d.kind e.kind d.refs e.refs kinds refs)

    empty : (ts : List String) → check_defects ts ≡ none → ts ≡ []
    empty [] h = refl
    empty (t ∷ ts) h = cc

    true_of : (d : Defect) → test (token d) ≡ false → contains had (token d) ≡ true
    true_of d h = ground arith

    false_of : (t : String) → contains had t ≡ true → test t ≡ false
    false_of t h = ground arith

passed_iff :
    (before after : Snapshot) (ticket : ℕ)
    → (check_graduation before after ticket ≡ none) ↔ (
        (join "\n" (destination_lines after.body) ≡ join "\n" (destination_lines before.body))
        × (length after.ledger.chart.decisions_so_far.entries
            ≡ length before.ledger.chart.decisions_so_far.entries + 1)
        × (rewritten 0 before.ledger.chart.decisions_so_far.entries
              after.ledger.chart.decisions_so_far.entries
            ≡ none)
        × (check_moved before after ticket ≡ none))
unfolding check_graduation
passed_iff before after ticket = ground (
  arith,
  string_eq.same_iff (join "\n" (destination_lines after.body))
      (join "\n" (destination_lines before.body)),
  nat_beq_iff (length after.ledger.chart.decisions_so_far.entries)
      (length before.ledger.chart.decisions_so_far.entries + 1),
)

moved_iff :
    (before after : Snapshot) (ticket : ℕ)
    → (check_moved before after ticket ≡ none) ↔ (
        (any
            (λ (t : FrontierTicket). is_ticket ticket t.issue)
            after.ledger.chart.open_frontier.entries
          ≡ false)
        × (any (λ (e : FogEntry). is_ticket ticket e.issue) after.ledger.chart.graduated_fog.entries
            ≡ true)
        × (check_defects (introduced_defects before.ledger after.ledger) ≡ none))
unfolding check_moved
moved_iff before after ticket = ground arith

-- The check lets a graduation pass exactly when the destination has the lines it had, the texts of the
-- decisions are those before and one more, the ticket is off the open frontier and in the graduated
-- fog, and each defect has the type and, in order, the refs of a defect that the map had before.
pub check_graduation-eq-none_iff :
    (before after : Snapshot) (ticket : ℕ)
    → (check_graduation before after ticket ≡ none) ↔ IsLockstep before after ticket
check_graduation-eq-none_iff before after ticket = (to, from)
  where
    on_frontier : FrontierTicket → Bool
    on_frontier t = is_ticket ticket t.issue

    to : check_graduation before after ticket ≡ none → IsLockstep before after ticket
    to h =
        let (kept, longer, same, moved) = (passed_iff before after ticket).0 h in
        let (off, fog, quiet) = (moved_iff before after ticket).0 moved in
        let (e, i, named) = (any_iff _ after.ledger.chart.graduated_fog.entries).0 fog in
        record {
          destination_kept = kept;
          appended = (rewritten_iff 0 _ _ longer).0 same;
          off_frontier = λ t i named. no_ticket off (
              (any_iff on_frontier after.ledger.chart.open_frontier.entries).1
                (t, i, (is_ticket_iff ticket t.issue).1 named));
          in_fog = (e, i, (is_ticket_iff ticket e.issue).0 named);
          no_new_defect = (check_defects_iff before.ledger after.ledger).0 quiet;
        }
      where
        no_ticket :
            any on_frontier after.ledger.chart.open_frontier.entries ≡ false
            → any on_frontier after.ledger.chart.open_frontier.entries ≡ true
            → ⊥
        no_ticket f t = cc

    from : IsLockstep before after ticket → check_graduation before after ticket ≡ none
    from k =
        let longer = one_more k.appended.0 k.appended.1 in
        let (e, i, named) = k.in_fog in
        (passed_iff before after ticket).1 (
          k.destination_kept,
          longer,
          (rewritten_iff 0 _ _ longer).1 k.appended,
          (moved_iff before after ticket).1 (
            none_on k,
            (any_iff _ after.ledger.chart.graduated_fog.entries).1
                (e, i, (is_ticket_iff ticket e.issue).1 named),
            (check_defects_iff before.ledger after.ledger).1 k.no_new_defect,
          ),
        )
      where
        one_more :
            (t : String)
            → texts after.ledger.chart.decisions_so_far.entries
              ≡ texts before.ledger.chart.decisions_so_far.entries ++ t ∷ []
            → length after.ledger.chart.decisions_so_far.entries
              ≡ length before.ledger.chart.decisions_so_far.entries + 1
        one_more t q = omega (
          arith,
          ap (λ (xs : List String). length xs) q,
          length-append (texts before.ledger.chart.decisions_so_far.entries) (t ∷ []),
          length-texts after.ledger.chart.decisions_so_far.entries,
          length-texts before.ledger.chart.decisions_so_far.entries,
        )

        none_on :
            IsLockstep before after ticket
            → any on_frontier after.ledger.chart.open_frontier.entries ≡ false
        none_on k = elim (Bool-cases (any on_frontier after.ledger.chart.open_frontier.entries)) [
          | inl there ↦
              let (t, i, named) =
                (any_iff on_frontier after.ledger.chart.open_frontier.entries).0 there in
              absurd (k.off_frontier t i ((is_ticket_iff ticket t.issue).0 named))
          | inr f ↦ f
        ]
