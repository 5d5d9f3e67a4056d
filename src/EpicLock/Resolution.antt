-- ===== src/EpicLock/Resolution.antt =====
-- packages/pipeline-cli/src/tools/epic-lock/claim-resolution.ts: whose claim the winner is.
use mathlib.Core.List.{append-nil}
use kampus_pipeline.Common.{
  ◌≤◌, text_lt, String, ◌≡◌, refl, sym, ap, ◌∙◌, ◌≢◌, inl, inr, ◌↔◌, true, false, Option, none,
  some, List, [], ◌∷◌, ◌++◌, arith, if◌then◌else◌, string_eq, contains, contains_iff, sort_by,
  head?, In, In-sort_by, Option-cases, Bool-cases,
}
use kampus_pipeline.Common.Minimum.{
  IsOrder, head-sort_by-least, head-sort_by-cons, head-sort_by-concat,
}
use kampus_pipeline.Common.TextOrder.{text_lt_asym, text_lt_tie, text_lt_trans, text_lt_of_units}
use kampus_pipeline.EpicLock.{
  ClaimComment, ClaimWinner, not_after, parse_claim_session, claims_of, resolve_winner,
  resolve_claim, claim_is_mine,
}

pub not_after-IsOrder : IsOrder not_after
unfolding not_after
not_after-IsOrder = record { total = total; trans = trans }
  where
    total : (a b : ClaimWinner) → not_after a b ≡ false → not_after b a ≡ true
    total a b h =
        ground
          (arith, text_lt_asym a.created_at b.created_at, text_lt_asym b.created_at a.created_at)

    trans :
        (a b c : ClaimWinner) → not_after a b ≡ true → not_after b c ≡ true → not_after a c ≡ true
    trans a b c h k = ground (
      arith,
      text_lt_trans a.created_at b.created_at c.created_at,
      text_lt_asym a.created_at c.created_at,
      text_lt_asym a.created_at b.created_at,
      text_lt_asym b.created_at c.created_at,
      text_lt_tie a.created_at b.created_at,
      text_lt_tie b.created_at c.created_at,
      text_lt_of_units a.created_at b.created_at c.created_at c.created_at,
      text_lt_of_units c.created_at c.created_at a.created_at b.created_at,
      text_lt_of_units a.created_at a.created_at b.created_at c.created_at,
      text_lt_of_units b.created_at c.created_at a.created_at a.created_at,
    )

-- The first claim is not later than the second, and of two at one time it has not the larger id.
abbrev pub Precedes : ClaimWinner → ClaimWinner → Type 0
Precedes w v =
    (text_lt v.created_at w.created_at ≡ false) × (v.created_at ≡ w.created_at → w.id ≤ v.id)

pub not_after-Precedes : (w v : ClaimWinner) → not_after w v ≡ true → Precedes w v
unfolding not_after
not_after-Precedes w v h = (
  ground (arith, text_lt_asym w.created_at v.created_at),
  λ e.
      ground
        (arith, text_lt_asym w.created_at v.created_at, text_lt_asym w.created_at w.created_at),
)

module _ (lower : String → String) where
  -- A comment of an authorized author whose body is a claim, and the claim that it makes.
  abbrev pub Claims : List String → ClaimComment → ClaimWinner → Type 0
  Claims authorized c w =
      In c.author authorized
      × (parse_claim_session lower c.body ≡ some w.session)
      × (w.id ≡ c.id)
      × (w.created_at ≡ c.created_at)

  pub In-claims_of :
      (authorized : List String) (cs : List ClaimComment) (w : ClaimWinner)
      → In w (claims_of lower authorized cs)
        ↔ ((c : ClaimComment) × In c cs × Claims authorized c w)
  unfolding claims_of
  In-claims_of authorized [] w = (λ h. absurd h, λ (c, i, _). absurd i)
  In-claims_of authorized (c ∷ cs) w =
      (to (In-claims_of authorized cs w).0, from (In-claims_of authorized cs w).1)
    where
      to :
          (In w (claims_of lower authorized cs)
            → (d : ClaimComment) × In d cs × Claims authorized d w)
          → In w (claims_of lower authorized (c ∷ cs))
          → (d : ClaimComment) × In d (c ∷ cs) × Claims authorized d w
      to ih h = elim (Bool-cases (contains authorized c.author)) [
        | inl known ↦ elim (Option-cases (parse_claim_session lower c.body)) [
          | inl n ↦ later (ih (rw (known, n) at h))
          | inr (session, found) ↦ here session known found (rw (known, found) at h)
        ]
        | inr unknown ↦ later (ih (rw unknown at h))
      ]
        where
          later :
              ((d : ClaimComment) × In d cs × Claims authorized d w)
              → (d : ClaimComment) × In d (c ∷ cs) × Claims authorized d w
          later (d, i, k) = (d, inr i, k)

          here :
              (session : String)
              → contains authorized c.author ≡ true
              → parse_claim_session lower c.body ≡ some session
              → In w (
                  record { session = session; id = c.id; created_at = c.created_at }
                  ∷ claims_of lower authorized cs)
              → (d : ClaimComment) × In d (c ∷ cs) × Claims authorized d w
          here session known found (inl e) = (
            c,
            inl refl,
            (
              (contains_iff authorized c.author).0 known,
              found ∙ ap some (sym (ap (λ (x : ClaimWinner). x.session) e)),
              ap (λ (x : ClaimWinner). x.id) e,
              ap (λ (x : ClaimWinner). x.created_at) e,
            ),
          )
          here session known found (inr i) = later (ih i)

      from :
          (((d : ClaimComment) × In d cs × Claims authorized d w)
            → In w (claims_of lower authorized cs))
          → ((d : ClaimComment) × In d (c ∷ cs) × Claims authorized d w)
          → In w (claims_of lower authorized (c ∷ cs))
      from ih (d, inl e, (a, b, p, q)) =
          let known : contains authorized c.author ≡ true =
            (contains_iff authorized c.author).1 (rw (← e) a) in
          let found : parse_claim_session lower c.body ≡ some w.session = rw (← e) b in
          let same_id : w.id ≡ c.id = rw (← e) p in
          let same_time : w.created_at ≡ c.created_at = rw (← e) q in ground arith
      from ih (d, inr i, k) =
          let j : In w (claims_of lower authorized cs) = ih (d, i, k) in ground arith

  -- The winner is the claim of an authorized comment, and no claim of an authorized comment is
  -- earlier in creation time or, at the same time, has a smaller comment id.
  pub resolve_winner-least :
      (cs : List ClaimComment) (authorized : List String) {w : ClaimWinner}
      → resolve_winner lower cs authorized ≡ some w
      → ((c : ClaimComment) × In c cs × Claims authorized c w)
        × ((c : ClaimComment) (v : ClaimWinner) → In c cs → Claims authorized c v → Precedes w v)
  unfolding resolve_winner
  resolve_winner-least cs authorized {w} e = (
    (In-claims_of authorized cs w).0 (
        (In-sort_by not_after w (claims_of lower authorized cs)).0
          (head-In (sort_by not_after (claims_of lower authorized cs)) e)),
    λ c v i k. not_after-Precedes w v (
        head-sort_by-least not_after not_after-IsOrder (claims_of lower authorized cs) w v e
          ((In-claims_of authorized cs v).1 (c, i, k))),
  )
    where
      head-In : (xs : List ClaimWinner) → head? xs ≡ some w → In w xs
      head-In [] q = cc
      head-In (x ∷ xs) q = inl (ground arith)

  -- The same in the order of the code.
  pub resolve_winner-not_after :
      (cs : List ClaimComment) (authorized : List String) (w v : ClaimWinner) (c : ClaimComment)
      → resolve_winner lower cs authorized ≡ some w
      → In c cs
      → Claims authorized c v
      → not_after w v ≡ true
  unfolding resolve_winner
  resolve_winner-not_after cs authorized w v c e i k =
      head-sort_by-least not_after not_after-IsOrder (claims_of lower authorized cs) w v e
        ((In-claims_of authorized cs v).1 (c, i, k))

  -- There is no winner exactly when no authorized comment claims.
  pub resolve_winner-eq-none_iff :
      (cs : List ClaimComment) (authorized : List String)
      → (resolve_winner lower cs authorized ≡ none)
        ↔ ((c : ClaimComment) (v : ClaimWinner) → In c cs → Claims authorized c v → ⊥)
  unfolding resolve_winner
  resolve_winner-eq-none_iff cs authorized = (
    λ e c v i k.
        absurd (
          no_head (claims_of lower authorized cs) v ((In-claims_of authorized cs v).1 (c, i, k)) e),
    λ h.
        empty_head (claims_of lower authorized cs)
          (λ v i. let (c, j, k) = (In-claims_of authorized cs v).0 i in h c v j k),
  )
    where
      no_head :
          (xs : List ClaimWinner) (v : ClaimWinner)
          → In v xs
          → head? (sort_by not_after xs) ≡ none
          → ⊥
      no_head [] v i e = i
      no_head (x ∷ xs) v i e = cc (head-sort_by-cons not_after not_after-IsOrder x xs)

      empty_head :
          (xs : List ClaimWinner)
          → ((v : ClaimWinner) → In v xs → ⊥)
          → head? (sort_by not_after xs) ≡ none
      empty_head [] h = unfold sort_by in refl
      empty_head (x ∷ xs) h = absurd (h x (inl refl))

  -- A session holds the claim exactly when it is not empty and, in lower case, is the session of the
  -- winner.
  pub claim_is_mine_iff :
      (cs : List ClaimComment) (authorized : List String) (o : Option String)
      → ((claim_is_mine lower cs authorized o).mine ≡ true) ↔ (
          (session : String) × (w : ClaimWinner) × (o ≡ some session)
          × (session ≢ "")
          × (resolve_winner lower cs authorized ≡ some w)
          × (w.session ≡ lower session))
  unfolding claim_is_mine resolve_claim
  claim_is_mine_iff cs authorized none = (λ h. cc, λ (s, w, e, _, _, _). cc)
  claim_is_mine_iff cs authorized (some session) = (to, from)
    where
      to :
          (claim_is_mine lower cs authorized (some session)).mine ≡ true
          → (s : String) × (w : ClaimWinner) × (some session ≡ some s)
            × (s ≢ "")
            × (resolve_winner lower cs authorized ≡ some w)
            × (w.session ≡ lower s)
      to h = elim (Option-cases (resolve_winner lower cs authorized)) [
        | inl n ↦ absurd (ground arith)
        | inr (w, found) ↦ (
          session,
          w,
          refl,
          ground (arith, string_eq.same_iff session ""),
          found,
          ground (arith, string_eq.same_iff w.session (lower session)),
        )
      ]

      from :
          ((s : String) × (w : ClaimWinner) × (some session ≡ some s)
            × (s ≢ "")
            × (resolve_winner lower cs authorized ≡ some w)
            × (w.session ≡ lower s))
          → (claim_is_mine lower cs authorized (some session)).mine ≡ true
      from (s, w, same, there, found, mine) =
          ground
            (arith, string_eq.same_iff session "", string_eq.same_iff w.session (lower session))

  -- Two sessions that both hold the claim on the same comments are, in lower case, one session.
  pub claim_is_mine_unique :
      (cs : List ClaimComment) (authorized : List String) (s t : String)
      → (claim_is_mine lower cs authorized (some s)).mine ≡ true
      → (claim_is_mine lower cs authorized (some t)).mine ≡ true
      → lower s ≡ lower t
  claim_is_mine_unique cs authorized s t h k =
      let (_, w, same, there, found, mine) = (claim_is_mine_iff cs authorized (some s)).0 h in
      let (_, v, same', there', found', mine') = (claim_is_mine_iff cs authorized (some t)).0 k in
      ground arith

  claims_of-append :
      (authorized : List String) (cs ds : List ClaimComment)
      → claims_of lower authorized (cs ++ ds)
        ≡ claims_of lower authorized cs ++ claims_of lower authorized ds
  unfolding claims_of
  claims_of-append authorized [] ds = refl
  claims_of-append authorized (c ∷ cs) ds = elim (Bool-cases (contains authorized c.author)) [
    | inl known ↦ elim (Option-cases (parse_claim_session lower c.body)) [
      | inl n ↦ rw (known, n) (claims_of-append authorized cs ds)
      | inr (session, found) ↦
          rw (known, found)
            (ap (λ r. record { session = session; id = c.id; created_at = c.created_at } ∷ r)
              (claims_of-append authorized cs ds))
    ]
    | inr unknown ↦ rw unknown (claims_of-append authorized cs ds)
  ]

  one-more :
      (authorized : List String) (c : ClaimComment) (xs : List ClaimWinner) (w : ClaimWinner)
      → head? (sort_by not_after xs) ≡ some w
      → not_after w (record { session = ""; id = c.id; created_at = c.created_at }) ≡ true
      → head? (sort_by not_after (xs ++ claims_of lower authorized (c ∷ []))) ≡ some w
  unfolding claims_of not_after
  one-more authorized c xs w e later = elim (Bool-cases (contains authorized c.author)) [
    | inl known ↦ elim (Option-cases (parse_claim_session lower c.body)) [
      | inl n ↦ rw (known, n) (rw append-nil e)
      | inr (session, found) ↦
          rw (known, found)
            (head-sort_by-concat not_after not_after-IsOrder xs w
                (record { session = session; id = c.id; created_at = c.created_at }) e
              ∙ ap
                  (λ b. some (
                    if b
                    then w
                    else record { session = session; id = c.id; created_at = c.created_at }))
                  later)
    ]
    | inr unknown ↦ rw unknown (rw append-nil e)
  ]

  -- A comment posted after the winner, whoever writes it and whatever it says, does not take the
  -- lock.
  pub resolve_winner-append :
      (cs : List ClaimComment) (c : ClaimComment) (authorized : List String) (w : ClaimWinner)
      → resolve_winner lower cs authorized ≡ some w
      → not_after w (record { session = ""; id = c.id; created_at = c.created_at }) ≡ true
      → resolve_winner lower (cs ++ c ∷ []) authorized ≡ some w
  unfolding resolve_winner
  resolve_winner-append cs c authorized w e later =
      rw (claims_of-append authorized cs (c ∷ []))
        (one-more authorized c (claims_of lower authorized cs) w e later)
