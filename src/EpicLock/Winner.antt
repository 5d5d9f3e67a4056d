-- ===== src/EpicLock/Winner.antt =====
-- packages/pipeline-cli/src/tools/epic-lock/github.ts: what it is for a session to win over a list of
-- comments, told without the code that resolves the winner.
use kampus_pipeline.Common.{
  String, Bool, true, ◌&&◌, ◌||◌, not, none, some, List, [], ◌∷◌, ◌≡◌, refl, sym, ap, ◌∙◌, ◌↔◌, inl,
  inr, arith, map, filter, In, In-filter, In-distinct, distinct, ◌==◌, string_eq, Option-cases,
}
use kampus_pipeline.Common.TextOrder.{text_lt_asym}
use kampus_pipeline.EpicLock.{ClaimComment, ClaimWinner, not_after, parse_claim_session}
use kampus_pipeline.EpicLock.Resolution.{
  resolve_winner-least, resolve_winner-not_after, resolve_winner-eq-none_iff,
}
use kampus_pipeline.EpicLock.Acquire.{
  authorized_authors, authors_of, is_ours, resolve_authorized_winner,
}

-- The login is not empty and may write to the repository.
abbrev pub is_permitted : (String → String) → String → Bool
is_permitted permission a =
    not (a == "")
    && (permission a == "admin" || (permission a == "maintain" || permission a == "write"))

-- The place of a comment in the order of the claims.
abbrev pub stamp : ClaimComment → ClaimWinner
stamp c = record { session = ""; id = c.id; created_at = c.created_at }

-- The first comment comes before the second.
abbrev pub Before : ClaimComment → ClaimComment → Type 0
Before c d = not_after (stamp c) (stamp d) ≡ true

-- Comments with the same id have the same body.
abbrev pub IsKeyed : List ClaimComment → Type 0
IsKeyed cs = (c d : ClaimComment) → In c cs → In d cs → c.id ≡ d.id → c.body ≡ d.body

pub Before-same_id : (c d : ClaimComment) → Before c d → Before d c → c.id ≡ d.id
unfolding not_after
Before-same_id c d h k =
    ground (arith, text_lt_asym c.created_at d.created_at, text_lt_asym d.created_at c.created_at)

pub Before-refl : (c : ClaimComment) → Before c c
unfolding not_after
Before-refl c = ground (arith, text_lt_asym c.created_at c.created_at)

In-map_author :
    (c : ClaimComment) (cs : List ClaimComment)
    → In c cs
    → In c.author (map (λ (d : ClaimComment). d.author) cs)
In-map_author c [] i = i
In-map_author c (d ∷ cs) (inl e) = inl (ap (λ (x : ClaimComment). x.author) e)
In-map_author c (d ∷ cs) (inr i) = inr (In-map_author c cs i)

-- An author of one of the comments is authorized exactly when the login is permitted.
pub In-authorized_authors :
    (permission : String → String) (c : ClaimComment) (cs : List ClaimComment)
    → In c cs
    → In c.author (authorized_authors permission (authors_of cs))
      ↔ (is_permitted permission c.author ≡ true)
unfolding authorized_authors authors_of
In-authorized_authors permission c cs i =
    let authors = map (λ (d : ClaimComment). d.author) cs in
    let named = filter (λ a. not (a == "")) authors in
    ground (
      arith,
      In-map_author c cs i,
      In-filter (λ a. not (a == "")) c.author authors,
      In-distinct c.author named,
      In-filter
          (λ l. permission l == "admin" || (permission l == "maintain" || permission l == "write"))
          c.author (distinct named),
    )

module _ (lower : String → String) (permission : String → String) where
  -- The comment is a claim of the session, and its author may write.
  abbrev pub IsClaim : ClaimComment → String → Type 0
  IsClaim c s =
      (is_permitted permission c.author ≡ true) × (parse_claim_session lower c.body ≡ some s)

  -- A claim of the session is one of the comments, and no claim comes before it.
  abbrev pub Wins : List ClaimComment → String → Type 0
  Wins cs s =
      (c : ClaimComment) × In c cs
      × IsClaim c s
      × ((d : ClaimComment) (t : String) → In d cs → IsClaim d t → Before c d)

  pub resolve_winner-Wins :
      (cs : List ClaimComment) (w : ClaimWinner)
      → resolve_authorized_winner lower permission cs ≡ some w
      → Wins cs w.session
  unfolding resolve_authorized_winner not_after
  resolve_winner-Wins cs w e =
      let ((c, i, (known, parsed, same_id, same_time)), _) =
        resolve_winner-least lower cs (authorized_authors permission (authors_of cs)) e in
      (
        c,
        i,
        ((In-authorized_authors permission c cs i).0 known, parsed),
        λ d t j k. least c same_id same_time d t (
            resolve_winner-not_after lower cs (authorized_authors permission (authors_of cs)) w
              (record { session = t; id = d.id; created_at = d.created_at }) d e j
              ((In-authorized_authors permission d cs j).1 k.0, k.1, refl, refl)),
      )
    where
      least :
          (c : ClaimComment)
          → w.id ≡ c.id
          → w.created_at ≡ c.created_at
          → (d : ClaimComment) (t : String)
          → not_after w (record { session = t; id = d.id; created_at = d.created_at }) ≡ true
          → Before c d
      least c p q d t h = ground arith

  no_winner :
      (cs : List ClaimComment) (s : String)
      → resolve_authorized_winner lower permission cs ≡ none
      → Wins cs s
      → ⊥
  unfolding resolve_authorized_winner
  no_winner cs s n (c, i, k, _) =
      (resolve_winner-eq-none_iff lower cs (authorized_authors permission (authors_of cs))).0 n c
        (record { session = s; id = c.id; created_at = c.created_at }) i
        ((In-authorized_authors permission c cs i).1 k.0, k.1, refl, refl)

  -- Two sessions that win over the same comments are one.
  pub Wins-unique :
      (cs : List ClaimComment) (s t : String) → IsKeyed cs → Wins cs s → Wins cs t → s ≡ t
  Wins-unique cs s t keyed (c, i, k, least) (d, j, l, least') =
      let e = keyed c d i j (Before-same_id c d (least d t j l) (least' c s i k)) in
      let f : some s ≡ some t = sym k.1 ∙ ap (parse_claim_session lower) e ∙ l.1 in ground arith

  -- Whoever wins by permissions that let the same logins write wins.
  pub Wins-agree :
      (answer : String → String)
      → ((l : String) → is_permitted answer l ≡ is_permitted permission l)
      → (cs : List ClaimComment) (s : String)
      → ((c : ClaimComment) × In c cs
          × ((is_permitted answer c.author ≡ true) × (parse_claim_session lower c.body ≡ some s))
          × ((d : ClaimComment) (t : String)
              → In d cs
              → (is_permitted answer d.author ≡ true) × (parse_claim_session lower d.body ≡ some t)
              → Before c d))
      → Wins cs s
  Wins-agree answer agree cs s (c, i, (may, parsed), least) = (
    c,
    i,
    (sym (agree c.author) ∙ may, parsed),
    λ d t j (k, p). least d t j (agree d.author ∙ k, p),
  )

  -- Where the code finds that the winner is ours, our session wins.
  pub is_ours-Wins :
      (cs : List ClaimComment) (s : String)
      → is_ours s (resolve_authorized_winner lower permission cs) ≡ true
      → Wins cs s
  unfolding is_ours
  is_ours-Wins cs s h = elim (Option-cases (resolve_authorized_winner lower permission cs)) [
    | inl n ↦ cc
    | inr (w, e) ↦
        let same : w.session ≡ s = ground (arith, string_eq.same_iff w.session s) in
        rw (← same) (resolve_winner-Wins cs w e)
  ]

  -- The code finds that the winner is ours exactly when our session wins.
  pub is_ours_iff :
      (cs : List ClaimComment) (s : String)
      → IsKeyed cs
      → (is_ours s (resolve_authorized_winner lower permission cs) ≡ true) ↔ Wins cs s
  unfolding is_ours
  is_ours_iff cs s keyed = (
    is_ours-Wins cs s,
    λ h. elim (Option-cases (resolve_authorized_winner lower permission cs)) [
      | inl n ↦ absurd (no_winner cs s n h)
      | inr (w, e) ↦
          let same = Wins-unique cs w.session s keyed (resolve_winner-Wins cs w e) h in
          ground (arith, string_eq.same_iff w.session s)
    ],
  )
