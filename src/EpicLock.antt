-- ===== src/EpicLock.antt =====
-- packages/pipeline-cli/src/tools/epic-lock/claim-resolution.ts and claim/claim-is-mine.ts: who holds
-- the lock on an epic. `lower` stands for `String.prototype.toLowerCase`.
pub mod Resolution
pub mod RoundTrip
pub mod Acquire
pub mod World
pub mod Winner
pub mod Comments
pub mod Phases
pub mod Exclusion
pub mod IsMine
pub mod Progress
pub mod Released
mod Tests
use Prim.Native.Char.{code}
use Prim.Native.String
use kampus_pipeline.Common.{
  ℕ, zero, suc, ◌+◌, String, Bool, true, false, ◌&&◌, ◌||◌, not, Option, none, some, List, [], ◌∷◌,
  leb, nat_beq, if◌then◌else◌, ◌==◌, string_eq, nat_eq, contains, sort_by, head?, filter, map,
  text_lt, ◌&◌,
}

-- `\s`.
abbrev pub is_space : ℕ → Bool
is_space c =
    leb 9 c && leb c 13
    || nat_beq c 0x20
    || nat_beq c 0xA0
    || nat_beq c 0x1680
    || leb 0x2000 c && leb c 0x200A
    || nat_beq c 0x2028
    || nat_beq c 0x2029
    || nat_beq c 0x202F
    || nat_beq c 0x205F
    || nat_beq c 0x3000
    || nat_beq c 0xFEFF

-- `[0-9a-f-]`, with the flag `i`.
abbrev pub is_session_char : ℕ → Bool
is_session_char c =
    leb b'0' c && leb c b'9'
    || leb b'a' c && leb c b'f'
    || leb b'A' c && leb c b'F'
    || nat_beq c b'-'

-- `\w`.
abbrev pub is_word : ℕ → Bool
is_word c =
    leb b'0' c && leb c b'9'
    || leb b'a' c && leb c b'z'
    || leb b'A' c && leb c b'Z'
    || nat_beq c b'_'

-- `class*` at the front of the text.
unfoldable pub skip : (ℕ → Bool) → String → String
skip p String.[] = String.[]
skip p (String.◌∷◌ c s) = let rest = skip p s in if p (code c) then rest else String.◌∷◌ c s

-- A lower-case ASCII letter, or another character, read without regard to case.
abbrev same_letter : ℕ → ℕ → Bool
same_letter want c = nat_beq c want || leb b'a' want && leb want b'z' && nat_beq (c + 32) want

unfoldable pub literal : List ℕ → String → Option String
literal [] s = some s
literal (want ∷ more) String.[] = none
literal (want ∷ more) (String.◌∷◌ c s) =
    let rest = literal more s in if same_letter want (code c) then rest else none

pub starts_with_word : String → Bool
starts_with_word String.[] = false
starts_with_word (String.◌∷◌ c s) = is_word (code c)

-- `([0-9a-f-]{36})\b`: the captured text. The last character taken decides the boundary.
pub take_session : ℕ → Bool → String → Option String
take_session zero last_is_word s =
    if last_is_word
    then (if starts_with_word s then none else some "")
    else if starts_with_word s
    then some ""
    else none
take_session (suc n) last_is_word String.[] = none
take_session (suc n) last_is_word (String.◌∷◌ c s) =
    let rest = take_session n (is_word (code c)) s in
    if is_session_char (code c)
    then elim rest [ none ↦ none | some t ↦ some (String.◌∷◌ c t) ]
    else none

abbrev claim_word : List ℕ
claim_word = b'c' ∷ b'l' ∷ b'a' ∷ b'i' ∷ b'm' ∷ b':' ∷ []

-- `CLAIM_RE`, `/^\s*\**\s*claim:\s*([0-9a-f-]{36})\b/i`. No piece can give back what a later piece
-- needs, so the first match is the only one.
pub match_claim : String → Option String
unfolding skip literal take_session starts_with_word
match_claim body =
    elim (literal claim_word (skip is_space (skip (λ c. nat_beq c b'*') (skip is_space body)))) [
      | none ↦ none
      | some rest ↦ take_session 36 false (skip is_space rest)
    ]

pub record ClaimComment : Type 0 where
  pub id : ℕ
  pub author : String
  pub created_at : String
  pub body : String

pub record ClaimWinner : Type 0 where
  pub session : String
  pub id : ℕ
  pub created_at : String

pub data ClaimOutcome : Type 0 where
  no_session : ClaimOutcome
  no_winner : ClaimOutcome
  won : ClaimWinner → ClaimOutcome
  lost : ClaimWinner → ClaimOutcome

-- The comparison of the claims: by creation time, then by comment id.
unfoldable pub not_after : ClaimWinner → ClaimWinner → Bool
not_after a b =
    if text_lt a.created_at b.created_at
    then true
    else if text_lt b.created_at a.created_at
    then false
    else leb a.id b.id

module _ (lower : String → String) where
  pub parse_claim_session : String → Option String
  unfolding match_claim
  parse_claim_session body = elim (match_claim body) [
    | none ↦ none
    | some session ↦ some (lower session)
  ]

  -- The loop that collects the claims.
  pub claims_of : List String → List ClaimComment → List ClaimWinner
  claims_of authorized [] = []
  claims_of authorized (c ∷ cs) =
      let rest = claims_of authorized cs in
      if contains authorized c.author
      then elim (parse_claim_session c.body) [
        | none ↦ rest
        | some session ↦ record { session = session; id = c.id; created_at = c.created_at } ∷ rest
      ]
      else rest

  pub resolve_winner : List ClaimComment → List String → Option ClaimWinner
  resolve_winner comments authorized = head? (sort_by not_after (claims_of authorized comments))

  -- `resolveClaim` for a session id that is there and not empty.
  pub resolve_for : String → Option ClaimWinner → ClaimOutcome
  resolve_for session_id none = no_winner
  resolve_for session_id (some winner) =
      if winner.session == lower session_id then won winner else lost winner

  pub resolve_claim : List ClaimComment → List String → Option String → ClaimOutcome
  unfolding resolve_for
  resolve_claim comments authorized none = no_session
  resolve_claim comments authorized (some session_id) =
      if session_id == ""
      then no_session
      else resolve_for session_id (resolve_winner comments authorized)

  -- `parseClaimSession(…) === mine`.
  abbrev pub is_session : String → Option String → Bool
  is_session mine none = false
  is_session mine (some session) = session == mine

  pub own_claim_comment_ids : List ClaimComment → String → List ℕ
  own_claim_comment_ids comments session_id =
      map (λ (c : ClaimComment). c.id)
        (filter (λ (c : ClaimComment). is_session (lower session_id) (parse_claim_session c.body))
          comments)

pub data ClaimReason : Type 0 where
  is_won is_lost is_no_winner is_no_session : ClaimReason

pub record ClaimVerdict : Type 0 where
  pub mine : Bool
  pub reason : ClaimReason
  pub winner : Option ClaimWinner

abbrev verdict_of : ClaimOutcome → ClaimVerdict
verdict_of (won w) = record { mine = true; reason = is_won; winner = some w }
verdict_of (lost w) = record { mine = false; reason = is_lost; winner = some w }
verdict_of no_winner = record { mine = false; reason = is_no_winner; winner = none }
verdict_of no_session = record { mine = false; reason = is_no_session; winner = none }

pub claim_is_mine :
    (String → String) → List ClaimComment → List String → Option String → ClaimVerdict
claim_is_mine lower comments authorized session_id =
    verdict_of (resolve_claim lower comments authorized session_id)
