-- ===== src/EpicLock/Tests.antt =====
-- Two claims on one epic, and a comment of a stranger.
use kampus_pipeline.Common.{
  length, ap, Bool, false, Same, sym, if◌then◌else◌, ◌==◌, string_eq, arith, inl, inr, ℕ, String,
  ◌≡◌, refl, ◌≢◌, ◌↔◌, true, some, List, [], ◌∷◌, In, sort_by, text_lt, contains, insert_by, filter,
  distinct,
}
use kampus_pipeline.EpicLock.{
  own_claim_comment_ids, ClaimComment, ClaimWinner, claims_of, resolve_winner, not_after,
  parse_claim_session, match_claim,
}
use kampus_pipeline.EpicLock.Resolution.{Claims, Precedes, resolve_winner-least}
use kampus_pipeline.EpicLock.RoundTrip.{
  IsSessionId, session_chars, claim_body, parse_claim_session-claim_body,
}
use kampus_pipeline.EpicLock.Acquire.{
  released, idle, done, acquired, after_list, is_ours, resolve_authorized_winner,
  authorized_authors, authors_of,
}
use kampus_pipeline.EpicLock.World.{is_at_rest, World, Gh, Reach}
use kampus_pipeline.EpicLock.Winner.{Wins, is_permitted}
use kampus_pipeline.EpicLock.Comments.{IsSound}
use kampus_pipeline.EpicLock.Exclusion.{acquired_unique}
use kampus_pipeline.EpicLock.Released.{released_reached}
use kampus_pipeline.EpicLock.IsMine.{is_mine, is_mine_iff, acquired-is_mine}
use kampus_pipeline.EpicLock.Progress.{IsFree, acquired_reached}

abbrev lower : String → String
lower s = s

abbrev session_a : String
session_a = "01234567-89ab-cdef-0123-456789abcdef"

abbrev session_b : String
session_b = "fedcba98-7654-3210-fedc-ba9876543210"

abbrev comment : ℕ → String → String → String → ClaimComment
comment id author created_at body = record {
  id = id;
  author = author;
  created_at = created_at;
  body = body;
}

abbrev stranger : ClaimComment
stranger = comment 1 "mal" "2026-01-01T00:00:00Z" "claim: 00000000-0000-0000-0000-000000000000"

abbrev comments : List ClaimComment
comments =
    stranger
    ∷ comment 3 "ann" "2026-01-01T00:00:02Z" "claim: fedcba98-7654-3210-fedc-ba9876543210"
    ∷ comment 2 "ann" "2026-01-01T00:00:01Z" "**claim: 01234567-89ab-cdef-0123-456789abcdef"
    ∷ []

abbrev permission : String → String
permission login = if login == "ann" then "write" else "none"

good_a : IsSessionId session_a
unfolding session_chars
good_a = refl

text_ne : session_a ≢ session_b
text_ne e = let h : false ≡ true = (string_eq.same_iff session_a session_b).1 e in cc

abbrev authorized : List String
authorized = "ann" ∷ []

abbrev winner : ClaimWinner
winner = record { session = session_a; id = 2; created_at = "2026-01-01T00:00:01Z" }

wins : resolve_winner lower comments authorized ≡ some winner
unfolding resolve_winner claims_of parse_claim_session match_claim sort_by insert_by not_after
    contains text_lt
wins = refl

resolve_winner-least_example :
    ((c : ClaimComment) × In c comments × Claims lower authorized c winner)
    × ((c : ClaimComment) (v : ClaimWinner)
        → In c comments
        → Claims lower authorized c v
        → Precedes winner v)
resolve_winner-least_example = resolve_winner-least lower comments authorized wins

parse_claim_session-claim_body_example :
    parse_claim_session lower (claim_body session_a "2026-01-01T00:00:01Z") ≡ some session_a
parse_claim_session-claim_body_example =
    parse_claim_session-claim_body lower session_a "2026-01-01T00:00:01Z" good_a

is_mine_iff_example : ((is_mine lower permission comments (some session_b)).mine ≡ true) ↔ (
    (s : String) × (some session_b ≡ some s) × (s ≢ "") × Wins lower permission comments (lower s))
is_mine_iff_example =
    is_mine_iff lower permission comments (some session_b) (λ c d i j same. ground arith)

-- Two sessions on an epic where a stranger has commented.
data Racer : Type 0 where
  first second : Racer

abbrev same_racer : Racer → Racer → Bool
same_racer first first = true
same_racer first second = false
same_racer second first = false
same_racer second second = true

same_racer_iff : (x y : Racer) → (same_racer x y ≡ true) ↔ (x ≡ y)
same_racer_iff first first = (λ h. refl, λ h. refl)
same_racer_iff first second = (λ h. cc, λ h. cc)
same_racer_iff second first = (λ h. cc, λ h. cc)
same_racer_iff second second = (λ h. refl, λ h. refl)

instance abbrev racer_eq : Same Racer
racer_eq = record { same = same_racer; same_iff = same_racer_iff }

abbrev session : Racer → String
session first = session_a
session second = session_b

different : (i j : Racer) → lower (session i) ≡ lower (session j) → i ≡ j
different first first h = refl
different first second h = absurd (text_ne h)
different second first h = absurd (text_ne (sym h))
different second second h = refl

good : (j : Racer) → IsSessionId (session j)
unfolding session_chars
good first = refl
good second = refl

abbrev start : World Racer
start = record {
  label = false;
  store = record { comments = stranger ∷ []; last_id = 1; last_time = "2026-01-01T00:00:00Z" };
  phase = λ j. idle;
}

early : text_lt "2026-01-01T00:00:00Z" "2026-01-01T00:00:00Z" ≡ false
unfolding text_lt
early = refl

start-IsSound : IsSound start.store
start-IsSound = record {
  known = λ c i. ground arith;
  past = λ c i. elim i [ inl e ↦ rw e early | inr n ↦ absurd n ];
  keyed = λ c d i j same. ground arith;
}

start-IsFree : IsFree lower permission session start
start-IsFree = record {
  unlabelled = refl;
  unclaimed = λ c s i k. elim i [ inl e ↦ (let h = rw e at k.0 in cc) | inr n ↦ absurd n ];
}

-- Probes that do not fail, and listings of one request.
abbrev gh : Gh
gh = record { Probed = λ answer. answer ≡ permission; Listed = λ now cs. cs ≡ now }

agree :
    (answer : String → String)
    → answer ≡ permission
    → (l : String) → is_permitted answer l ≡ is_permitted permission l
agree answer e l = ap (λ p. is_permitted p l) e

acquired_reached_example :
    (u : World Racer) × Reach lower gh session start u × (u.phase second ≡ done acquired)
acquired_reached_example =
    acquired_reached lower permission session gh refl (λ cs. refl) start second "ann" start-IsSound
      start-IsFree refl refl (good second)

abbrev ran : (u : World Racer) × Reach lower gh session start u × (u.phase first ≡ done acquired)
ran =
    acquired_reached lower permission session gh refl (λ cs. refl) start first "ann" start-IsSound
      start-IsFree refl refl (good first)

acquired_unique_example : first ≡ first
acquired_unique_example =
    acquired_unique lower permission session different good gh agree (λ now cs e. e) first first
      start-IsSound (λ k. refl) ran.1 ran.2 ran.2

acquired-is_mine_example :
    (is_mine lower permission ran.0.store.comments (some session_a)).mine ≡ true
acquired-is_mine_example =
    acquired-is_mine lower permission session different good gh agree (λ now cs e. e) first
      start-IsSound (λ k. refl) ran.1 ran.2 permission refl

released_reached_example :
    (u : World Racer) × Reach lower gh session ran.0 u
    × (u.phase first
        ≡ released
            (length (own_claim_comment_ids lower ran.0.store.comments (session first)))
            ran.0.label)
    × (u.label ≡ false)
    × ((c : ClaimComment)
        → In c u.store.comments
        → parse_claim_session lower c.body ≢ some (lower (session first)))
released_reached_example = released_reached lower gh session ran.0 first refl (ap is_at_rest ran.2)

-- Two claims of logins that may write. Where the probe of one of the logins fails in one resolution,
-- each of the sessions acquires the lock.
abbrev rivals : List ClaimComment
rivals =
    comment 3 "bob" "2026-01-01T00:00:02Z" "claim: fedcba98-7654-3210-fedc-ba9876543210"
    ∷ comment 2 "ann" "2026-01-01T00:00:01Z" "claim: 01234567-89ab-cdef-0123-456789abcdef"
    ∷ []

abbrev probed : String → String
probed login = if login == "ann" then "write" else if login == "bob" then "write" else "none"

abbrev missed : String → String
missed login = if login == "bob" then "write" else "none"

both_acquire :
    (after_list lower probed session_a 2 rivals ≡ done acquired)
    × (after_list lower missed session_b 3 rivals ≡ done acquired)
unfolding after_list is_ours resolve_authorized_winner authorized_authors authors_of resolve_winner
    claims_of parse_claim_session match_claim sort_by insert_by not_after contains text_lt distinct
    filter
both_acquire = (refl, refl)
