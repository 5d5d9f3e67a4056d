-- ===== src/EpicLock/RoundTrip.antt =====
-- packages/pipeline-cli/src/tools/epic-lock/github.ts: the comment that `acquire` posts is read back
-- by claim-resolution.ts as a claim of the session that posted it.
use Prim.Native.Char.{code}
use Prim.Native.String.append.{nil, cons}
use kampus_pipeline.Common.{
  ℕ, zero, suc, String, ◌≡◌, refl, Bool, true, false, ◌&&◌, some, arith, ◌&◌,
}
use kampus_pipeline.EpicLock.{
  is_space, is_session_char, is_word, skip, literal, take_session, starts_with_word, match_claim,
  parse_claim_session,
}

-- The body of the claim comment: `claim: ${sessionId} · ${now}`.
abbrev pub claim_body : String → String → String
claim_body session_id now = "claim: " & session_id & " · " & now

-- `n` characters of a session id, of which the last is a word character; `w` tells whether the
-- character before them is.
unfoldable pub session_chars : ℕ → Bool → String → Bool
session_chars zero w String.[] = w
session_chars zero w (String.◌∷◌ c s) = false
session_chars (suc n) w String.[] = false
session_chars (suc n) w (String.◌∷◌ c s) =
    let rest = session_chars n (is_word (code c)) s in is_session_char (code c) && rest

-- A session id as the harness makes it: 36 characters of `[0-9a-f-]` that do not end in a dash.
abbrev pub IsSessionId : String → Type 0
IsSessionId s = session_chars 36 false s ≡ true

space-append : (now : String) → " · " & now ≡ String.◌∷◌ " " ("· " & now)
space-append now = cons " " "· " now

claim-append :
    (t : String)
    → "claim: " & t
      ≡ String.◌∷◌ "c" (
          String.◌∷◌ "l"
            (String.◌∷◌ "a" (String.◌∷◌ "i" (String.◌∷◌ "m" (String.◌∷◌ ":" (String.◌∷◌ " " t))))))
claim-append t = rw (cons, cons, cons, cons, cons, cons, cons, nil) refl

take_session-chars :
    (n : ℕ) (w : Bool) (s now : String)
    → session_chars n w s ≡ true
    → take_session n w (s & " · " & now) ≡ some s
unfolding session_chars take_session starts_with_word
take_session-chars zero w String.[] now h = rw (nil, space-append, h) refl
take_session-chars zero w (String.◌∷◌ c s) now h = cc
take_session-chars (suc n) w String.[] now h = cc
take_session-chars (suc n) w (String.◌∷◌ c s) now h =
    rw (cons c s (" · " & now)) (ground (arith, take_session-chars n (is_word (code c)) s now))

not_space : (c : ℕ) → is_session_char c ≡ true → is_space c ≡ false
not_space c h = ground arith

skip-session : (s now : String) → IsSessionId s → skip is_space (s & " · " & now) ≡ s & " · " & now
unfolding session_chars skip
skip-session String.[] now h = cc
skip-session (String.◌∷◌ c s) now h =
    rw (cons c s (" · " & now)) (ground (arith, not_space (code c)))

match_claim-claim_body : (s now : String) → IsSessionId s → match_claim (claim_body s now) ≡ some s
unfolding match_claim literal skip
match_claim-claim_body s now h =
    rw (claim-append (s & " · " & now), skip-session s now h, take_session-chars 36 false s now h)
      refl

-- The comment that a session with a well-formed id (36 hexadecimal digits and dashes, the last of
-- them a digit) posts to claim an epic is read back as a claim of that session, in lower case, whatever
-- the time in it.
pub parse_claim_session-claim_body :
    (lower : String → String) (s now : String)
    → IsSessionId s
    → parse_claim_session lower (claim_body s now) ≡ some (lower s)
unfolding parse_claim_session
parse_claim_session-claim_body lower s now h =
    rw (match_claim-claim_body s now h, parse_claim_session) refl
