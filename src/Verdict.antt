-- ===== src/Verdict.antt =====
-- packages/pipeline-cli/src/tools/verdict/verdict-match.ts: the verdict on a pull request in the
-- namespace of a gate. `lower` stands for `String.prototype.toLowerCase` and `trim` for
-- `String.prototype.trim`; the matchers are written out, as every piece of them has one match.
pub mod Resolved
use Prim.Native.Char.{code as char_code}
use Prim.Native.String
use kampus_pipeline.Common.{
  ℕ, zero, suc, String, Bool, true, false, ◌&&◌, ◌||◌, not, Option, none, some, List, [], ◌∷◌, ◌++◌,
  leb, ltb, nat_beq, if◌then◌else◌, ◌==◌, string_eq, contains, sort_by, last?, filter, text_lt, ◌+◌,
  ◌&◌,
}
use kampus_pipeline.EpicLock.{skip, literal, is_space}
use kampus_pipeline.Gates.{VerdictGate, code, doc, skill, design}

pub data Polarity : Type 0 where
  pass fail : Polarity

-- `GATE_KEYWORD`, the letters of each.
abbrev review : List ℕ
review = b'r' ∷ b'e' ∷ b'v' ∷ b'i' ∷ b'e' ∷ b'w' ∷ b'-' ∷ []

abbrev pub gate_keyword : VerdictGate → List ℕ
gate_keyword code = review ++ b'c' ∷ b'o' ∷ b'd' ∷ b'e' ∷ []
gate_keyword doc = review ++ b'd' ∷ b'o' ∷ b'c' ∷ []
gate_keyword skill = review ++ b's' ∷ b'k' ∷ b'i' ∷ b'l' ∷ b'l' ∷ []
gate_keyword design = review ++ b'd' ∷ b'e' ∷ b's' ∷ b'i' ∷ b'g' ∷ b'n' ∷ []

-- `\*{0,2}`.
pub skip_stars : ℕ → String → String
skip_stars zero s = s
skip_stars (suc n) String.[] = String.[]
skip_stars (suc n) (String.◌∷◌ c s) =
    let rest = skip_stars n s in if nat_beq (char_code c) b'*' then rest else String.◌∷◌ c s

-- `namespaceRe`, with what follows the match.
pub match_namespace : VerdictGate → String → Option String
unfolding skip_stars
match_namespace gate body =
    literal (gate_keyword gate ++ b':' ∷ []) (skip is_space (skip_stars 2 (skip is_space body)))

abbrev pass_word : List ℕ
pass_word = b'p' ∷ b'a' ∷ b's' ∷ b's' ∷ []

abbrev fail_word : List ℕ
fail_word = b'f' ∷ b'a' ∷ b'i' ∷ b'l' ∷ []

-- `polarityRe`: the polarity, and what follows it.
pub match_polarity : VerdictGate → String → Option (Polarity × String)
unfolding match_namespace
match_polarity gate body = elim (match_namespace gate body) [
  | none ↦ none
  | some rest ↦ elim (literal pass_word (skip is_space rest)) [
    | some tail ↦ some (pass, tail)
    | none ↦ elim (literal fail_word (skip is_space rest)) [
      | some tail ↦ some (fail, tail)
      | none ↦ none
    ]
  ]
]

abbrev pub is_hex : ℕ → Bool
is_hex c = leb b'0' c && leb c b'9' || leb b'a' c && leb c b'f' || leb b'A' c && leb c b'F'

-- `[0-9a-f]{0,n}`, as many as there are.
pub take_hex : ℕ → String → String
take_hex zero s = ""
take_hex (suc n) String.[] = ""
take_hex (suc n) (String.◌∷◌ c s) =
    let rest = take_hex n s in if is_hex (char_code c) then String.◌∷◌ c rest else ""

abbrev text_length : String → ℕ
text_length String.[] = 0
text_length (String.◌∷◌ c s) = suc (text_length s)

-- `\s*@\s*([0-9a-f]{7,40})`, the rest of `verdictRe`.
pub match_sha : String → Option String
unfolding take_hex
match_sha tail = elim (literal (b'@' ∷ []) (skip is_space tail)) [
  | none ↦ none
  | some rest ↦
      let sha = take_hex 40 (skip is_space rest) in
      if leb 7 (text_length sha) then some sha else none
]

pub record VerdictComment : Type 0 where
  pub id : ℕ
  pub author : String
  pub created_at : String
  pub body : String

pub record ParsedVerdict : Type 0 where
  pub polarity : Polarity
  pub sha : Option String

pub data VerdictOutcome : Type 0 where
  no_verdict : VerdictOutcome
  self_verdict : ℕ → String → VerdictOutcome
  sha_less : ℕ → Polarity → VerdictOutcome
  stale current : ℕ → Polarity → String → VerdictOutcome

pub record ResolveVerdictInput : Type 0 where
  pub comments : List VerdictComment
  pub authorized_authors : List String
  pub gate : VerdictGate
  pub head_sha : String
  pub pr_author : String

pub starts_with : String → String → Bool
starts_with s String.[] = true
starts_with String.[] (String.◌∷◌ d t) = false
starts_with (String.◌∷◌ c s) (String.◌∷◌ d t) =
    nat_beq (char_code c) (char_code d) && starts_with s t

-- `byRecency`.
unfoldable pub not_after : VerdictComment → VerdictComment → Bool
not_after a b =
    if text_lt a.created_at b.created_at
    then true
    else if text_lt b.created_at a.created_at
    then false
    else leb a.id b.id

-- `re.test`.
abbrev pub is_some {ℓ} : {A : Type ℓ} → Option A → Bool
is_some none = false
is_some (some a) = true

module _ (lower trim : String → String) where
  -- The captured text in lower case.
  abbrev lowered : Option String → Option String
  lowered none = none
  lowered (some sha) = some (lower sha)

  pub parse_verdict : String → VerdictGate → Option ParsedVerdict
  unfolding match_polarity match_sha
  parse_verdict body gate = elim (match_polarity gate body) [
    | none ↦ none
    | some (polarity, tail) ↦ some (record { polarity = polarity; sha = lowered (match_sha tail) })
  ]

  pub is_bound_to_head : Option String → String → Bool
  unfolding starts_with
  is_bound_to_head none head = false
  is_bound_to_head (some sha) head =
      if sha == "" || head == ""
      then false
      else starts_with (lower sha) (lower head) || starts_with (lower head) (lower sha)

  pub same_login : String → String → Bool
  same_login a b = lower (trim a) == lower (trim b)

  pub in_namespace : ResolveVerdictInput → List VerdictComment
  in_namespace input =
      filter
        (λ (c : VerdictComment).
          contains input.authorized_authors c.author && is_some (match_polarity input.gate c.body))
        input.comments

  pub candidates : ResolveVerdictInput → List VerdictComment
  unfolding in_namespace same_login
  candidates input = sort_by not_after (
      filter (λ (c : VerdictComment). not (same_login c.author input.pr_author))
        (in_namespace input))

  pub own : ResolveVerdictInput → List VerdictComment
  unfolding in_namespace same_login
  own input =
      sort_by not_after
        (filter (λ (c : VerdictComment). same_login c.author input.pr_author) (in_namespace input))

  -- No verdict of another's: the author's own, or none.
  pub own_verdict : ResolveVerdictInput → VerdictOutcome
  unfolding own
  own_verdict input = elim (last? (own input)) [
    | none ↦ no_verdict
    | some c ↦ self_verdict c.id c.author
  ]

  -- The staleness test of a parsed marker.
  pub bind : ResolveVerdictInput → VerdictComment → ParsedVerdict → VerdictOutcome
  unfolding is_bound_to_head
  bind input c parsed = elim parsed.sha [
    | none ↦ sha_less c.id parsed.polarity
    | some sha ↦
        if is_bound_to_head (some sha) input.head_sha
        then current c.id parsed.polarity sha
        else stale c.id parsed.polarity sha
  ]

  pub read_latest : ResolveVerdictInput → Option VerdictComment → VerdictOutcome
  unfolding parse_verdict bind own_verdict
  read_latest input none = own_verdict input
  read_latest input (some c) = elim (parse_verdict c.body input.gate) [
    | none ↦ own_verdict input
    | some parsed ↦ bind input c parsed
  ]

  unfoldable pub resolve_verdict : ResolveVerdictInput → VerdictOutcome
  unfolding read_latest candidates
  resolve_verdict input =
      if trim input.pr_author == ""
      then no_verdict
      else read_latest input (last? (candidates input))

abbrev pub is_polarity : Polarity → Polarity → Bool
is_polarity pass pass = true
is_polarity pass fail = false
is_polarity fail pass = false
is_polarity fail fail = true

pub is_reviewed : VerdictOutcome → Polarity → Bool
is_reviewed no_verdict expected = false
is_reviewed (self_verdict id author) expected = false
is_reviewed (sha_less id polarity) expected = false
is_reviewed (stale id polarity sha) expected = false
is_reviewed (current id polarity sha) expected = is_polarity polarity expected
