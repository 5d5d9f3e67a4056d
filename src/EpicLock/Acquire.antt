-- ===== src/EpicLock/Acquire.antt =====
-- packages/pipeline-cli/src/tools/epic-lock/github.ts and tracker/gh-io.ts: the steps of `acquire` and
-- `release`, each as a function of the answer that GitHub gave to the request before it.
-- `permission` stands for what the probes of one call read for each login: the answer of GitHub, or
-- "none" where the probe fails.
use kampus_pipeline.Common.{
  ℕ, String, Bool, false, ◌||◌, not, Option, none, some, List, map, filter, if◌then◌else◌, ◌==◌,
  string_eq, distinct, length,
}
use kampus_pipeline.EpicLock.{ClaimComment, ClaimWinner, resolve_winner, own_claim_comment_ids}

pub data AcquireResult : Type 0 where
  acquired : AcquireResult
  held_by_other : AcquireResult
  label_missing : String → AcquireResult
  claim_post_failed : String → AcquireResult
  lost_to : String → AcquireResult

-- The answer to a request without a value that is used: it landed, or `gh` failed with a text.
pub data Landed : Type 0 where
  landed : Landed
  refused : String → Landed

-- The answer to the POST of the claim: a number, another value, or a failed command.
pub data Posted : Type 0 where
  number : ℕ → Posted
  other : Posted
  post_error : String → Posted

-- Where a session is between two of its requests.
pub data Phase : Type 0 where
  idle : Phase
  -- `acquire`: the label is to be added, the claim is to be posted, the comments are to be listed,
  -- the winner is to be resolved over the comments that were listed, the own claim is to be retracted.
  adding : Phase
  posting : Phase
  listing : ℕ → Phase
  resolving : ℕ → List ClaimComment → Phase
  retracting : ℕ → String → Phase
  done : AcquireResult → Phase
  -- `release`: the claims that are still to be deleted, and how many there were.
  releasing : List ℕ → ℕ → Phase
  released : ℕ → Bool → Phase
  -- An error that is not handled, or a process that died.
  failed : Phase

-- The body of `authorizedAuthors`.
unfoldable pub authorized_authors : (String → String) → List String → List String
authorized_authors permission logins =
    filter (λ l. permission l == "admin" || (permission l == "maintain" || permission l == "write"))
      logins

-- The distinct authors of the comments that have one.
unfoldable pub authors_of : List ClaimComment → List String
authors_of comments =
    distinct (filter (λ a. not (a == "")) (map (λ (c : ClaimComment). c.author) comments))

unfoldable pub after_label_read : Bool → Phase
after_label_read held = if held then done held_by_other else adding

unfoldable pub after_add_label : Landed → Phase
after_add_label landed = posting
after_add_label (refused stderr) = done (label_missing stderr)

unfoldable pub after_post : Posted → Phase
after_post (number id) = listing id
after_post other = done (claim_post_failed "claim POST did not return a comment id")
after_post (post_error stderr) = done (claim_post_failed stderr)

-- `winner?.session ?? "(none)"`.
abbrev session_or_none : Option ClaimWinner → String
session_or_none none = "(none)"
session_or_none (some w) = w.session

-- `winner !== null && winner.session === sessionId.toLowerCase()`, of the id in lower case.
unfoldable pub is_ours : String → Option ClaimWinner → Bool
is_ours mine none = false
is_ours mine (some w) = w.session == mine

unfoldable pub after_retract : String → Phase
after_retract winner = done (lost_to winner)

-- The DELETE of the label: it was there, or the answer is a 404.
unfoldable pub after_unlabel : ℕ → Bool → Phase
after_unlabel retracted was_there = released retracted was_there

unfoldable pub start_release : (String → String) → String → List ClaimComment → Phase
start_release lower session_id comments =
    let mine = own_claim_comment_ids lower comments session_id in releasing mine (length mine)

module _ (lower : String → String) (permission : String → String) where
  unfoldable pub resolve_authorized_winner : List ClaimComment → Option ClaimWinner
  resolve_authorized_winner comments =
      resolve_winner lower comments (authorized_authors permission (authors_of comments))

  unfoldable pub after_list : String → ℕ → List ClaimComment → Phase
  unfolding is_ours
  after_list session_id claim_id comments =
      let winner = resolve_authorized_winner comments in
      if is_ours (lower session_id) winner
      then done acquired
      else retracting claim_id (session_or_none winner)
