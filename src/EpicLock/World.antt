-- ===== src/EpicLock/World.antt =====
-- packages/pipeline-cli/src/tools/epic-lock/github.ts: sessions that acquire and release the lock of one
-- epic, with their requests to GitHub in any order. Session `j` has the id
-- `session j`. GitHub gives a
-- new comment a larger id than every comment before it and no earlier time.
-- Each resolution probes the permissions anew, and what it gets is its own: a login whose probe fails
-- has "none" in it. A listing of more than 100
-- comments is several requests, so that its answer need not be
-- what the comments are at any one time. Both are what `Gh` says that `gh` can answer.
use kampus_pipeline.Common.{
  ℕ, ◌<◌, String, Bool, true, false, not, List, [], ◌∷◌, ◌++◌, ◌≡◌, ◌≢◌, filter, In, if◌then◌else◌,
  ◌==◌, nat_eq, Same, text_lt,
}
use kampus_pipeline.EpicLock.{ClaimComment}
use kampus_pipeline.EpicLock.RoundTrip.{claim_body}
use kampus_pipeline.EpicLock.Acquire.{
  Phase, idle, adding, posting, listing, resolving, retracting, done, releasing, released, failed,
  landed, refused, Posted, number, after_label_read, after_add_label, after_post, after_list,
  after_retract, start_release, after_unlabel,
}

-- The comments of the epic, with the largest id and the latest time that were given out.
pub record Store : Type 0 where
  pub comments : List ClaimComment
  pub last_id : ℕ
  pub last_time : String

-- The sessions are the elements of `A`.
pub record World (A : Type 0) : Type 0 where
  pub label : Bool
  pub store : Store
  pub phase : A → Phase

-- What `gh` can answer: to the probes of one resolution, as the permission that is read for each login,
-- and to a listing that ends when the comments are the first list.
pub record Gh : Type 1 where
  pub Probed : (String → String) → Type 0
  pub Listed : List ClaimComment → List ClaimComment → Type 0

abbrev pub IsFresh : Store → ClaimComment → Type 0
IsFresh st c = (st.last_id < c.id) × (text_lt c.created_at st.last_time ≡ false)

abbrev pub post : Store → ClaimComment → Store
post st c = record { comments = st.comments ++ c ∷ []; last_id = c.id; last_time = c.created_at }

abbrev pub remove : Store → ℕ → Store
remove st id = record st { comments = filter (λ (c : ClaimComment). not (c.id == id)) st.comments }

abbrev pub set_phase : {A : Type 0} ⦃e : Same A⦄ → (A → Phase) → A → Phase → A → Phase
set_phase phase j p i = if i == j then p else phase i

-- No command of the session is under way.
abbrev pub is_at_rest : Phase → Bool
is_at_rest idle = true
is_at_rest (done r) = true
is_at_rest (released n b) = true
is_at_rest failed = true
is_at_rest adding = false
is_at_rest posting = false
is_at_rest (listing id) = false
is_at_rest (resolving id cs) = false
is_at_rest (retracting id s) = false
is_at_rest (releasing ids n) = false

module _ {A : Type 0} ⦃e : Same A⦄ (lower : String → String) (gh : Gh) (session : A → String) where
  pub data Step (w : World A) (u : World A) : Type 0 where
    read_label :
        (j : A)
        → is_at_rest (w.phase j) ≡ true
        → u ≡ record w { phase = set_phase w.phase j (after_label_read w.label) }
        → Step w u
    -- The POST of the label lands.
    add_label :
        (j : A)
        → w.phase j ≡ adding
        → u ≡ record w { label = true; phase = set_phase w.phase j (after_add_label landed) }
        → Step w u
    -- The POST of the label fails.
    miss_label :
        (j : A) (stderr : String)
        → w.phase j ≡ adding
        → u ≡ record w { phase = set_phase w.phase j (after_add_label (refused stderr)) }
        → Step w u
    -- The POST of the claim lands, and its answer is the id of the comment.
    post_claim :
        (j : A) (c : ClaimComment) (now : String)
        → w.phase j ≡ posting
        → IsFresh w.store c
        → c.body ≡ claim_body (session j) now
        → u ≡ record w {
          store = post w.store c;
          phase = set_phase w.phase j (after_post (number c.id));
        }
        → Step w u
    -- The answer to the POST of the claim is a failure or no number: it did not land, or it did.
    miss_claim :
        (j : A) (r : Posted)
        → ((id : ℕ) → r ≢ number id)
        → w.phase j ≡ posting
        → u ≡ record w { phase = set_phase w.phase j (after_post r) }
        → Step w u
    unseen_claim :
        (j : A) (r : Posted) (c : ClaimComment)
        → ((id : ℕ) → r ≢ number id)
        → w.phase j ≡ posting
        → IsFresh w.store c
        → u ≡ record w { store = post w.store c; phase = set_phase w.phase j (after_post r) }
        → Step w u
    list :
        (j : A) (id : ℕ) (cs : List ClaimComment)
        → w.phase j ≡ listing id
        → gh.Listed w.store.comments cs
        → u ≡ record w { phase = set_phase w.phase j (resolving id cs) }
        → Step w u
    resolve :
        (j : A) (id : ℕ) (cs : List ClaimComment) (answer : String → String)
        → w.phase j ≡ resolving id cs
        → gh.Probed answer
        → u ≡ record w { phase = set_phase w.phase j (after_list lower answer (session j) id cs) }
        → Step w u
    -- The DELETE of the own claim lands, or fails and is ignored.
    retract :
        (j : A) (id : ℕ) (s : String)
        → w.phase j ≡ retracting id s
        → u ≡ record w { store = remove w.store id; phase = set_phase w.phase j (after_retract s) }
        → Step w u
    miss_retract :
        (j : A) (id : ℕ) (s : String)
        → w.phase j ≡ retracting id s
        → u ≡ record w { phase = set_phase w.phase j (after_retract s) }
        → Step w u
    release :
        (j : A) (cs : List ClaimComment)
        → is_at_rest (w.phase j) ≡ true
        → gh.Listed w.store.comments cs
        → u ≡ record w { phase = set_phase w.phase j (start_release lower (session j) cs) }
        → Step w u
    -- The DELETE of one of the own claims, in any order. A 404 leaves the comments as they are.
    delete :
        (j : A) (id : ℕ) (ids : List ℕ) (n : ℕ)
        → w.phase j ≡ releasing ids n
        → In id ids
        → u ≡ record w {
          store = remove w.store id;
          phase = set_phase w.phase j (releasing (filter (λ i. not (i == id)) ids) n);
        }
        → Step w u
    unlabel :
        (j : A) (n : ℕ)
        → w.phase j ≡ releasing [] n
        → u ≡ record w { label = false; phase = set_phase w.phase j (after_unlabel n w.label) }
        → Step w u
    -- An error that `acquire` and `release` do not handle, or the end of the process, at any time.
    fail : (j : A) → u ≡ record w { phase = set_phase w.phase j failed } → Step w u
    -- Somebody else comments, or sets or clears the label.
    comment :
        (c : ClaimComment) → IsFresh w.store c → u ≡ record w { store = post w.store c } → Step w u
    relabel : (b : Bool) → u ≡ record w { label = b } → Step w u

  pub data Reach (w : World A) : World A → Type 0 where
    here : Reach w w
    next : {u v : World A} → Reach w u → Step u v → Reach w v
