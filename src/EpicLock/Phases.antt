-- ===== src/EpicLock/Phases.antt =====
-- packages/pipeline-cli/src/tools/epic-lock/github.ts: what a session needs of the comments at
-- each step of `acquire` and `release`.
use kampus_pipeline.Common.{
  ℕ, String, Bool, true, false, some, none, List, ◌≡◌, ◌≢◌, refl, ap, ◌∙◌, filter, In, In-filter,
  string_eq, nat_eq, Option, if◌then◌else◌, In-map,
}
use kampus_pipeline.EpicLock.{ClaimComment, parse_claim_session, own_claim_comment_ids, is_session}
use kampus_pipeline.EpicLock.Acquire.{
  Phase, idle, adding, posting, listing, resolving, retracting, done, releasing, released, failed,
  acquired, held_by_other, label_missing, claim_post_failed, lost_to, after_list, is_ours,
  resolve_authorized_winner,
}
use kampus_pipeline.EpicLock.World.{Store, IsFresh, post, remove}
use kampus_pipeline.EpicLock.Winner.{Wins, Wins-agree, is_permitted, is_ours-Wins}
use kampus_pipeline.EpicLock.Comments.{
  IsSound, IsOwn, post-IsOwn, remove-IsOwn, post-Wins, remove-Wins,
}

module _ (lower : String → String) (permission : String → String) where
  -- What holds of a session, in lower case, at a phase.
  abbrev pub PhaseOk : Store → String → Phase → Type 0
  PhaseOk st s (listing id) = IsOwn lower permission st s id
  PhaseOk st s (resolving id cs) =
      IsOwn lower permission st s id
      × (Wins lower permission cs s → Wins lower permission st.comments s)
  PhaseOk st s (retracting id w) = IsOwn lower permission st s id
  PhaseOk st s (done acquired) = Wins lower permission st.comments s
  PhaseOk st s (done held_by_other) = Unit {0}
  PhaseOk st s (done (label_missing e)) = Unit {0}
  PhaseOk st s (done (claim_post_failed e)) = Unit {0}
  PhaseOk st s (done (lost_to w)) = Unit {0}
  PhaseOk st s (releasing ids n) = (id : ℕ) → In id ids → IsOwn lower permission st s id
  PhaseOk st s idle = Unit {0}
  PhaseOk st s adding = Unit {0}
  PhaseOk st s posting = Unit {0}
  PhaseOk st s (released n b) = Unit {0}
  PhaseOk st s failed = Unit {0}

  -- What a change of the comments that keeps the claims of a session and what it wins keeps.
  change-PhaseOk :
      (st su : Store) (s : String) (p : Phase)
      → ((id : ℕ) → IsOwn lower permission st s id → IsOwn lower permission su s id)
      → (Wins lower permission st.comments s → Wins lower permission su.comments s)
      → PhaseOk st s p
      → PhaseOk su s p
  change-PhaseOk st su s (listing id) own wins h = own id h
  change-PhaseOk st su s (resolving id cs) own wins h = (own id h.0, λ w. wins (h.1 w))
  change-PhaseOk st su s (retracting id w) own wins h = own id h
  change-PhaseOk st su s (done acquired) own wins h = wins h
  change-PhaseOk st su s (done held_by_other) own wins h = h
  change-PhaseOk st su s (done (label_missing e)) own wins h = h
  change-PhaseOk st su s (done (claim_post_failed e)) own wins h = h
  change-PhaseOk st su s (done (lost_to w)) own wins h = h
  change-PhaseOk st su s (releasing ids n) own wins h = λ id i. own id (h id i)
  change-PhaseOk st su s idle own wins h = h
  change-PhaseOk st su s adding own wins h = h
  change-PhaseOk st su s posting own wins h = h
  change-PhaseOk st su s (released n b) own wins h = h
  change-PhaseOk st su s failed own wins h = h

  pub post-PhaseOk :
      (st : Store) (e : ClaimComment) (s : String) (p : Phase)
      → IsSound st
      → IsFresh st e
      → PhaseOk st s p
      → PhaseOk (post st e) s p
  post-PhaseOk st e s p sound fresh =
      change-PhaseOk st (post st e) s p (λ id. post-IsOwn lower permission st e s id fresh)
        (post-Wins lower permission st e s sound fresh)

  pub remove-PhaseOk :
      (st : Store) (s t : String) (k : ℕ) (p : Phase)
      → IsOwn lower permission st t k
      → s ≢ t
      → PhaseOk st s p
      → PhaseOk (remove st k) s p
  remove-PhaseOk st s t k p own ne =
      change-PhaseOk st (remove st k) s p (λ id. remove-IsOwn lower permission st s id k)
        (remove-Wins lower permission st s t k own ne)

  if-PhaseOk :
      (st : Store) (s w : String) (id : ℕ) (b : Bool)
      → IsOwn lower permission st s id
      → (b ≡ true → Wins lower permission st.comments s)
      → PhaseOk st s (if b then done acquired else retracting id w)
  if-PhaseOk st s w id true own wins = wins refl
  if-PhaseOk st s w id false own wins = own

  pub after_list-PhaseOk :
      (answer : String → String)
      → ((l : String) → is_permitted answer l ≡ is_permitted permission l)
      → (st : Store) (sid : String) (id : ℕ) (cs : List ClaimComment)
      → PhaseOk st (lower sid) (resolving id cs)
      → PhaseOk st (lower sid) (after_list lower answer sid id cs)
  unfolding after_list
  after_list-PhaseOk answer agree st sid id cs (own, wins) =
      if-PhaseOk st (lower sid) _ id
        (is_ours (lower sid) (resolve_authorized_winner lower answer cs)) own
        (λ h. wins (
          Wins-agree lower permission answer agree cs (lower sid)
            (is_ours-Wins lower answer cs (lower sid) h)))

  pub own_claim_comment_ids-IsOwn :
      (st : Store) (sid : String) (id : ℕ)
      → IsSound st
      → In id (own_claim_comment_ids lower st.comments sid)
      → IsOwn lower permission st (lower sid) id
  unfolding own_claim_comment_ids
  own_claim_comment_ids-IsOwn st sid id sound i =
      let own =
        λ (c : ClaimComment). is_session lower (lower sid) (parse_claim_session lower c.body) in
      let (c, j, e) = (In-map (λ (c : ClaimComment). c.id) id (filter own st.comments)).0 i in
      let (k, mine) = (In-filter own c st.comments).0 j in
      (
        rw e (sound.known c k),
        λ d l same.
            ap (parse_claim_session lower) (sound.keyed d c l k (same ∙ e))
            ∙ session_of (parse_claim_session lower c.body) mine,
      )
    where
      session_of :
          (o : Option String) → is_session lower (lower sid) o ≡ true → o ≡ some (lower sid)
      session_of none h = cc
      session_of (some t) h = ap some ((string_eq.same_iff t (lower sid)).0 h)
