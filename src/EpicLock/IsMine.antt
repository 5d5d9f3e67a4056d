-- ===== src/EpicLock/IsMine.antt =====
-- packages/pipeline-cli/src/tools/claim/github.ts: `isMine`, and when it answers as `acquire` did.
use kampus_pipeline.Common.{
  String, true, Option, some, List, ◌≡◌, refl, sym, inl, inr, ◌≢◌, ◌↔◌, arith, string_eq, Same,
  Option-cases,
}
use kampus_pipeline.EpicLock.{
  ClaimComment, ClaimWinner, ClaimVerdict, claim_is_mine, resolve_winner,
}
use kampus_pipeline.EpicLock.RoundTrip.{IsSessionId, session_chars}
use kampus_pipeline.EpicLock.Resolution.{claim_is_mine_iff}
use kampus_pipeline.EpicLock.Acquire.{
  authorized_authors, authors_of, resolve_authorized_winner, is_ours, idle, done, acquired,
}
use kampus_pipeline.EpicLock.World.{World, Gh, Reach}
use kampus_pipeline.EpicLock.Winner.{IsKeyed, Wins, Wins-agree, is_permitted, is_ours_iff}
use kampus_pipeline.EpicLock.Comments.{IsSound}
use kampus_pipeline.EpicLock.Exclusion.{acquired-Wins}

session-ne : (s : String) → IsSessionId s → s ≢ ""
unfolding session_chars
session-ne String.[] good e = cc
session-ne (String.◌∷◌ c s) good e = cc

module _ (lower : String → String) (permission : String → String) where
  pub is_mine : List ClaimComment → Option String → ClaimVerdict
  is_mine comments session_id =
      claim_is_mine lower comments (authorized_authors permission (authors_of comments)) session_id

  -- The comments, with different bodies only at different ids, are a claim that is ours exactly when
  -- there is a session id that is not empty and its session, in lower case, wins: one of the comments
  -- is its claim by a login that may write, and no such claim comes before.
  pub is_mine_iff :
      (cs : List ClaimComment) (o : Option String)
      → IsKeyed cs
      → ((is_mine cs o).mine ≡ true)
        ↔ ((s : String) × (o ≡ some s) × (s ≢ "") × Wins lower permission cs (lower s))
  unfolding is_mine resolve_authorized_winner is_ours
  is_mine_iff cs o keyed = (
    λ h.
        let (s, w, same, there, found, mine) =
          (claim_is_mine_iff lower cs (authorized_authors permission (authors_of cs)) o).0 h in
        (
          s,
          same,
          there,
          (is_ours_iff lower permission cs (lower s) keyed).0
              (ground (arith, string_eq.same_iff w.session (lower s))),
        ),
    λ (s, same, there, wins).
        let ours = (is_ours_iff lower permission cs (lower s) keyed).1 wins in
        (claim_is_mine_iff lower cs (authorized_authors permission (authors_of cs)) o).1
          (found s same there ours),
  )
    where
      found :
          (s : String)
          → o ≡ some s
          → s ≢ ""
          → is_ours (lower s) (resolve_authorized_winner lower permission cs) ≡ true
          → (t : String) × (w : ClaimWinner) × (o ≡ some t)
            × (t ≢ "")
            × (resolve_winner lower cs (authorized_authors permission (authors_of cs)) ≡ some w)
            × (w.session ≡ lower t)
      found s same there ours =
          elim (Option-cases
            (resolve_winner lower cs (authorized_authors permission (authors_of cs)))) [
              | inl n ↦ absurd (ground arith)
              | inr (w, e) ↦
                  (s, w, same, there, e, ground (arith, string_eq.same_iff w.session (lower s)))
            ]

module _ (lower : String → String) (permission : String → String) where
  -- Where the probes of every resolution, also that of `isMine`, let the same logins write, so that no
  -- probe of a login that may write fails, and every listing answers with the comments as they are at
  -- its end: from a world where no session has begun and whose comments have ids and times that were
  -- given out, one body to an id, as long as a session that has acquired the lock of an epic begins no
  -- other command, `isMine` on the comments of the epic tells it that the claim is its own, whatever
  -- the other sessions request, whatever else fails and whatever others post. Sessions have
  -- well-formed ids that differ also in lower case.
  pub acquired-is_mine :
      {A : Type 0} ⦃e : Same A⦄ (session : A → String)
      → ((i j : A) → lower (session i) ≡ lower (session j) → i ≡ j)
      → ((j : A) → IsSessionId (session j))
      → (gh : Gh)
      → ((answer : String → String)
          → gh.Probed answer
          → (l : String) → is_permitted answer l ≡ is_permitted permission l)
      → ((now cs : List ClaimComment) → gh.Listed now cs → cs ≡ now)
      → {w u : World A} (i : A) → IsSound w.store
      → ((k : A) → w.phase k ≡ idle)
      → Reach lower gh session w u
      → u.phase i ≡ done acquired
      → (answer : String → String) → gh.Probed answer
      → (is_mine lower answer u.store.comments (some (session i))).mine ≡ true
  acquired-is_mine {A} session distinct ids gh agree whole {w} {u} i sound start r p answer a =
      let (keyed, wins) =
        acquired-Wins lower permission session distinct ids gh agree whole i sound start r p in
      (is_mine_iff lower answer u.store.comments (some (session i)) keyed).1 (
        session i,
        refl,
        session-ne (session i) (ids i),
        Wins-agree lower answer permission (λ l. sym (agree answer a l)) u.store.comments
            (lower (session i)) wins,
      )
