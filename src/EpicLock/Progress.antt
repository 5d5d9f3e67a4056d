-- ===== src/EpicLock/Progress.antt =====
-- packages/pipeline-cli/src/tools/epic-lock/github.ts: a session that asks for a free lock gets it.
use kampus_pipeline.Common.{
  ℕ, suc, String, true, false, List, [], ◌∷◌, ◌≡◌, refl, ◌∙◌, inl, inr, arith, In, In-append, Same,
}
use kampus_pipeline.Common.TextOrder.{text_lt_asym}
use kampus_pipeline.EpicLock.{ClaimComment}
use kampus_pipeline.EpicLock.RoundTrip.{IsSessionId, claim_body, parse_claim_session-claim_body}
use kampus_pipeline.EpicLock.Acquire.{
  Phase, adding, posting, listing, resolving, done, acquired, landed, number, after_label_read,
  after_add_label, after_post, after_list,
}
use kampus_pipeline.EpicLock.World.{
  Store, World, Gh, IsFresh, post, set_phase, is_at_rest, read_label, add_label, post_claim, list,
  resolve, Reach, here, next,
}
use kampus_pipeline.EpicLock.Winner.{IsKeyed, Before-refl, Wins, IsClaim, is_permitted, is_ours_iff}
use kampus_pipeline.EpicLock.Comments.{IsSound, post-IsSound}

module _ (lower : String → String) (permission : String → String) {A : Type 0} ⦃e : Same A⦄
    (session : A → String) where
  -- The label is not set, and no comment is a claim of somebody who may write.
  pub record IsFree (w : World A) : Type 0 where
    pub unlabelled : w.label ≡ false
    pub unclaimed :
        (c : ClaimComment) (s : String) → In c w.store.comments → IsClaim lower permission c s → ⊥

  -- The comment that GitHub makes of the claim.
  abbrev claim : Store → String → String → ClaimComment
  claim st author session_id = record {
    id = suc st.last_id;
    author = author;
    created_at = st.last_time;
    body = claim_body session_id st.last_time;
  }

  claim-IsFresh :
      (st : Store) (author session_id : String) → IsFresh st (claim st author session_id)
  claim-IsFresh st author session_id =
      (omega arith, ground (arith, text_lt_asym st.last_time st.last_time))

  claim-Wins :
      (st : Store) (author session_id : String)
      → ((c : ClaimComment) (s : String) → In c st.comments → IsClaim lower permission c s → ⊥)
      → is_permitted permission author ≡ true
      → IsSessionId session_id
      → Wins lower permission (post st (claim st author session_id)).comments (lower session_id)
  claim-Wins st author session_id unclaimed permitted good = (
    claim st author session_id,
    (In-append _ st.comments (claim st author session_id ∷ [])).1 (inr (inl refl)),
    (permitted, parse_claim_session-claim_body lower session_id st.last_time good),
    λ d t i k. elim ((In-append d st.comments (claim st author session_id ∷ [])).0 i) [
      | inl j ↦ absurd (unclaimed d t j k)
      | inr (inl q) ↦ rw q (Before-refl (claim st author session_id))
      | inr (inr n) ↦ absurd n
    ],
  )

  pub set_phase_same : (phase : A → Phase) (j : A) (p : Phase) → set_phase phase j p j ≡ p
  set_phase_same phase j p = ground (arith, e.same_iff j j)

  after_list-acquired :
      (cs : List ClaimComment) (sid : String) (id : ℕ)
      → IsKeyed cs
      → Wins lower permission cs (lower sid)
      → after_list lower permission sid id cs ≡ done acquired
  unfolding after_list
  after_list-acquired cs sid id keyed wins =
      rw ((is_ours_iff lower permission cs (lower sid) keyed).1 wins) refl

  -- Where the comments have ids and times that were given out, one body to an id, and where `gh` can
  -- answer the probes with the permissions and a listing with the comments as they are, a session with
  -- a well-formed id that has no command under way can acquire a free lock, through a login that may
  -- write.
  pub acquired_reached :
      (gh : Gh)
      → gh.Probed permission
      → ((cs : List ClaimComment) → gh.Listed cs cs)
      → (w : World A) (j : A) (author : String) → IsSound w.store
      → IsFree w
      → is_at_rest (w.phase j) ≡ true
      → is_permitted permission author ≡ true
      → IsSessionId (session j)
      → (u : World A) × Reach lower gh session w u × (u.phase j ≡ done acquired)
  unfolding after_label_read after_add_label after_post
  acquired_reached gh probed listed w j author sound free rest permitted good = (
    w5,
    next
        (next
          (next (next (next here (read_label j rest refl)) (add_label j p1 refl)) (
            post_claim j c w.store.last_time p2 (claim-IsFresh w.store author (session j)) refl
              refl))
          (list j c.id cs p3 (listed cs) refl))
        (resolve j c.id cs permission p4 probed refl),
    set_phase_same w4.phase j (after_list lower permission (session j) c.id cs)
        ∙ after_list-acquired cs (session j) c.id
            (post-IsSound w.store c sound (claim-IsFresh w.store author (session j))).keyed
            (claim-Wins w.store author (session j) free.unclaimed permitted good),
  )
    where
      c : ClaimComment
      c = claim w.store author (session j)

      cs : List ClaimComment
      cs = (post w.store c).comments

      w1 : World A
      w1 = record w { phase = set_phase w.phase j (after_label_read w.label) }

      w2 : World A
      w2 = record w1 { label = true; phase = set_phase w1.phase j (after_add_label landed) }

      w3 : World A
      w3 = record w2 {
        store = post w2.store c;
        phase = set_phase w2.phase j (after_post (number c.id));
      }

      w4 : World A
      w4 = record w3 { phase = set_phase w3.phase j (resolving c.id w3.store.comments) }

      w5 : World A
      w5 = record w4 {
        phase = set_phase w4.phase j (after_list lower permission (session j) c.id cs);
      }

      p1 : w1.phase j ≡ adding
      p1 = set_phase_same w.phase j (after_label_read w.label) ∙ rw free.unlabelled refl

      p2 : w2.phase j ≡ posting
      p2 = set_phase_same w1.phase j (after_add_label landed)

      p3 : w3.phase j ≡ listing c.id
      p3 = set_phase_same w2.phase j (after_post (number c.id))

      p4 : w4.phase j ≡ resolving c.id cs
      p4 = set_phase_same w3.phase j (resolving c.id cs)
