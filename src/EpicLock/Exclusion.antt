-- ===== src/EpicLock/Exclusion.antt =====
-- packages/pipeline-cli/src/tools/epic-lock/github.ts: when no two sessions hold the lock of one epic.
use kampus_pipeline.Common.{
  ℕ, String, Same, List, Bool, true, false, not, some, [], ◌∷◌, ◌≡◌, ◌≢◌, refl, ap, ◌∙◌, inl, inr,
  arith, In-append, In-filter, ◌==◌, string_eq, nat_eq, if◌then◌else◌,
}
use kampus_pipeline.EpicLock.{ClaimComment, parse_claim_session}
use kampus_pipeline.EpicLock.RoundTrip.{IsSessionId, parse_claim_session-claim_body}
use kampus_pipeline.EpicLock.Acquire.{
  Phase, idle, done, acquired, Posted, number, other, post_error, after_label_read, after_add_label,
  after_post, after_retract, start_release, after_unlabel,
}
use kampus_pipeline.EpicLock.World.{
  Store, World, Gh, IsFresh, post, remove, set_phase, Step, read_label, add_label, miss_label,
  post_claim, miss_claim, unseen_claim, list, resolve, retract, miss_retract, release, delete,
  unlabel, fail, comment, relabel, Reach, here, next,
}
use kampus_pipeline.EpicLock.Winner.{IsKeyed, Wins, Wins-unique, is_permitted}
use kampus_pipeline.EpicLock.Phases.{
  PhaseOk, post-PhaseOk, remove-PhaseOk, after_list-PhaseOk, own_claim_comment_ids-IsOwn,
}
use kampus_pipeline.EpicLock.Comments.{IsSound, post-IsSound, remove-IsSound, IsOwn, remove-IsOwn}

module _ (lower : String → String) (permission : String → String) where
  module _ {A : Type 0} ⦃e : Same A⦄ (session : A → String) where
    -- The comments are sound, and what each session needs of them holds.
    pub record IsValid (w : World A) : Type 0 where
      pub sound : IsSound w.store
      pub phases : (i : A) → PhaseOk lower permission w.store (lower (session i)) (w.phase i)

    -- A step of session `j` that leaves the other sessions with what they need.
    set_phase-IsValid :
        (w : World A) (st : Store) (b : Bool) (j : A) (p : Phase)
        → IsSound st
        → ((i : A) → i ≢ j → PhaseOk lower permission st (lower (session i)) (w.phase i))
        → PhaseOk lower permission st (lower (session j)) p
        → IsValid (record { label = b; store = st; phase = set_phase w.phase j p })
    set_phase-IsValid w st b j p sound others mine = record {
      sound = sound;
      phases = λ i.
          pick i (i == j) (λ h. rw ((e.same_iff i j).0 h) mine)
            (λ h. others i (λ e. false_of i e h));
    }
      where
        pick :
            (i : A) (t : Bool)
            → (t ≡ true → PhaseOk lower permission st (lower (session i)) p)
            → (t ≡ false → PhaseOk lower permission st (lower (session i)) (w.phase i))
            → PhaseOk lower permission st (lower (session i)) (if t then p else w.phase i)
        pick i true a b = a refl
        pick i false a b = b refl

        false_of : (i : A) → i ≡ j → (i == j) ≡ false → ⊥
        false_of i q h = ground (arith, e.same_iff i j)

    -- A step of session `j` that leaves the comments as they are.
    quiet-IsValid :
        (w : World A) (b : Bool) (j : A) (p : Phase)
        → IsValid w
        → PhaseOk lower permission w.store (lower (session j)) p
        → IsValid (record { label = b; store = w.store; phase = set_phase w.phase j p })
    quiet-IsValid w b j p v = set_phase-IsValid w w.store b j p v.sound (λ i ne. v.phases i)

    -- A step of session `j` that posts a comment.
    post-IsValid :
        (w : World A) (c : ClaimComment) (j : A) (p : Phase)
        → IsValid w
        → IsFresh w.store c
        → PhaseOk lower permission (post w.store c) (lower (session j)) p
        → IsValid
            (record { label = w.label; store = post w.store c; phase = set_phase w.phase j p })
    post-IsValid w c j p v fresh =
        set_phase-IsValid w (post w.store c) w.label j p (post-IsSound w.store c v.sound fresh)
          (λ i ne.
            post-PhaseOk lower permission w.store c (lower (session i)) (w.phase i) v.sound fresh
              (v.phases i))

    module _ (distinct : (i j : A) → lower (session i) ≡ lower (session j) → i ≡ j) where
      -- A step of session `j` that deletes a comment of its own.
      remove-IsValid :
          (w : World A) (id : ℕ) (j : A) (p : Phase)
          → IsValid w
          → IsOwn lower permission w.store (lower (session j)) id
          → PhaseOk lower permission (remove w.store id) (lower (session j)) p
          → IsValid
              (record { label = w.label; store = remove w.store id; phase = set_phase w.phase j p })
      remove-IsValid w id j p v own =
          set_phase-IsValid w (remove w.store id) w.label j p (remove-IsSound w.store id v.sound)
            (λ i ne.
              remove-PhaseOk lower permission w.store (lower (session i)) (lower (session j)) id
                (w.phase i) own (λ e. ne (distinct i j e)) (v.phases i))

      at :
          (w : World A) (j : A) (p : Phase)
          → IsValid w
          → w.phase j ≡ p
          → PhaseOk lower permission w.store (lower (session j)) p
      at w j p v e = rw (← e) (v.phases j)

      after_post-PhaseOk :
          (st : Store) (s : String) (r : Posted)
          → ((id : ℕ) → r ≢ number id)
          → PhaseOk lower permission st s (after_post r)
      unfolding after_post
      after_post-PhaseOk st s (number id) h = absurd (h id refl)
      after_post-PhaseOk st s other h = tt
      after_post-PhaseOk st s (post_error e) h = tt

      after_label_read-PhaseOk :
          (st : Store) (s : String) (b : Bool) → PhaseOk lower permission st s (after_label_read b)
      unfolding after_label_read
      after_label_read-PhaseOk st s true = tt
      after_label_read-PhaseOk st s false = tt

      new-IsOwn :
          (st : Store) (c : ClaimComment) (s : String)
          → IsSound st
          → IsFresh st c
          → parse_claim_session lower c.body ≡ some s
          → IsOwn lower permission (post st c) s c.id
      new-IsOwn st c s sound fresh parsed = (
        omega arith,
        λ d i same.
            ap (parse_claim_session lower) (
              (post-IsSound st c sound fresh).keyed d c i
                ((In-append c st.comments (c ∷ [])).1 (inr (inl refl))) same)
            ∙ parsed,
      )

      module _ (ids : (j : A) → IsSessionId (session j)) (gh : Gh)
          (agree : (answer : String → String)
            → gh.Probed answer
            → (l : String) → is_permitted answer l ≡ is_permitted permission l)
          (whole : (now cs : List ClaimComment) → gh.Listed now cs → cs ≡ now) where
        Step-IsValid : (w u : World A) → Step lower gh session w u → IsValid w → IsValid u
        unfolding after_add_label after_retract start_release after_unlabel
        Step-IsValid w u (read_label j rest q) v = rw q (
            quiet-IsValid w w.label j _ v
              (after_label_read-PhaseOk w.store (lower (session j)) w.label))
        Step-IsValid w u (add_label j p q) v = rw q (quiet-IsValid w true j _ v tt)
        Step-IsValid w u (miss_label j stderr p q) v = rw q (quiet-IsValid w w.label j _ v tt)
        Step-IsValid w u (post_claim j c now p fresh body q) v = rw q (
            post-IsValid w c j (after_post (number c.id)) v fresh (
              unfold after_post in
              new-IsOwn w.store c (lower (session j)) v.sound fresh
                (rw body (parse_claim_session-claim_body lower (session j) now (ids j)))))
        Step-IsValid w u (miss_claim j r h p q) v =
            rw q
              (quiet-IsValid w w.label j _ v (after_post-PhaseOk w.store (lower (session j)) r h))
        Step-IsValid w u (unseen_claim j r c h p fresh q) v = rw q (
            post-IsValid w c j _ v fresh
              (after_post-PhaseOk (post w.store c) (lower (session j)) r h))
        Step-IsValid w u (list j id cs p l q) v = rw q (
            quiet-IsValid w w.label j _ v
              (at w j _ v p, λ h. rw (whole w.store.comments cs l) at h))
        Step-IsValid w u (resolve j id cs answer p a q) v = rw q (
            quiet-IsValid w w.label j _ v (
              after_list-PhaseOk lower permission answer (agree answer a) w.store (session j) id cs
                (at w j _ v p)))
        Step-IsValid w u (retract j id s p q) v = rw q (remove-IsValid w id j _ v (at w j _ v p) tt)
        Step-IsValid w u (miss_retract j id s p q) v = rw q (quiet-IsValid w w.label j _ v tt)
        Step-IsValid w u (release j cs rest l q) v = rw q (
            quiet-IsValid w w.label j _ v (λ id i.
              own_claim_comment_ids-IsOwn lower permission w.store (session j) id v.sound
                (rw (whole w.store.comments cs l) at i)))
        Step-IsValid w u (delete j id rest n p i q) v = rw q (
            remove-IsValid w id j _ v (at w j _ v p id i) (λ k m.
              remove-IsOwn lower permission w.store (lower (session j)) k id
                (at w j _ v p k ((In-filter (λ x. not (x == id)) k rest).0 m).0)))
        Step-IsValid w u (unlabel j n p q) v = rw q (quiet-IsValid w false j _ v tt)
        Step-IsValid w u (fail j q) v = rw q (quiet-IsValid w w.label j _ v tt)
        Step-IsValid w u (comment c fresh q) v = rw q (record {
          sound = post-IsSound w.store c v.sound fresh;
          phases = λ i.
              post-PhaseOk lower permission w.store c (lower (session i)) (w.phase i) v.sound fresh
                (v.phases i);
        })
        Step-IsValid w u (relabel b q) v = rw q (record { sound = v.sound; phases = v.phases })

        start-IsValid : {w : World A} → IsSound w.store → ((k : A) → w.phase k ≡ idle) → IsValid w
        start-IsValid sound start = record { sound = sound; phases = λ i. rw (start i) tt }

        Reach-IsValid : {w u : World A} → IsValid w → Reach lower gh session w u → IsValid u
        Reach-IsValid v here = v
        Reach-IsValid v (next r s) = Step-IsValid _ _ s (Reach-IsValid v r)

        Reach-start :
            {w u : World A}
            → IsSound w.store
            → ((k : A) → w.phase k ≡ idle)
            → Reach lower gh session w u
            → IsValid u
        Reach-start sound start r = Reach-IsValid (start-IsValid sound start) r

        -- A session that has acquired the lock wins over the comments as they are now.
        pub acquired-Wins :
            {w u : World A} (i : A)
            → IsSound w.store
            → ((k : A) → w.phase k ≡ idle)
            → Reach lower gh session w u
            → u.phase i ≡ done acquired
            → IsKeyed u.store.comments × Wins lower permission u.store.comments (lower (session i))
        acquired-Wins i sound start r p =
            let v = Reach-start sound start r in (v.sound.keyed, at _ i _ v p)

        -- Where the probes of every resolution let the same logins write, so that no probe of a login
        -- that may write fails, and every listing answers with the comments as they are at its end: from
        -- a world where no session has begun and whose comments have ids and times that were given out,
        -- one body to an id, whatever the order of the requests, the other failures and the comments of
        -- others, two sessions that have acquired the lock and not begun another command are one session.
        -- Sessions have well-formed ids that differ also in lower case.
        pub acquired_unique :
            {w u : World A} (i j : A)
            → IsSound w.store
            → ((k : A) → w.phase k ≡ idle)
            → Reach lower gh session w u
            → u.phase i ≡ done acquired
            → u.phase j ≡ done acquired
            → i ≡ j
        acquired_unique i j sound start r p q =
            let (keyed, wins) = acquired-Wins i sound start r p in
            distinct i j
              (Wins-unique lower permission _ _ _ keyed wins (acquired-Wins j sound start r q).1)
