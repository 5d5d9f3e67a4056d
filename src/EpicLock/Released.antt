-- ===== src/EpicLock/Released.antt =====
-- packages/pipeline-cli/src/tools/epic-lock/github.ts: a release that nothing disturbs takes back every
-- claim of the session and the label.
use kampus_pipeline.Common.{
  ℕ, zero, suc, ◌≤◌, String, Bool, true, false, not, some, List, [], ◌∷◌, ◌≡◌, ◌≢◌, refl, ap, ◌∙◌,
  inl, arith, In, In-filter, In-map, filter, length, ◌==◌, nat_eq, string_eq, Same,
}
use kampus_pipeline.EpicLock.{ClaimComment, parse_claim_session, own_claim_comment_ids, is_session}
use kampus_pipeline.EpicLock.Acquire.{releasing, released, start_release, after_unlabel}
use kampus_pipeline.EpicLock.World.{
  Store, World, Gh, remove, set_phase, is_at_rest, release, delete, unlabel, Reach, here, next,
}
use kampus_pipeline.EpicLock.Progress.{set_phase_same}

length-filter_le : (p : ℕ → Bool) (xs : List ℕ) → length (filter p xs) ≤ length xs
unfolding filter
length-filter_le p [] = omega arith
length-filter_le p (x ∷ xs) = ground (arith, length-filter_le p xs)

length-filter_same :
    (id : ℕ) (ids : List ℕ) → length (filter (λ i. not (i == id)) (id ∷ ids)) ≤ length ids
unfolding filter
length-filter_same id ids =
    ground (arith, length-filter_le (λ i. not (i == id)) ids, nat_eq.same_iff id id)

-- A comment that is left after one id and then others are deleted has none of these ids.
In-remove_and :
    (st : Store) (c : ClaimComment) (id : ℕ) (ids : List ℕ)
    → In c (remove st id).comments
    → ¬ In c.id (filter (λ i. not (i == id)) (id ∷ ids))
    → In c st.comments × ¬ In c.id (id ∷ ids)
In-remove_and st c id ids i ne =
    let (j, k) = (In-filter (λ (d : ClaimComment). not (d.id == id)) c st.comments).0 i in
    (j, λ x. ne ((In-filter (λ i. not (i == id)) c.id (id ∷ ids)).1 (x, k)))

module _ {A : Type 0} ⦃e : Same A⦄ (lower : String → String) (gh : Gh) (session : A → String) where
  Reach-trans :
      {u v w : World A}
      → Reach lower gh session u v
      → Reach lower gh session v w
      → Reach lower gh session u w
  Reach-trans r here = r
  Reach-trans r (next q s) = next (Reach-trans r q) s

  In-own_claim_comment_ids :
      (cs : List ClaimComment) (sid : String) (c : ClaimComment)
      → In c cs
      → parse_claim_session lower c.body ≡ some (lower sid)
      → In c.id (own_claim_comment_ids lower cs sid)
  unfolding own_claim_comment_ids
  In-own_claim_comment_ids cs sid c i h =
      let own =
        λ (c : ClaimComment). is_session lower (lower sid) (parse_claim_session lower c.body) in
      (In-map (λ (c : ClaimComment). c.id) c.id (filter own cs)).1 (
        c,
        (In-filter own c cs).1 (i, rw h ((string_eq.same_iff (lower sid) (lower sid)).1 refl)),
        refl,
      )

  -- The claims with the ids are deleted, and nothing else.
  abbrev Deleted : World A → World A → List ℕ → Type 0
  Deleted w u ids =
      (u.label ≡ w.label)
      × ((c : ClaimComment) → In c u.store.comments → In c w.store.comments × ¬ In c.id ids)

  delete_all :
      (fuel : ℕ) (w : World A) (j : A) (ids : List ℕ) (n : ℕ)
      → length ids ≤ fuel
      → w.phase j ≡ releasing ids n
      → (u : World A) × Reach lower gh session w u × (u.phase j ≡ releasing [] n) × Deleted w u ids
  delete_all fuel w j [] n h p = (w, here, p, (refl, λ c i. (i, λ x. x)))
  delete_all zero w j (id ∷ ids) n h p = absurd (omega (arith, h))
  delete_all (suc fuel) w j (id ∷ ids) n h p =
      let kept : List ℕ = filter (λ i. not (i == id)) (id ∷ ids) in
      let w' : World A = record w {
        store = remove w.store id;
        phase = set_phase w.phase j (releasing kept n);
      } in
      let (u, r, q, (same, gone)) =
        delete_all fuel w' j kept n (omega (arith, h, length-filter_same id ids))
          (set_phase_same lower (λ l. l) session w.phase j (releasing kept n)) in
      (
        u,
        Reach-trans (next here (delete j id (id ∷ ids) n p (inl refl) refl)) r,
        q,
        (same, λ c i. let (k, ne) = gone c i in In-remove_and w.store c id ids k ne),
      )

  -- From any world whose listing `gh` can answer with the comments as they are, a session without a
  -- command under way can release: it reaches a world where it has
  -- retracted as many claims as it had, the label is not set and no comment is a claim of it.
  pub released_reached :
      (w : World A) (j : A)
      → gh.Listed w.store.comments w.store.comments
      → is_at_rest (w.phase j) ≡ true
      → (u : World A) × Reach lower gh session w u
        × (u.phase j
            ≡ released (length (own_claim_comment_ids lower w.store.comments (session j))) w.label)
        × (u.label ≡ false)
        × ((c : ClaimComment)
            → In c u.store.comments
            → parse_claim_session lower c.body ≢ some (lower (session j)))
  unfolding start_release after_unlabel
  released_reached w j listed rest =
      let ids = own_claim_comment_ids lower w.store.comments (session j) in
      let w1 : World A = record w {
        phase = set_phase w.phase j (start_release lower (session j) w.store.comments);
      } in
      let (u, r, q, (same, gone)) =
        delete_all (length ids) w1 j ids (length ids) (omega arith)
          (set_phase_same lower (λ l. l) session w.phase j (releasing ids (length ids))) in
      (
        record u {
          label = false;
          phase = set_phase u.phase j (after_unlabel (length ids) u.label);
        },
        next (Reach-trans (next here (release j w.store.comments rest listed refl)) r)
            (unlabel j (length ids) q refl),
        set_phase_same lower (λ l. l) session u.phase j (released (length ids) u.label)
            ∙ ap (λ b. released (length ids) b) same,
        refl,
        λ c i h.
            let (k, ne) = gone c i in
            ne (In-own_claim_comment_ids w.store.comments (session j) c k h),
      )
