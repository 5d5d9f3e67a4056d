-- ===== src/OrphanHeal/Laws.antt =====
-- What the plan files, and that filing it twice files nothing more.
use kampus_pipeline.Common.{
  ℕ, suc, ◌+◌, ◌≤◌, String, ◌≡◌, ◌∙◌, ap, sym, refl, ◌↔◌, ◌⊎◌, inl, inr, false, Option, some, List,
  [], ◌∷◌, ◌++◌, arith, map, nat_eq, In, In-append, contains_iff, Option-cases, length,
  length-append, In-map,
}
use kampus_pipeline.OrphanHeal.{
  PrSnapshot, HealPlanOptions, HealPlan, EmitItem, Decision, emits, skips, decide, push, plan_from,
  plan_heal_items, red, red_at, past_anchor, skip_item,
}

module _ (parse_date : String → Option ℕ) where
  -- Every gate holds: not a draft, red, in no lane, red since a known time at least the grace window
  -- ago, and not the target of an open heal-item.
  abbrev pub IsOrphan : HealPlanOptions → PrSnapshot → EmitItem → Type 0
  IsOrphan opts pr item =
      (pr.is_draft ≡ false)
      × (pr.ci ≡ red)
      × (pr.in_engine_lane ≡ false)
      × ((at : ℕ) × (red_at parse_date pr.red_since ≡ some at)
          × (at + opts.grace_ms ≤ opts.now)
          × (item.red_for_ms + at ≡ opts.now))
      × (In pr.number opts.existing_heal_targets → ⊥)
      × (item.number ≡ pr.number)
      × (item.failing_check ≡ pr.failing_check)

  past_anchor_iff :
      (opts : HealPlanOptions) (pr : PrSnapshot) (at : ℕ) (item : EmitItem)
      → (past_anchor opts pr at ≡ emits item) ↔ (
          (at + opts.grace_ms ≤ opts.now)
          × (item.red_for_ms + at ≡ opts.now)
          × (In pr.number opts.existing_heal_targets → ⊥)
          × (item.number ≡ pr.number)
          × (item.failing_check ≡ pr.failing_check))
  unfolding past_anchor skip_item
  past_anchor_iff opts pr at item =
      ground (arith, contains_iff opts.existing_heal_targets pr.number)

  decide_iff :
      (opts : HealPlanOptions) (pr : PrSnapshot) (item : EmitItem)
      → (decide parse_date opts pr ≡ emits item) ↔ IsOrphan opts pr item
  unfolding decide
  decide_iff opts pr item = (to, from)
    where
      to : decide parse_date opts pr ≡ emits item → IsOrphan opts pr item
      to e = elim (Option-cases (red_at parse_date pr.red_since)) [
        | inl n ↦ absurd (ground arith)
        | inr (at, found) ↦
            let passed : past_anchor opts pr at ≡ emits item = ground arith in
            let (a, b, c, d, f) = (past_anchor_iff opts pr at item).0 passed in
            (ground arith, ground arith, ground arith, (at, found, a, b), c, d, f)
      ]

      from : IsOrphan opts pr item → decide parse_date opts pr ≡ emits item
      from (a, b, c, (at, found, d, e), f, g, h) =
          let passed : past_anchor opts pr at ≡ emits item =
            (past_anchor_iff opts pr at item).1 (d, e, f, g, h) in
          ground arith

  plan_from-emit :
      (opts : HealPlanOptions) (plan : HealPlan) (prs : List PrSnapshot) (item : EmitItem)
      → In item (plan_from parse_date opts plan prs).emit
        ↔ (In item plan.emit ⊎ ((pr : PrSnapshot) × In pr prs × IsOrphan opts pr item))
  unfolding plan_from
  plan_from-emit opts plan [] item =
      (λ h. inl h, λ h. elim h [ inl i ↦ i | inr (pr, i, _) ↦ absurd i ])
  plan_from-emit opts plan (pr ∷ prs) item =
      with_decision (λ p. plan_from-emit opts p prs item) (decide parse_date opts pr) refl
    where
      with_decision :
          ((p : HealPlan)
            → In item (plan_from parse_date opts p prs).emit
              ↔ (In item p.emit ⊎ ((q : PrSnapshot) × In q prs × IsOrphan opts q item)))
          → (d : Decision) → decide parse_date opts pr ≡ d
          → In item (plan_from parse_date opts (push plan (decide parse_date opts pr)) prs).emit
            ↔ (In item plan.emit ⊎ ((q : PrSnapshot) × In q (pr ∷ prs) × IsOrphan opts q item))
      with_decision earlier (skips no_item) e =
          rw e (
            to (earlier (push plan (skips no_item))).0,
            from (earlier (push plan (skips no_item))).1,
          )
        where
          to :
              (In item (plan_from parse_date opts (push plan (skips no_item)) prs).emit
                → In item plan.emit ⊎ ((q : PrSnapshot) × In q prs × IsOrphan opts q item))
              → In item (plan_from parse_date opts (push plan (skips no_item)) prs).emit
              → In item plan.emit ⊎ ((q : PrSnapshot) × In q (pr ∷ prs) × IsOrphan opts q item)
          to ih h = elim (ih h) [ inl i ↦ inl i | inr (q, i, k) ↦ inr (q, inr i, k) ]

          from :
              (In item plan.emit ⊎ ((q : PrSnapshot) × In q prs × IsOrphan opts q item)
                → In item (plan_from parse_date opts (push plan (skips no_item)) prs).emit)
              → In item plan.emit ⊎ ((q : PrSnapshot) × In q (pr ∷ prs) × IsOrphan opts q item)
              → In item (plan_from parse_date opts (push plan (skips no_item)) prs).emit
          from ih (inl i) = ih (inl i)
          from ih (inr (q, inl same, k)) = absurd (cc ((decide_iff opts q item).1 k))
          from ih (inr (q, inr i, k)) = ih (inr (q, i, k))
      with_decision earlier (emits it) e =
          rw e (to (earlier (push plan (emits it))).0, from (earlier (push plan (emits it))).1)
        where
          to :
              (In item (plan_from parse_date opts (push plan (emits it)) prs).emit
                → In item (plan.emit ++ it ∷ [])
                  ⊎ ((q : PrSnapshot) × In q prs × IsOrphan opts q item))
              → In item (plan_from parse_date opts (push plan (emits it)) prs).emit
              → In item plan.emit ⊎ ((q : PrSnapshot) × In q (pr ∷ prs) × IsOrphan opts q item)
          to ih h = elim (ih h) [
            | inl i ↦ elim ((In-append item plan.emit (it ∷ [])).0 i) [
              | inl old ↦ inl old
              | inr (inl same) ↦
                  inr (pr, inl refl, (decide_iff opts pr item).0 (e ∙ ap emits (sym same)))
              | inr (inr nowhere) ↦ absurd nowhere
            ]
            | inr (q, i, k) ↦ inr (q, inr i, k)
          ]

          from :
              (In item (plan.emit ++ it ∷ []) ⊎ ((q : PrSnapshot) × In q prs × IsOrphan opts q item)
                → In item (plan_from parse_date opts (push plan (emits it)) prs).emit)
              → In item plan.emit ⊎ ((q : PrSnapshot) × In q (pr ∷ prs) × IsOrphan opts q item)
              → In item (plan_from parse_date opts (push plan (emits it)) prs).emit
          from ih (inl i) = ih (inl ((In-append item plan.emit (it ∷ [])).1 (inl i)))
          from ih (inr (q, inl same, k)) = ih (
              inl (
                (In-append item plan.emit (it ∷ [])).1
                  (inr (inl (emitted ((decide_iff opts q item).1 k) same)))))
            where
              emitted : decide parse_date opts q ≡ emits item → q ≡ pr → item ≡ it
              emitted d same = cc
          from ih (inr (q, inr i, k)) = ih (inr (q, i, k))

  -- The plan emits an item exactly when one of the pull requests passes every gate, and the item
  -- names that pull request, its failing check and for how long it has been red.
  pub plan_heal_items_iff :
      (opts : HealPlanOptions) (prs : List PrSnapshot) (item : EmitItem)
      → In item (plan_heal_items parse_date prs opts).emit
        ↔ ((pr : PrSnapshot) × In pr prs × IsOrphan opts pr item)
  unfolding plan_heal_items
  plan_heal_items_iff opts prs item = (
    λ h. elim ((plan_from-emit opts (record { emit = []; skip = [] }) prs item).0 h) [
      | inl i ↦ absurd i
      | inr w ↦ w
    ],
    λ w. (plan_from-emit opts (record { emit = []; skip = [] }) prs item).1 (inr w),
  )

  -- Filing the emitted items and planning again over the same pull requests, at the same time,
  -- emits nothing.
  pub plan_heal_items_idempotent :
      (opts : HealPlanOptions) (prs : List PrSnapshot)
      → (plan_heal_items parse_date prs (record opts {
        existing_heal_targets =
            opts.existing_heal_targets
            ++ map (λ (i : EmitItem). i.number) (plan_heal_items parse_date prs opts).emit;
      })).emit
        ≡ []
  plan_heal_items_idempotent opts prs = none_in (plan_heal_items parse_date prs filed).emit again
    where
      filed : HealPlanOptions
      filed = record opts {
        existing_heal_targets =
            opts.existing_heal_targets
            ++ map (λ (i : EmitItem). i.number) (plan_heal_items parse_date prs opts).emit;
      }

      none_in : (xs : List EmitItem) → ((x : EmitItem) → In x xs → ⊥) → xs ≡ []
      none_in [] h = refl
      none_in (x ∷ xs) h = absurd (h x (inl refl))

      again : (x : EmitItem) → In x (plan_heal_items parse_date prs filed).emit → ⊥
      again x i =
          let (pr, j, (a, b, c, d, fresh, f, g)) = (plan_heal_items_iff filed prs x).0 i in
          let old : In pr.number opts.existing_heal_targets → ⊥ = λ k. fresh (
            (In-append pr.number opts.existing_heal_targets
                (map (λ (i : EmitItem). i.number) (plan_heal_items parse_date prs opts).emit)).1
              (inl k)) in
          let first : In x (plan_heal_items parse_date prs opts).emit =
            (plan_heal_items_iff opts prs x).1 (pr, j, (a, b, c, d, old, f, g)) in
          fresh (
            (In-append pr.number opts.existing_heal_targets
                (map (λ (i : EmitItem). i.number) (plan_heal_items parse_date prs opts).emit)).1
              (inr (
                (In-map (λ (i : EmitItem). i.number) pr.number
                    (plan_heal_items parse_date prs opts).emit).1
                  (x, first, sym f))))

  plan_from-length :
      (opts : HealPlanOptions) (plan : HealPlan) (prs : List PrSnapshot)
      → length (plan_from parse_date opts plan prs).emit
          + length (plan_from parse_date opts plan prs).skip
        ≡ length plan.emit + length plan.skip + length prs
  unfolding plan_from
  plan_from-length opts plan [] = omega arith
  plan_from-length opts plan (pr ∷ prs) =
      with_decision (λ p. plan_from-length opts p prs) (decide parse_date opts pr)
    where
      with_decision :
          ((p : HealPlan)
            → length (plan_from parse_date opts p prs).emit
                + length (plan_from parse_date opts p prs).skip
              ≡ length p.emit + length p.skip + length prs)
          → (d : Decision)
          → length (plan_from parse_date opts (push plan d) prs).emit
              + length (plan_from parse_date opts (push plan d) prs).skip
            ≡ length plan.emit + length plan.skip + suc (length prs)
      with_decision earlier (emits it) =
          omega (arith, earlier (push plan (emits it)), length-append plan.emit (it ∷ []))
      with_decision earlier (skips it) =
          omega (arith, earlier (push plan (skips it)), length-append plan.skip (it ∷ []))

  -- The plan has as many items, emitted and skipped together, as there are pull requests.
  pub plan_heal_items-total :
      (opts : HealPlanOptions) (prs : List PrSnapshot)
      → length (plan_heal_items parse_date prs opts).emit
          + length (plan_heal_items parse_date prs opts).skip
        ≡ length prs
  unfolding plan_heal_items
  plan_heal_items-total opts prs =
      omega (arith, plan_from-length opts (record { emit = []; skip = [] }) prs)
