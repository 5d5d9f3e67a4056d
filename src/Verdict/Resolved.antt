-- ===== src/Verdict/Resolved.antt =====
-- What a verdict bound to the current head rests on.
use kampus_pipeline.Common.{
  ◌≤◌, text_lt, ℕ, String, ◌≡◌, ◌∙◌, ap, refl, ◌≢◌, ◌↔◌, inl, inr, true, false, ◌&&◌, not, Option,
  none, some, arith, ◌==◌, string_eq, contains, contains_iff, In-sort_by, last?, filter, In,
  In-filter, Bool-cases, Option-cases,
}
use kampus_pipeline.Common.Minimum.{IsOrder}
use kampus_pipeline.Common.Maximum.{last-In, last-sort_by-greatest}
use kampus_pipeline.EpicLock
use kampus_pipeline.EpicLock.{ClaimWinner}
use kampus_pipeline.EpicLock.Resolution.{not_after-IsOrder, not_after-Precedes}
use kampus_pipeline.Verdict.{
  VerdictComment, ParsedVerdict, Polarity, no_verdict, self_verdict, stale, current,
  ResolveVerdictInput, match_polarity, not_after, is_some, parse_verdict, is_bound_to_head,
  same_login, in_namespace, candidates, own, own_verdict, bind, read_latest, resolve_verdict,
}

abbrev as_claim : VerdictComment → ClaimWinner
as_claim c = record { session = c.author; id = c.id; created_at = c.created_at }

-- The first comment is not newer than the second, and of two at one time it has not the larger id.
abbrev pub IsNoNewer : VerdictComment → VerdictComment → Type 0
IsNoNewer d c =
    (text_lt c.created_at d.created_at ≡ false) × (c.created_at ≡ d.created_at → d.id ≤ c.id)

no_newer : (d c : VerdictComment) → not_after d c ≡ true → IsNoNewer d c
unfolding not_after EpicLock.not_after
no_newer d c h = not_after-Precedes (as_claim d) (as_claim c) h

-- The order of the verdicts is the order of the claims on a lock.
by_recency-IsOrder : IsOrder not_after
unfolding not_after EpicLock.not_after
by_recency-IsOrder = record {
  total = λ a b h. not_after-IsOrder.total (as_claim a) (as_claim b) h;
  trans = λ a b c h k. not_after-IsOrder.trans (as_claim a) (as_claim b) (as_claim c) h k;
}

module _ (lower trim : String → String) where
  -- A comment that counts: of an authorized author other than the pull request's, with a PASS or a
  -- FAIL in the namespace of the gate.
  abbrev pub Counts : ResolveVerdictInput → VerdictComment → Type 0
  Counts input c =
      In c input.comments
      × In c.author input.authorized_authors
      × (is_some (match_polarity input.gate c.body) ≡ true)
      × (same_login lower trim c.author input.pr_author ≡ false)

  In-candidates :
      (input : ResolveVerdictInput) (c : VerdictComment)
      → In c (candidates lower trim input) ↔ Counts input c
  unfolding candidates in_namespace
  In-candidates input c = ground (
    arith,
    In-sort_by not_after c (
        filter (λ (c : VerdictComment). not (same_login lower trim c.author input.pr_author))
          (in_namespace lower trim input)),
    In-filter (λ (c : VerdictComment). not (same_login lower trim c.author input.pr_author)) c
        (in_namespace lower trim input),
    In-filter
        (λ (c : VerdictComment).
          contains input.authorized_authors c.author && is_some (match_polarity input.gate c.body))
        c input.comments,
    contains_iff input.authorized_authors c.author,
  )

  own_verdict-not-current :
      (input : ResolveVerdictInput) (id : ℕ) (p : Polarity) (sha : String)
      → own_verdict lower trim input ≢ current id p sha
  unfolding own_verdict
  own_verdict-not-current input id p sha = of_last (last? (own lower trim input))
    where
      of_last :
          (o : Option VerdictComment)
          → elim o [ none ↦ no_verdict | some c ↦ self_verdict c.id c.author ] ≢ current id p sha
      of_last none e = cc
      of_last (some c) e = cc

  bind-current :
      (input : ResolveVerdictInput) (c : VerdictComment) (parsed : ParsedVerdict) (id : ℕ)
      (p : Polarity) (sha : String)
      → bind lower trim input c parsed ≡ current id p sha
      → (c.id ≡ id)
        × (parsed.polarity ≡ p)
        × (parsed.sha ≡ some sha)
        × (is_bound_to_head lower trim (some sha) input.head_sha ≡ true)
  unfolding bind
  bind-current input c parsed id p sha e = elim (Option-cases parsed.sha) [
    | inl n ↦ absurd (cc (rw n at e))
    | inr (s, found) ↦ elim (Bool-cases (is_bound_to_head lower trim (some s) input.head_sha)) [
      | inl bound ↦
          let q : current c.id parsed.polarity s ≡ current id p sha = rw bound at (rw found at e) in
          (cc, cc, cc, cc)
      | inr unbound ↦
          let q : stale c.id parsed.polarity s ≡ current id p sha = rw unbound at (rw found at e) in
          absurd cc
    ]
  ]

  -- A verdict is current only when the pull request's author is known and a comment that counts
  -- carries that polarity and that SHA, the SHA is bound to the head, and no comment that counts is
  -- newer or, at the same time, has a larger comment id.
  pub resolve_verdict-current :
      (input : ResolveVerdictInput) (id : ℕ) (p : Polarity) (sha : String)
      → resolve_verdict lower trim input ≡ current id p sha
      → (trim input.pr_author ≢ "")
        × ((c : VerdictComment) × Counts input c
            × (c.id ≡ id)
            × (parse_verdict lower trim c.body input.gate
                ≡ some (record { polarity = p; sha = some sha }))
            × (is_bound_to_head lower trim (some sha) input.head_sha ≡ true)
            × ((d : VerdictComment) → Counts input d → IsNoNewer d c))
  unfolding resolve_verdict
  resolve_verdict-current input id p sha e = elim (Bool-cases (trim input.pr_author == "")) [
    | inl unknown ↦ absurd (cc (rw unknown at e))
    | inr known ↦ (
      ground (arith, string_eq.same_iff (trim input.pr_author) ""),
      of_latest (last? (candidates lower trim input)) refl (rw known at e),
    )
  ]
    where
      of_latest :
          (o : Option VerdictComment)
          → last? (candidates lower trim input) ≡ o
          → read_latest lower trim input o ≡ current id p sha
          → (c : VerdictComment) × Counts input c
            × (c.id ≡ id)
            × (parse_verdict lower trim c.body input.gate
                ≡ some (record { polarity = p; sha = some sha }))
            × (is_bound_to_head lower trim (some sha) input.head_sha ≡ true)
            × ((d : VerdictComment) → Counts input d → IsNoNewer d c)
      of_latest none q r = absurd (own_verdict-not-current input id p sha (unfold read_latest in r))
      of_latest (some c) q r =
          of_parsed (parse_verdict lower trim c.body input.gate) refl (unfold read_latest in r)
        where
          newest : (d : VerdictComment) → Counts input d → IsNoNewer d c
          newest d k = no_newer d c (
              last-sort_by-greatest not_after by_recency-IsOrder
                (filter
                  (λ (c : VerdictComment). not (same_login lower trim c.author input.pr_author))
                  (in_namespace lower trim input))
                c d (unfold candidates in q)
                ((In-sort_by not_after d _).0 (unfold candidates in (In-candidates input d).1 k)))

          of_parsed :
              (o : Option ParsedVerdict)
              → parse_verdict lower trim c.body input.gate ≡ o
              → elim o [
                | none ↦ own_verdict lower trim input
                | some parsed ↦ bind lower trim input c parsed
              ]
                ≡ current id p sha
              → (d : VerdictComment) × Counts input d
                × (d.id ≡ id)
                × (parse_verdict lower trim d.body input.gate
                    ≡ some (record { polarity = p; sha = some sha }))
                × (is_bound_to_head lower trim (some sha) input.head_sha ≡ true)
                × ((x : VerdictComment) → Counts input x → IsNoNewer x d)
          of_parsed none s t = absurd (own_verdict-not-current input id p sha t)
          of_parsed (some parsed) s t =
              let (a, b, f, g) = bind-current input c parsed id p sha t in
              (
                c,
                (In-candidates input c).0 (last-In (candidates lower trim input) c q),
                a,
                s ∙ ap some (same_parsed parsed b f),
                g,
                newest,
              )
            where
              same_parsed :
                  (x : ParsedVerdict)
                  → x.polarity ≡ p
                  → x.sha ≡ some sha
                  → x ≡ record { polarity = p; sha = some sha }
              same_parsed x b f = cc
