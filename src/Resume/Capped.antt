-- ===== src/Resume/Capped.antt =====
-- A crash is resumed only as a transient one, and only so often.
use kampus_pipeline.Common.{
  ℕ, suc, ◌+◌, ◌≤◌, ◌<◌, String, ◌≡◌, refl, ◌≢◌, ◌↔◌, inl, inr, Bool, true, false, Option, none,
  some, List, [], ◌∷◌, leb, arith, ◌==◌, string_eq, In, Bool-cases,
}
use kampus_pipeline.Resume.{
  CrashSignal, transient, logic, transient_signatures, haystack, first_match, by_hits, classify,
  ResumeLedger, ResumeAction, resume, surface, decide_by, decide_resume, resume_cap, Verdict,
  FailureClass, HealthyResumeLedger, healthy_resume, counted, resume_cap_decision,
}

module _ (matches : String → String → Bool) (trim : String → String) where
  first_match-some :
      (text : String) (sigs : List (String × String))
      → (first_match matches trim text sigs ≢ none)
        ↔ ((s : String × String) × In s sigs × (matches s.0 text ≡ true))
  unfolding first_match
  first_match-some text [] = (λ h. absurd (h refl), λ (s, i, _). absurd i)
  first_match-some text (s ∷ sigs) =
      (to (first_match-some text sigs).0, from (first_match-some text sigs).1)
    where
      to :
          (first_match matches trim text sigs ≢ none
            → (x : String × String) × In x sigs × (matches x.0 text ≡ true))
          → first_match matches trim text (s ∷ sigs) ≢ none
          → (x : String × String) × In x (s ∷ sigs) × (matches x.0 text ≡ true)
      to ih h = elim (Bool-cases (matches s.0 text)) [
        | inl t ↦ (s, inl refl, t)
        | inr f ↦ let (x, i, k) = ih (rw f at h) in (x, inr i, k)
      ]

      from :
          (((x : String × String) × In x sigs × (matches x.0 text ≡ true))
            → first_match matches trim text sigs ≢ none)
          → ((x : String × String) × In x (s ∷ sigs) × (matches x.0 text ≡ true))
          → first_match matches trim text (s ∷ sigs) ≢ none
      from ih (x, inl e, k) = let t : matches s.0 text ≡ true = rw e at k in rw t (λ q. cc)
      from ih (x, inr i, k) =
          let rest : first_match matches trim text sigs ≢ none = ih (x, i, k) in ground arith

  -- A crash is transient exactly when its text is not blank and one of the transient signatures
  -- matches it.
  pub classify-transient_iff :
      (signal : CrashSignal)
      → ((classify matches trim signal).class ≡ transient) ↔ (
          (trim (haystack signal) ≢ "")
          × ((s : String × String) × In s transient_signatures
              × (matches s.0 (haystack signal) ≡ true)))
  unfolding classify
  classify-transient_iff signal = (to, from)
    where
      hits :
          (a b : Option String) (note : String)
          → ((by_hits matches trim note a b).class ≡ transient) ↔ (a ≢ none)
      hits (some h) b note = unfold by_hits in (λ e q. cc, λ h. refl)
      hits none (some h) note = unfold by_hits in (λ e. cc, λ h. absurd (h refl))
      hits none none note = unfold by_hits in (λ e. cc, λ h. absurd (h refl))

      to :
          (classify matches trim signal).class ≡ transient
          → (trim (haystack signal) ≢ "")
            × ((s : String × String) × In s transient_signatures
                × (matches s.0 (haystack signal) ≡ true))
      to e = elim (Bool-cases (trim (haystack signal) == "")) [
        | inl t ↦ absurd (cc (rw t at e))
        | inr f ↦ (
          ground (arith, string_eq.same_iff (trim (haystack signal)) ""),
          (first_match-some (haystack signal) transient_signatures).0 ((hits _ _ _).0 (rw f at e)),
        )
      ]

      from :
          ((trim (haystack signal) ≢ "")
            × ((s : String × String) × In s transient_signatures
                × (matches s.0 (haystack signal) ≡ true)))
          → (classify matches trim signal).class ≡ transient
      from (there, w) =
          let f : (trim (haystack signal) == "") ≡ false =
            ground (arith, string_eq.same_iff (trim (haystack signal)) "") in
          rw f ((hits _ _ _).1 ((first_match-some (haystack signal) transient_signatures).1 w))

  -- A resume of the run of the ledger under its next number, which the cap allows.
  abbrev pub Resumes : ResumeLedger → ResumeAction → Type 0
  Resumes ledger (resume path id attempt why) =
      (path ≡ ledger.script_path)
      × (id ≡ ledger.resume_from_run_id)
      × (attempt ≡ suc ledger.prior_resumes)
      × (attempt ≤ resume_cap)
  Resumes ledger (surface reason class why) = ⊥

  -- The action is a resume of the crashed run, under its next number and within the cap, exactly when
  -- the crash is transient and the run was resumed fewer times than the cap before.
  pub decide_resume_iff :
      (signal : CrashSignal) (ledger : ResumeLedger)
      → Resumes ledger (decide_resume matches trim signal ledger)
        ↔ (((classify matches trim signal).class ≡ transient) × (ledger.prior_resumes < resume_cap))
  unfolding decide_resume
  decide_resume_iff signal ledger =
      by_class (classify matches trim signal) (classify matches trim signal).class refl
    where
      by_class :
          (v : Verdict) (c : FailureClass)
          → v.class ≡ c
          → Resumes ledger (decide_by v ledger)
            ↔ ((v.class ≡ transient) × (ledger.prior_resumes < resume_cap))
      by_class v logic e = unfold decide_by in rw e (λ h. absurd h, λ h. cc)
      by_class v transient e = unfold decide_by in rw e (ground arith)

  decide_by-within :
      (v : Verdict) (c : FailureClass) (ledger : ResumeLedger) (path id : String) (attempt : ℕ)
      (why : String)
      → v.class ≡ c
      → decide_by v ledger ≡ resume path id attempt why
      → (attempt ≡ suc ledger.prior_resumes) × (attempt ≤ resume_cap)
  unfolding decide_by
  decide_by-within v logic ledger path id attempt why k q = absurd (cc (rw k at q))
  decide_by-within v transient ledger path id attempt why k q =
      elim (Bool-cases (leb resume_cap ledger.prior_resumes)) [
        | inl t ↦ absurd (cc (rw (k, t) at q))
        | inr f ↦
            let r = rw (k, f) at q in
            let next : attempt ≡ ledger.prior_resumes + 1 = cc in (omega arith, ground arith)
      ]

  decide_resume-within :
      (signal : CrashSignal) (ledger : ResumeLedger) (path id : String) (attempt : ℕ) (why : String)
      → decide_resume matches trim signal ledger ≡ resume path id attempt why
      → (attempt ≡ suc ledger.prior_resumes) × (attempt ≤ resume_cap)
  unfolding decide_resume
  decide_resume-within signal ledger path id attempt why q =
      decide_by-within (classify matches trim signal) _ ledger path id attempt why refl q

  -- A session that resumes the run on every action that says so, and records its number.
  pub resumes : List CrashSignal → ResumeLedger → ℕ
  resumes [] ledger = 0
  resumes (signal ∷ crashes) ledger = elim (decide_resume matches trim signal ledger) [
    | resume path id attempt why ↦ suc (resumes crashes (record ledger { prior_resumes = attempt }))
    | surface reason class why ↦ 0
  ]

  -- If no more resumes than the cap are recorded before, then however often a run crashes and whatever
  -- the crashes say, a session that follows the actions resumes it no more often than the cap, the
  -- resumes recorded before counted in.
  pub resumes-bound :
      (crashes : List CrashSignal) (ledger : ResumeLedger)
      → ledger.prior_resumes ≤ resume_cap
      → resumes crashes ledger + ledger.prior_resumes ≤ resume_cap
  unfolding resumes
  resumes-bound [] ledger h = omega arith
  resumes-bound (signal ∷ crashes) ledger h =
      by_action (λ n. resumes-bound crashes (record ledger { prior_resumes = n }))
        (decide_resume matches trim signal ledger) refl
    where
      by_action :
          ((n : ℕ)
            → n ≤ resume_cap
            → resumes crashes (record ledger { prior_resumes = n }) + n ≤ resume_cap)
          → (a : ResumeAction) → decide_resume matches trim signal ledger ≡ a
          → resumes (signal ∷ crashes) ledger + ledger.prior_resumes ≤ resume_cap
      by_action ih (surface reason class why) e = rw (e, resumes) (omega arith)
      by_action ih (resume path id attempt why) e =
          rw (e, resumes) (omega (arith, allowed.0, ih attempt allowed.1))
        where
          allowed : (attempt ≡ suc ledger.prior_resumes) × (attempt ≤ resume_cap)
          allowed = decide_resume-within signal ledger path id attempt why e

-- A healthy subagent is resumed exactly when it was resumed fewer times than the cap, under its next
-- number.
pub resume_cap_decision_iff :
    (ledger : HealthyResumeLedger) (cap : ℕ) (id : String) (cycle : ℕ)
    → ((why : String) × (resume_cap_decision ledger cap ≡ healthy_resume id cycle why))
      ↔ ((id ≡ ledger.subagent_id) × (cycle ≡ suc (counted ledger.cycles)) × (cycle ≤ cap))
unfolding resume_cap_decision
resume_cap_decision_iff ledger cap id cycle = (to, from)
  where
    to :
        ((why : String) × (resume_cap_decision ledger cap ≡ healthy_resume id cycle why))
        → (id ≡ ledger.subagent_id) × (cycle ≡ suc (counted ledger.cycles)) × (cycle ≤ cap)
    to (why, e) = elim (Bool-cases (leb cap (counted ledger.cycles))) [
      | inl t ↦ absurd (cc (rw t at e))
      | inr f ↦
          let q = rw f at e in
          let same : cycle ≡ counted ledger.cycles + 1 = cc in (cc, omega arith, ground arith)
    ]

    from :
        ((id ≡ ledger.subagent_id) × (cycle ≡ suc (counted ledger.cycles)) × (cycle ≤ cap))
        → (why : String) × (resume_cap_decision ledger cap ≡ healthy_resume id cycle why)
    from (same, next, few) =
        let f : leb cap (counted ledger.cycles) ≡ false = ground arith in
        let n : cycle ≡ counted ledger.cycles + 1 = omega arith in rw (f, same, n) (_, refl)
