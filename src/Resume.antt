-- ===== src/Resume.antt =====
-- packages/pipeline-cli/src/tools/failure-classifier/failure-classifier.ts,
-- resume-policy/resume-policy.ts and drive-issue-flow/resume-cap.ts: whether a crashed run, or a
-- healthy subagent, is resumed. `matches` stands for the `test` of the regular expression whose source
-- is given, under the flag `i`, and `trim` for `String.prototype.trim`.
pub mod Capped
mod Tests
use kampus_pipeline.Common.{
  ℕ, ◌+◌, String, Bool, true, false, Option, none, some, List, [], ◌∷◌, leb, if◌then◌else◌, ◌==◌,
  string_eq, show, ◌&◌,
}

pub data FailureClass : Type 0 where
  transient logic : FailureClass

pub record CrashSignal : Type 0 where
  pub reason : Option String
  pub error_kind : Option String
  pub stage : Option String

pub record Verdict : Type 0 where
  pub class : FailureClass
  pub rationale : String

-- A regular expression's source, and its label.
abbrev Signature : Type 0
Signature = String × String

abbrev pub transient_signatures : List Signature
transient_signatures =
    ("\\bnull\\s+(sub-?agent\\s+)?result\\b", "null subagent result")
    ∷ ("\\bsub-?agent\\s+(returned\\s+)?null\\b", "null subagent result")
    ∷ ("\\b(api|rate|session|usage|token|quota)[- ]?limit\\b", "API/session/rate limit death")
    ∷ ("\\b(429|rate[- ]?limited|overloaded|capacity)\\b", "API overload/rate-limit death")
    ∷ ("process[\\s_-]+exit(ed)?", "process exit")
    ∷ ("process[\\s_-]+(death|died|killed)", "process death")
    ∷ ("\\bmodel\\s+switch\\b", "process death on model switch")
    ∷ ("\\b(sigkill|sigterm|exit\\s+code\\s+(137|143))\\b", "process killed (signal)")
    ∷ ("\\bsubagent\\s+(died|crashed|timed?\\s*out)\\b", "subagent death/timeout")
    ∷ []

abbrev pub logic_signatures : List Signature
logic_signatures =
    (
      "\\b(cannot\\s+read\\s+(properties|property)|null\\s+deref|undefined\\s+is\\s+not|null\\s+pointer)\\b",
      "null/undefined dereference",
    )
    ∷ ("\\btypeerror\\b", "type error")
    ∷ (
      "\\b(wrong[- ]?arg|argument\\s+of\\s+type|not\\s+assignable|expected\\s+\\w+\\s*,?\\s*(but\\s+)?(got|received))\\b",
      "wrong-arg-type",
    )
    ∷ (
      "\\b(schema\\s+(mismatch|validation)|failed\\s+to\\s+parse|parse\\s+error|invalid\\s+schema)\\b",
      "schema mismatch",
    )
    ∷ (
      "\\b(referenceerror|is\\s+not\\s+defined|is\\s+not\\s+a\\s+function)\\b",
      "reference/call error",
    )
    ∷ []

-- The fields that are there, joined.
pub haystack : CrashSignal → String
haystack signal = elim signal.reason [
  | none ↦ elim signal.error_kind [ none ↦ "" | some k ↦ k ]
  | some r ↦ elim signal.error_kind [ none ↦ r | some k ↦ r & " \n " & k ]
]

stage_note : Option String → String
stage_note none = ""
stage_note (some stage) = if stage == "" then "" else " (failed stage: " & stage & ")"

module _ (matches : String → String → Bool) (trim : String → String) where
  pub first_match : String → List Signature → Option String
  first_match text [] = none
  first_match text ((re, label) ∷ sigs) =
      let rest = first_match text sigs in if matches re text then some label else rest

  pub by_hits : String → Option String → Option String → Verdict
  by_hits note (some hit) logic_hit = record {
    class = transient;
    rationale =
        "TRANSIENT signature matched (" & hit
        & ") — safe to auto-resume; completed stages replay from the journal cache" & note & ".";
  }
  by_hits note none (some hit) = record {
    class = logic;
    rationale =
        "LOGIC signature matched (" & hit
        & ") — re-crashes identically on the same inputs; surface, never resume" & note & ".";
  }
  by_hits note none none = record {
    class = logic;
    rationale =
        "unrecognized crash reason — no TRANSIENT signature matched; default-deny to LOGIC (surface, never blind-resume into a token-burning loop)"
        & note & ".";
  }

  pub classify : CrashSignal → Verdict
  unfolding haystack stage_note first_match by_hits
  classify signal =
      if trim (haystack signal) == ""
      then record {
        class = logic;
        rationale =
            "empty crash signal — no reason/errorKind to classify; default-deny to LOGIC (surface, never blind-resume)"
            & stage_note signal.stage
            & ".";
      }
      else by_hits (stage_note signal.stage) (first_match (haystack signal) transient_signatures)
          (first_match (haystack signal) logic_signatures)

abbrev pub resume_cap : ℕ
resume_cap = 2

pub record ResumeLedger : Type 0 where
  pub resume_from_run_id : String
  pub script_path : String
  pub prior_resumes : ℕ

pub data SurfaceReason : Type 0 where
  logic_error cap_reached : SurfaceReason

pub data ResumeAction : Type 0 where
  resume : String → String → ℕ → String → ResumeAction
  surface : SurfaceReason → FailureClass → String → ResumeAction

decide_by : Verdict → ResumeLedger → ResumeAction
decide_by verdict ledger = elim verdict.class [
  | logic ↦
      surface logic_error logic
        ("classified LOGIC — surface immediately, zero resume attempts (" & verdict.rationale & ")")
  | transient ↦
      if leb resume_cap ledger.prior_resumes
      then surface cap_reached transient (
          "classified TRANSIENT but run "
          & ledger.resume_from_run_id
          & " has already been auto-resumed "
          & show ledger.prior_resumes
          & " time(s) (cap K="
          & show resume_cap
          & ") — surface. A persistent \"transient\" is a masked LOGIC error; the cap bounds token burn (the capped transient-resume policy).")
      else resume ledger.script_path ledger.resume_from_run_id (ledger.prior_resumes + 1) (
          "classified TRANSIENT and under the cap (resume "
          & show (ledger.prior_resumes + 1)
          & "/"
          & show resume_cap
          & " for run "
          & ledger.resume_from_run_id
          & ") — re-invoke {scriptPath, resumeFromRunId}; completed stages replay from the journal cache. ("
          & verdict.rationale
          & ")")
]

pub decide_resume :
    (String → String → Bool) → (String → String) → CrashSignal → ResumeLedger → ResumeAction
unfolding decide_by
decide_resume matches trim signal ledger = decide_by (classify matches trim signal) ledger

abbrev pub healthy_resume_cap : ℕ
healthy_resume_cap = 5

-- `cycles` is `none` where it is no non-negative integer.
pub record HealthyResumeLedger : Type 0 where
  pub subagent_id : String
  pub cycles : Option ℕ

pub data HealthyResumeAction : Type 0 where
  healthy_resume : String → ℕ → String → HealthyResumeAction
  respawn : String → HealthyResumeAction

abbrev pub counted : Option ℕ → ℕ
counted none = 0
counted (some cycles) = cycles

pub resume_cap_decision : HealthyResumeLedger → ℕ → HealthyResumeAction
resume_cap_decision ledger cap =
    let cycles = counted ledger.cycles in
    if leb cap cycles
    then respawn (
        "healthy subagent "
        & ledger.subagent_id
        & " has already been resumed "
        & show cycles
        & " time(s) (lifetime cap K="
        & show cap
        & ") — spawn a FRESH instance instead of resuming the degraded one. A long resume chain correlates with confabulation (the verified-claims and capped-resume discipline mitigation (b) / #1876). Distinct from #1751's crash budget — this counts HEALTHY resume cycles, not crashes.")
    else healthy_resume ledger.subagent_id (cycles + 1) (
        "healthy subagent "
        & ledger.subagent_id
        & " under the lifetime cap (healthy resume "
        & show (cycles + 1)
        & "/"
        & show cap
        & ") — resume the same instance. (Counts HEALTHY resume cycles only; #1751's crash budget is separate.)")
