-- ===== src/Resume/Tests.antt =====
-- A crash that every signature matches, on a run that was resumed once.
use kampus_pipeline.Common.{◌+◌, ◌≤◌, ◌<◌, String, ◌≡◌, ◌↔◌, Bool, true, none, some, [], ◌∷◌, arith}
use kampus_pipeline.Resume.{
  CrashSignal, transient, classify, ResumeLedger, decide_resume, resume_cap, HealthyResumeLedger,
}
use kampus_pipeline.Resume.Capped.{Resumes, decide_resume_iff, resumes, resumes-bound}

abbrev any_text : String → String → Bool
any_text re text = true

abbrev trim : String → String
trim s = s

abbrev crash : CrashSignal
crash = record { reason = some "session limit"; error_kind = none; stage = some "review" }

abbrev ledger : ResumeLedger
ledger = record { resume_from_run_id = "run-1"; script_path = "drive.js"; prior_resumes = 1 }

decide_resume_iff_example :
    Resumes any_text trim ledger (decide_resume any_text trim crash ledger)
    ↔ (((classify any_text trim crash).class ≡ transient) × (1 < resume_cap))
decide_resume_iff_example = decide_resume_iff any_text trim crash ledger

resumes-bound_example : resumes any_text trim (crash ∷ crash ∷ crash ∷ []) ledger + 1 ≤ resume_cap
resumes-bound_example =
    resumes-bound any_text trim (crash ∷ crash ∷ crash ∷ []) ledger (omega arith)

abbrev healthy : HealthyResumeLedger
healthy = record { subagent_id = "agent-1"; cycles = some 4 }
