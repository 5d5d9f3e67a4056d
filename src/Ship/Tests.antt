-- ===== src/Ship/Tests.antt =====
-- A pull request of Ann's that Ben passed at its head, after an earlier failure.
use kampus_pipeline.Common.{
  ℕ, String, ◌≡◌, refl, ◌≢◌, true, false, Option, none, some, [], ◌∷◌, In, sort_by, insert_by,
  text_lt, contains, filter, last?,
}
use kampus_pipeline.EpicLock.{literal, skip}
use kampus_pipeline.Gates.{VerdictGate, code}
use kampus_pipeline.Gates.Merge.{
  Mergeability, mergeable_precondition, Checks, green, first_refusal, checks_precondition,
  gate_precondition,
}
use kampus_pipeline.Gates.Merge.Laws.{IsOk}
use kampus_pipeline.Verdict
use kampus_pipeline.Verdict.{
  VerdictComment, ResolveVerdictInput, resolve_verdict, current, parse_verdict, is_bound_to_head,
  not_after,
}
use kampus_pipeline.Verdict.Resolved.{Counts, IsNoNewer, resolve_verdict-current}
use kampus_pipeline.Ship.{evaluate}
use kampus_pipeline.Ship.Reviewed.{Reviewed, evaluate-Reviewed}

abbrev same : String → String
same s = s

abbrev comment : ℕ → String → String → String → VerdictComment
comment id author created_at body = record {
  id = id;
  author = author;
  created_at = created_at;
  body = body;
}

abbrev input : ResolveVerdictInput
input = record {
  comments =
      comment 1 "ben" "2026-01-01T00:00:00Z" "review-code: FAIL @ aaaaaaaa"
      ∷ comment 3 "ben" "2026-01-01T00:00:02Z" "**review-code: PASS @ bbbbbbbb"
      ∷ comment 4 "ann" "2026-01-01T00:00:03Z" "review-code: PASS @ bbbbbbbb"
      ∷ [];
  authorized_authors = "ann" ∷ "ben" ∷ [];
  gate = code;
  head_sha = "bbbbbbbbcc";
  pr_author = "ann";
}

at_head : resolve_verdict same same input ≡ current 3 Verdict.pass "bbbbbbbb"
unfolding resolve_verdict last? sort_by insert_by filter contains text_lt not_after literal skip
at_head = refl

resolve_verdict-current_example :
    (input.pr_author ≢ "")
    × ((c : VerdictComment) × Counts same same input c
        × (c.id ≡ 3)
        × (parse_verdict same same c.body input.gate
            ≡ some (record { polarity = Verdict.pass; sha = some "bbbbbbbb" }))
        × (is_bound_to_head same same (some "bbbbbbbb") input.head_sha ≡ true)
        × ((d : VerdictComment) → Counts same same input d → IsNoNewer d c))
resolve_verdict-current_example =
    resolve_verdict-current same same input 3 Verdict.pass "bbbbbbbb" at_head

abbrev open_pr : Mergeability
open_pr = record { state = "open"; draft = false; merged = false; mergeable_state = some "clean" }

abbrev checks : Checks
checks = record { state = green; failing = []; pending = [] }

abbrev read : VerdictGate → Option ResolveVerdictInput
read gate = some input

passes :
    first_refusal (evaluate same same same 12 (code ∷ []) (some open_pr) read (some checks)) ≡ none
unfolding evaluate first_refusal mergeable_precondition checks_precondition gate_precondition
passes = rw at_head refl

evaluate-Reviewed_example :
    ((s : Mergeability) × (some open_pr ≡ some s) × IsOk (mergeable_precondition s))
    × ((gate : VerdictGate)
        → In gate (code ∷ [])
        → (i : ResolveVerdictInput) × (read gate ≡ some i)
          × Reviewed same same same (record i { gate = gate }))
    × ((c : Checks) × (some checks ≡ some c) × (c.state ≡ green))
evaluate-Reviewed_example =
    evaluate-Reviewed same same same 12 (code ∷ []) (some open_pr) read (some checks) passes
