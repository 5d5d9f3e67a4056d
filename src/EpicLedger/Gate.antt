-- ===== src/EpicLedger/Gate.antt =====
-- epic-ledger/gate.ts: one pass of the gate.
pub mod Sound
use kampus_pipeline.Common.{
  ℕ, String, List, [], ◌∷◌, map, filter, contains, string_eq, sort, show, join, length, ◌&◌,
}
use kampus_pipeline.EpicLedger.Ledger.{EpicLedger, ChildIssue, Defect, defect_type_name}
use kampus_pipeline.EpicLedger.Validate.{hashes, validate_ledger, ledger_signature}
use kampus_pipeline.EpicLedger.Effects.{Github, Io, Result, ok, ◌>>=◌, ◌>>◌, return, for_each}

abbrev pub planned_label : String
planned_label = "status:planned"

unfoldable pub planned_children : EpicLedger → List ℕ
planned_children ledger =
    map (λ (c : ChildIssue). c.number)
      (filter (λ (c : ChildIssue). contains c.labels planned_label) ledger.children)

-- A pass carries the flipped children, a fail the defects and their signature.
pub data GateVerdict : Type 0 where
  pass : ℕ → List ℕ → GateVerdict
  fail : ℕ → List Defect → String → GateVerdict

abbrev pub pass_marker : String
pass_marker = "review-plan: PASS — children flipped to status:triaged"

abbrev pub fail_marker : String
fail_marker = "review-plan: FAIL — ledger has hard defects"

-- `—` where nothing was scanned.
matched : List ℕ → String
matched [] = "—"
matched (n ∷ ns) = hashes ", " (n ∷ ns)

scope_line : EpicLedger → String
scope_line ledger =
    let scanned = sort (map (λ (c : ChildIssue). c.number) ledger.children) in
    "_Scanned scope: " & show (length scanned) & " child(ren) — " & matched scanned & "._"

flip_list : List ℕ → String
flip_list [] = "_No `status:planned` child remained to flip (already triaged)._"
flip_list (n ∷ ns) =
    join "\n" (map (λ m. "- #" & show m & " `status:planned` → `status:triaged`") (n ∷ ns))

pub pass_verdict : ℕ → EpicLedger → List ℕ → String
pass_verdict epic ledger flipped = join "\n" (
    ("**" & pass_marker & "**")
    ∷ ""
    ∷ scope_line ledger
    ∷ ""
    ∷ ("Epic #"
        & show epic
        & "'s ledger passed the deterministic structural floor (zero hard defects).")
    ∷ "The following children are now pickable by `write-code`:"
    ∷ ""
    ∷ flip_list flipped
    ∷ [])

pub defect_rows : List Defect → String
defect_rows defects = join "\n" (
    map
      (λ (d : Defect).
        "- `" & defect_type_name d.kind & "` (" & hashes ", " d.refs & ") — " & d.message)
      defects)

pub fail_verdict : ℕ → EpicLedger → List Defect → String
fail_verdict epic ledger defects = join "\n" (
    ("**" & fail_marker & "**")
    ∷ ""
    ∷ scope_line ledger
    ∷ ""
    ∷ ("Epic #"
        & show epic
        & "'s ledger has "
        & show (length defects)
        & " hard defect(s); no child was flipped.")
    ∷ "Each must be resolved before the gate can flip `status:planned → status:triaged`:"
    ∷ ""
    ∷ defect_rows defects
    ∷ [])

module _ {W E : Type 0} (github : Github W E) (epic : ℕ) where
  -- The two branches of `runGate`, on the defects of the ledger that was read.
  unfoldable pub decide : EpicLedger → List Defect → Io W E GateVerdict
  decide ledger [] =
      let flipped = planned_children ledger in
      for_each github.flip_child_to_triaged flipped
      >> github.post_comment epic (pass_verdict epic ledger flipped)
      >> return (pass epic flipped)
  decide ledger (d ∷ ds) =
      github.post_comment epic (fail_verdict epic ledger (d ∷ ds))
      >> return (fail epic (d ∷ ds) (ledger_signature ledger))

  unfoldable pub run_gate : Io W E GateVerdict
  unfolding decide
  run_gate = github.epic_ledger epic >>= λ ledger. decide ledger (validate_ledger ledger)
