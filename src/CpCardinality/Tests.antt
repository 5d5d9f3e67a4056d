-- ===== src/CpCardinality/Tests.antt =====
-- An owner alone with an exception, as text that needs no trimming.
use kampus_pipeline.Common.{ℕ, ◌<◌, String, ◌≡◌, ◌≢◌, ◌↔◌, true, some, List, [], ◌∷◌}
use kampus_pipeline.CpCardinality.{CpCardinalityInput, discharge, decide_cp_cardinality}
use kampus_pipeline.CpCardinality.Discharge.{AreMembers, Discharges, decide_cp_cardinality_iff}

abbrev trim : String → String
trim s = s

abbrev alone : CpCardinalityInput
alone = record {
  members = "ann" ∷ "" ∷ "ann" ∷ [];
  author = "ann";
  required_non_author_approvals = some 1;
  non_author_approvals_at_head = some 0;
  sole_author_exception_at_head = true;
}

decide_cp_cardinality_iff_example :
    (members : List String) × AreMembers trim alone.members members
    × (((decide_cp_cardinality trim alone).decision ≡ discharge) ↔ (
        (threshold : ℕ) × (approvals : ℕ) × (some 1 ≡ some threshold)
        × (some 0 ≡ some approvals)
        × (0 < threshold)
        × (alone.author ≢ "")
        × Discharges trim alone members "ann" threshold approvals))
decide_cp_cardinality_iff_example = decide_cp_cardinality_iff trim alone
