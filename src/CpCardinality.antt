-- ===== src/CpCardinality.antt =====
-- packages/pipeline-cli/src/tools/cp-cardinality/cp-cardinality.ts: whether the evidence at the current
-- revision discharges a protected-change hold. A count is `none` where it is no non-negative safe
-- integer; `trim` stands for `String.prototype.trim`.
pub mod Discharge
mod Tests
use kampus_pipeline.Common.{
  ℕ, String, Bool, true, false, ◌&&◌, not, Option, none, some, List, [], ◌∷◌, map, leb, ltb, length,
  if◌then◌else◌, ◌==◌, string_eq, nat_eq, distinct, filter,
}

pub data CpDecision : Type 0 where
  discharge stop : CpDecision

pub data CpBranch : Type 0 where
  empty single_owner_self single_owner_other multi_member : CpBranch

pub data CpReasonCode : Type 0 where
  invalid_required_non_author_approvals invalid_non_author_approvals_at_head blank_author
        empty_approval_authority sole_author_exception_present sole_author_exception_missing
        insufficient_non_author_approvals required_approvals_exceed_authority_capacity
        sufficient_non_author_approvals :
      CpReasonCode

pub record CpCardinalityInput : Type 0 where
  pub members : List String
  pub author : String
  pub required_non_author_approvals : Option ℕ
  pub non_author_approvals_at_head : Option ℕ
  pub sole_author_exception_at_head : Bool

pub record CpVerdict : Type 0 where
  pub decision : CpDecision
  pub n : ℕ
  pub member_count : ℕ
  pub branch : CpBranch
  pub required_non_author_approvals : Option ℕ
  pub non_author_approvals_at_head : Option ℕ
  pub reason_code : CpReasonCode
  pub reason : String

branch_for : List String → String → CpBranch
branch_for [] author = empty
branch_for (m ∷ []) author = if m == author then single_owner_self else single_owner_other
branch_for (m ∷ k ∷ ms) author = multi_member

module _ (trim : String → String) where
  pub distinct_members : List String → List String
  distinct_members members = distinct (filter (λ (m : String). not (m == "")) (map trim members))

  pub verdict : CpDecision → List String → CpCardinalityInput → CpReasonCode → String → CpVerdict
  unfolding branch_for
  verdict decision members input reason_code reason = record {
    decision = decision;
    n = length members;
    member_count = length members;
    branch = branch_for members (trim input.author);
    required_non_author_approvals = input.required_non_author_approvals;
    non_author_approvals_at_head = input.non_author_approvals_at_head;
    reason_code = reason_code;
    reason = reason;
  }

  abbrev others : List String → String → ℕ
  others members author = length (filter (λ (m : String). not (m == author)) members)

  -- The tests behind the one on the sole owner.
  pub by_count : CpCardinalityInput → List String → String → ℕ → ℕ → CpVerdict
  unfolding verdict
  by_count input members author threshold approvals =
      if ltb (others members author) threshold
      then verdict stop members input required_approvals_exceed_authority_capacity
          "the configured non-author approval threshold exceeds the available eligible authority capacity — fail closed"
      else if ltb approvals threshold
      then verdict stop members input insufficient_non_author_approvals
          "the current revision has fewer eligible non-author approvals than the configured threshold"
      else verdict discharge members input sufficient_non_author_approvals
          "the current revision has the configured number of eligible non-author approvals"

  -- The tests behind those on the counts and the author.
  pub by_members : CpCardinalityInput → List String → String → ℕ → ℕ → CpVerdict
  unfolding by_count
  by_members input [] author threshold approvals =
      verdict stop [] input empty_approval_authority
        "the approval authority has no eligible members — fail closed"
  by_members input (m ∷ []) author threshold approvals =
      if m == author
      then if input.sole_author_exception_at_head
        then verdict discharge (m ∷ []) input sole_author_exception_present
            "the proven sole-author exception is bound to the current revision"
        else verdict stop (m ∷ []) input sole_author_exception_missing
            "the sole-author exception is not proven at the current revision"
      else by_count input (m ∷ []) author threshold approvals
  by_members input (m ∷ k ∷ ms) author threshold approvals =
      by_count input (m ∷ k ∷ ms) author threshold approvals

  by_facts : CpCardinalityInput → Option ℕ → Option ℕ → CpVerdict
  unfolding by_members verdict distinct_members
  by_facts input none approvals =
      verdict stop (distinct_members input.members) input invalid_required_non_author_approvals
        "the required non-author approval threshold must be a positive integer — fail closed"
  by_facts input (some threshold) none =
      if threshold == 0
      then verdict stop (distinct_members input.members) input invalid_required_non_author_approvals
          "the required non-author approval threshold must be a positive integer — fail closed"
      else verdict stop (distinct_members input.members) input invalid_non_author_approvals_at_head
          "the current-revision non-author approval count must be a non-negative integer — fail closed"
  by_facts input (some threshold) (some approvals) =
      if threshold == 0
      then verdict stop (distinct_members input.members) input invalid_required_non_author_approvals
          "the required non-author approval threshold must be a positive integer — fail closed"
      else if trim input.author == ""
      then verdict stop (distinct_members input.members) input blank_author
          "the change author could not be resolved, so the authority branch cannot be proven — fail closed"
      else by_members input (distinct_members input.members) (trim input.author) threshold approvals

  pub decide_cp_cardinality : CpCardinalityInput → CpVerdict
  unfolding by_facts
  decide_cp_cardinality input =
      by_facts input input.required_non_author_approvals input.non_author_approvals_at_head
