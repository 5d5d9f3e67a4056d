-- ===== src/EpicLedger/Ledger.antt =====
-- epic-ledger/Ledger.ts and Defect.ts: the decoded ledger and the findings. An issue number is a
-- natural number, as GitHub issues them; an optional field is an `Option`.
use kampus_pipeline.Common.{ℕ, String, Bool, Option, List}

pub record DependencyEdge : Type 0 where
  pub child : ℕ
  pub requires : ℕ

pub record DependencyGraph : Type 0 where
  pub present : Bool
  pub nodes : List ℕ
  pub edges : List DependencyEdge

pub data Containment : Type 0 where
  flag exempt none_marker : Containment

pub record ChildIssue : Type 0 where
  pub number : ℕ
  pub title : String
  pub labels : List String
  pub acceptance_criteria_count : ℕ
  pub stories : Option (List ℕ)
  pub containment : Option Containment

pub record EpicHeader : Type 0 where
  pub number : ℕ
  pub title : String
  pub labels : List String
  pub dependencies : DependencyGraph
  pub stories : List ℕ

pub record EpicLedger : Type 0 where
  pub epic : EpicHeader
  pub children : List ChildIssue
  pub external_refs : List ℕ
  pub cycle_doc_present : Bool

-- `DEFECT_TYPES`, in its order.
pub data DefectType : Type 0 where
  zero_scope missing_deps_section dep_cycle dangling_dep orphan_child : DefectType
  missing_stories_section uncovered_story zero_ac missing_story : DefectType
  missing_label missing_containment needs_triage_label : DefectType

abbrev pub defect_type_rank : DefectType → ℕ
defect_type_rank zero_scope = 0
defect_type_rank missing_deps_section = 1
defect_type_rank dep_cycle = 2
defect_type_rank dangling_dep = 3
defect_type_rank orphan_child = 4
defect_type_rank missing_stories_section = 5
defect_type_rank uncovered_story = 6
defect_type_rank zero_ac = 7
defect_type_rank missing_story = 8
defect_type_rank missing_label = 9
defect_type_rank missing_containment = 10
defect_type_rank needs_triage_label = 11

-- The literal that stands for the type in a message or a signature.
unfoldable pub defect_type_name : DefectType → String
defect_type_name zero_scope = "ZERO_SCOPE"
defect_type_name missing_deps_section = "MISSING_DEPS_SECTION"
defect_type_name dep_cycle = "DEP_CYCLE"
defect_type_name dangling_dep = "DANGLING_DEP"
defect_type_name orphan_child = "ORPHAN_CHILD"
defect_type_name missing_stories_section = "MISSING_STORIES_SECTION"
defect_type_name uncovered_story = "UNCOVERED_STORY"
defect_type_name zero_ac = "ZERO_AC"
defect_type_name missing_story = "MISSING_STORY"
defect_type_name missing_label = "MISSING_LABEL"
defect_type_name missing_containment = "MISSING_CONTAINMENT"
defect_type_name needs_triage_label = "NEEDS_TRIAGE_LABEL"

pub record Defect : Type 0 where
  pub kind : DefectType
  pub message : String
  pub refs : List ℕ
