-- ===== src/WayfinderMap.antt =====
-- packages/pipeline-cli/src/tools/wayfinder-map/Map.ts and Defect.ts: a map, decoded, and what can be
-- wrong with it.
pub mod Text
pub mod Markdown
pub mod Graduate
pub mod Check
pub mod Validate
mod Tests
use kampus_pipeline.Common.{ℕ, String, Bool, Option, List}

pub record Decision : Type 0 where
  pub text : String
  pub from_issue : Option ℕ

pub record FrontierTicket : Type 0 where
  pub issue : Option ℕ
  pub question : String
  pub founder_decision_fork : Bool

pub record FogEntry : Type 0 where
  pub issue : Option ℕ
  pub note : String
  pub spawned : List ℕ

pub record DestinationSection : Type 0 where
  pub present : Bool
  pub text : String

-- A section that is a list of entries.
pub record ListSection (A : Type 0) : Type 0 where
  pub present : Bool
  pub entries : List A

pub record Map : Type 0 where
  pub destination : DestinationSection
  pub decisions_so_far : ListSection Decision
  pub open_frontier : ListSection FrontierTicket
  pub graduated_fog : ListSection FogEntry

pub data SubIssueState : Type 0 where
  is_open is_closed : SubIssueState

pub record SubIssue : Type 0 where
  pub number : ℕ
  pub state : Option SubIssueState

pub record MapLedger : Type 0 where
  pub number : ℕ
  pub chart : Map
  pub sub_issues : List SubIssue

pub data DefectType : Type 0 where
  missing_destination missing_decisions_section missing_frontier_section : DefectType
  missing_fog_section empty_destination malformed_decision_entry : DefectType
  malformed_frontier_entry malformed_fog_entry dangling_frontier_ref : DefectType
  closed_frontier_ticket : DefectType

-- The place of each type in `DEFECT_TYPES`.
abbrev pub defect_type_rank : DefectType → ℕ
defect_type_rank missing_destination = 0
defect_type_rank missing_decisions_section = 1
defect_type_rank missing_frontier_section = 2
defect_type_rank missing_fog_section = 3
defect_type_rank empty_destination = 4
defect_type_rank malformed_decision_entry = 5
defect_type_rank malformed_frontier_entry = 6
defect_type_rank malformed_fog_entry = 7
defect_type_rank dangling_frontier_ref = 8
defect_type_rank closed_frontier_ticket = 9

abbrev pub defect_type_name : DefectType → String
defect_type_name missing_destination = "MISSING_DESTINATION"
defect_type_name missing_decisions_section = "MISSING_DECISIONS_SECTION"
defect_type_name missing_frontier_section = "MISSING_FRONTIER_SECTION"
defect_type_name missing_fog_section = "MISSING_FOG_SECTION"
defect_type_name empty_destination = "EMPTY_DESTINATION"
defect_type_name malformed_decision_entry = "MALFORMED_DECISION_ENTRY"
defect_type_name malformed_frontier_entry = "MALFORMED_FRONTIER_ENTRY"
defect_type_name malformed_fog_entry = "MALFORMED_FOG_ENTRY"
defect_type_name dangling_frontier_ref = "DANGLING_FRONTIER_REF"
defect_type_name closed_frontier_ticket = "CLOSED_FRONTIER_TICKET"

pub record Defect : Type 0 where
  pub kind : DefectType
  pub message : String
  pub refs : List ℕ
