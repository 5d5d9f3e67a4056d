-- ===== src/Roadmap.antt =====
-- packages/pipeline-cli/src/tools/roadmap/roadmap.ts: the view of the roadmap against the facts of
-- GitHub. A milestone is that of RoadmapGuard; the state of an issue is whether it is open.
pub mod Active
pub mod Rows
mod Tests
use kampus_pipeline.Common.{
  ℕ, String, Bool, true, false, ◌&&◌, ◌||◌, not, Option, none, some, List, [], ◌∷◌, ◌++◌, map,
  filter, any, find, contains, if◌then◌else◌, ◌==◌, nat_eq, string_eq, get,
}
use kampus_pipeline.RoadmapGuard.{RowKind, arc, campaign, RoadmapRow, Milestone, by_number}

pub data Priority : Type 0 where
  p0 p1 p2 : Priority

pub record Issue : Type 0 where
  pub number : ℕ
  pub title : String
  pub is_open : Bool
  pub labels : List String
  pub milestone : Option ℕ
  pub parent : Option ℕ
  pub is_epic : Bool
  pub priority : Option Priority

pub record PullRequest : Type 0 where
  pub number : ℕ
  pub title : String
  pub branch : String
  pub linked_issues : List ℕ

pub record RoadmapFacts : Type 0 where
  pub milestones : List Milestone
  pub issues : List Issue
  pub pulls : List PullRequest

pub record EpicNode : Type 0 where
  pub epic : Issue
  pub children : List Issue

pub record RowNode : Type 0 where
  pub kind : RowKind
  pub name : String
  pub state : String
  pub is_active_arc : Bool
  pub milestone_number : Option ℕ
  pub milestone : Option Milestone
  pub epics : List EpicNode
  pub loose_issues : List Issue
  pub pulls : List PullRequest

pub record RoadmapView : Type 0 where
  pub active_arc_name : Option String
  pub active_milestone : Option ℕ
  pub arcs : List RowNode
  pub campaigns : List RowNode
  pub stale_p1s : List Issue

abbrev is_active : RoadmapRow → Bool
is_active a = a.state == "active"

abbrev pub only : {A : Type 0} → List A → Option A
only [] = none
only (a ∷ []) = some a
only (a ∷ b ∷ rest) = none

unfoldable pub active_arc : List RoadmapRow → Option RoadmapRow
active_arc arcs = only (filter is_active arcs)

abbrev pub is_p1 : Option Priority → Bool
is_p1 none = false
is_p1 (some p0) = false
is_p1 (some p1) = true
is_p1 (some p2) = false

-- `milestone === n` for a number `n`.
abbrev pub is_number : Option ℕ → ℕ → Bool
is_number none n = false
is_number (some m) n = m == n

-- `activeMilestone === null || i.milestone !== activeMilestone`.
abbrev pub is_outside : Option ℕ → Option ℕ → Bool
is_outside milestone none = true
is_outside milestone (some n) = not (is_number milestone n)

unfoldable pub derive_stale_p1s : List Issue → Option ℕ → List Issue
derive_stale_p1s issues active_milestone =
    filter (λ (i : Issue). i.is_open && is_p1 i.priority && is_outside i.milestone active_milestone)
      issues

abbrev is_arc : RowKind → Bool
is_arc arc = true
is_arc campaign = false

-- `name === activeArcName`.
abbrev is_name : Option String → String → Bool
is_name none name = false
is_name (some a) name = name == a

abbrev milestone_of : List Milestone → Option ℕ → Option Milestone
milestone_of milestones none = none
milestone_of milestones (some n) = get n (by_number milestones)

unfoldable pub in_milestone : List Issue → Option ℕ → List Issue
in_milestone issues none = []
in_milestone issues (some n) = filter (λ (i : Issue). is_number i.milestone n) issues

unfoldable pub children_of : List Issue → Issue → List Issue
children_of issues epic = filter (λ (c : Issue). is_number c.parent epic.number) issues

unfoldable pub epics_of : List Issue → List Issue → List EpicNode
unfolding children_of
epics_of issues inside =
    map (λ epic. record { epic = epic; children = children_of issues epic })
      (filter (λ (i : Issue). i.is_epic) inside)

abbrev has_no_parent : Option ℕ → Bool
has_no_parent none = true
has_no_parent (some n) = false

-- The numbers of the children of the epics.
unfoldable pub child_numbers : List EpicNode → List ℕ
child_numbers [] = []
child_numbers (e ∷ es) = map (λ (c : Issue). c.number) e.children ++ child_numbers es

unfoldable pub linked_pulls : List PullRequest → List Issue → List EpicNode → List PullRequest
unfolding child_numbers
linked_pulls pulls inside epics =
    let claimed = map (λ (i : Issue). i.number) inside ++ child_numbers epics in
    let epic_numbers = map (λ (e : EpicNode). e.epic.number) epics in
    filter
      (λ (p : PullRequest).
        any (λ n. contains claimed n || contains epic_numbers n) p.linked_issues)
      pulls

unfoldable pub build_row : RowKind → RoadmapFacts → Option String → RoadmapRow → RowNode
unfolding in_milestone epics_of linked_pulls
build_row kind facts active_arc_name row =
    let inside = in_milestone facts.issues row.milestone in
    let epics = epics_of facts.issues inside in
    record {
      kind = kind;
      name = row.name;
      state = row.state;
      is_active_arc = is_arc kind && is_name active_arc_name row.name;
      milestone_number = row.milestone;
      milestone = milestone_of facts.milestones row.milestone;
      epics = epics;
      loose_issues = filter (λ (i : Issue). not i.is_epic && has_no_parent i.parent) inside;
      pulls = linked_pulls facts.pulls inside epics;
    }

abbrev pub name_of : Option RoadmapRow → Option String
name_of none = none
name_of (some a) = some a.name

abbrev pub pin_of : Option RoadmapRow → Option ℕ
pin_of none = none
pin_of (some a) = a.milestone

unfoldable pub build_view : List RoadmapRow → List RoadmapRow → RoadmapFacts → RoadmapView
unfolding active_arc derive_stale_p1s build_row
build_view arcs campaigns facts =
    let active = active_arc arcs in
    record {
      active_arc_name = name_of active;
      active_milestone = pin_of active;
      arcs = map (build_row arc facts (name_of active)) arcs;
      campaigns = map (build_row campaign facts (name_of active)) campaigns;
      stale_p1s = derive_stale_p1s facts.issues (pin_of active);
    }
