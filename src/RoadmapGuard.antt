-- ===== src/RoadmapGuard.antt =====
-- packages/pipeline-cli/src/tools/roadmap-guard/roadmap-guard.ts, the types and `judge`: whether the
-- roadmap and the milestones agree.
pub mod InSync
pub mod Numbers
mod Tests
use kampus_pipeline.Common.{
  ℕ, String, Bool, true, false, ◌&&◌, not, Option, none, some, List, [], ◌∷◌, ◌++◌, map, length,
  if◌then◌else◌, ◌==◌, string_eq, nat_eq, contains, any, filter, get, of_entries, show, join, ◌&◌,
}

pub data RowKind : Type 0 where
  arc campaign : RowKind

pub record RoadmapRow : Type 0 where
  pub kind : RowKind
  pub name : String
  pub milestone : Option ℕ
  pub state : String

pub record Milestone : Type 0 where
  pub number : ℕ
  pub is_open : Bool
  pub title : String

pub data Code : Type 0 where
  row_state i1 i2 i3 i5 : Code

pub record Violation : Type 0 where
  pub code : Code
  pub message : String

pub data RoadmapGuardVerdict : Type 0 where
  pass : ℕ → ℕ → ℕ → RoadmapGuardVerdict
  zero_scope : ℕ → ℕ → RoadmapGuardVerdict
  violations : List Violation → RoadmapGuardVerdict

abbrev kind_name : RowKind → String
kind_name arc = "arc"
kind_name campaign = "campaign"

-- `m.state`.
abbrev state_name : Bool → String
state_name true = "open"
state_name false = "closed"

abbrev pub legal_states : RowKind → List String
legal_states arc = "active" ∷ "queued" ∷ "done" ∷ []
legal_states campaign = "active" ∷ "done" ∷ []

abbrev is_arc : RowKind → Bool
is_arc arc = true
is_arc campaign = false

unfoldable pub pin_may_be_absent : RoadmapRow → Bool
pin_may_be_absent row = is_arc row.kind && row.state == "queued"

abbrev violation : Code → String → Violation
violation code message = record { code = code; message = message }

-- What one turn of each loop pushes, and the loop.
abbrev pub collect {ℓ} : {A : Type ℓ} → (A → List Violation) → List A → List Violation
collect push [] = []
collect push (a ∷ rest) = push a ++ collect push rest

unfoldable pub well_formed : RoadmapRow → List Violation
well_formed row =
    if contains (legal_states row.kind) row.state
    then []
    else violation row_state (
        kind_name row.kind
        & " row \""
        & row.name
        & "\" has an unrecognized state \""
        & row.state
        & "\" (allowed: "
        & join ", " (legal_states row.kind)
        & ")")
      ∷ []

-- `byNumber`, which a later milestone with the same number overwrites.
abbrev pub by_number : List Milestone → List (ℕ × Milestone)
by_number milestones = of_entries [] (map (λ (m : Milestone). (m.number, m)) milestones)

unfoldable pub pinned : List Milestone → RoadmapRow → List Violation
unfolding pin_may_be_absent
pinned milestones row = elim row.milestone [
  | none ↦
      if pin_may_be_absent row
      then []
      else violation i1 (
          kind_name row.kind
          & " row \""
          & row.name
          & "\" (state \""
          & row.state
          & "\") has no milestone pin — only a queued arc may defer its milestone")
        ∷ []
  | some n ↦ elim (get n (by_number milestones)) [
    | some m ↦ []
    | none ↦
        violation i1 (
          kind_name row.kind
          & " row \""
          & row.name
          & "\" is pinned to milestone #"
          & show n
          & ", which does not exist")
        ∷ []
  ]
]

abbrev pub active_arcs : List RoadmapRow → List RoadmapRow
active_arcs arcs = filter (λ (a : RoadmapRow). a.state == "active") arcs

abbrev which : List RoadmapRow → String
which [] = "none"
which (a ∷ rest) = join ", " (map (λ (r : RoadmapRow). "\"" & r.name & "\"") (a ∷ rest))

unfoldable pub one_active : List RoadmapRow → List Violation
one_active arcs =
    if length (active_arcs arcs) == 1
    then []
    else violation i2 (
        "expected exactly ONE active arc, found "
        & show (length (active_arcs arcs))
        & " ("
        & which (active_arcs arcs)
        & ")")
      ∷ []

abbrev is_pin : ℕ → RoadmapRow → Bool
is_pin n row = elim row.milestone [ none ↦ false | some k ↦ k == n ]

unfoldable pub claimed : List RoadmapRow → Milestone → List Violation
claimed rows m =
    if m.is_open && not (any (is_pin m.number) rows)
    then violation i3 (
        "open milestone #"
        & show m.number
        & " (\""
        & m.title
        & "\") is not claimed by any arc or campaign row")
      ∷ []
    else []

-- `expected`: whether the state wants an open milestone or a closed one.
abbrev pub expected : String → Option Bool
expected state =
    if state == "active" then some true else if state == "done" then some false else none

abbrev bool_beq : Bool → Bool → Bool
bool_beq true b = b
bool_beq false b = not b

abbrev against : RoadmapRow → Milestone → Option Bool → List Violation
against row m none = []
against row m (some wanted) =
    if bool_beq m.is_open wanted
    then []
    else violation i5 (
        kind_name row.kind
        & " row \""
        & row.name
        & "\" is \""
        & row.state
        & "\" but its milestone #"
        & show m.number
        & " (\""
        & m.title
        & "\") is "
        & state_name m.is_open
        & " — an active row needs an open milestone, a done row a closed one")
      ∷ []

unfoldable pub symmetric : List Milestone → RoadmapRow → List Violation
symmetric milestones row = elim row.milestone [
  | none ↦ []
  | some n ↦ elim (get n (by_number milestones)) [
    | none ↦ []
    | some m ↦ against row m (expected row.state)
  ]
]

unfoldable pub all_violations : List RoadmapRow → List RoadmapRow → List Milestone → List Violation
unfolding well_formed pinned one_active claimed symmetric
all_violations arcs campaigns milestones =
    let rows = arcs ++ campaigns in
    collect well_formed rows
    ++ collect (pinned milestones) rows
    ++ one_active arcs
    ++ collect (claimed rows) milestones
    ++ collect (symmetric milestones) rows

abbrev verdict_of : ℕ → ℕ → ℕ → List Violation → RoadmapGuardVerdict
verdict_of arcs campaigns milestones [] = pass arcs campaigns milestones
verdict_of arcs campaigns milestones (v ∷ vs) = violations (v ∷ vs)

unfoldable pub judge : List RoadmapRow → List RoadmapRow → List Milestone → RoadmapGuardVerdict
unfolding all_violations
judge arcs campaigns milestones =
    if length arcs == 0
    then zero_scope (length arcs) (length milestones)
    else if length milestones == 0
    then zero_scope (length arcs) (length milestones)
    else verdict_of (length arcs) (length campaigns) (length milestones)
        (all_violations arcs campaigns milestones)
