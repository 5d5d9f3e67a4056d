-- ===== src/RoadmapGuard/Tests.antt =====
-- One active arc with its open milestone, and a queued arc without one.
use kampus_pipeline.Common.{
  ℕ, String, ◌≡◌, ◌≢◌, ◌↔◌, true, Option, none, some, List, [], ◌∷◌, ◌++◌, In, length,
}
use kampus_pipeline.RoadmapGuard.{
  RoadmapRow, arc, Milestone, pass, legal_states, active_arcs, judge,
}
use kampus_pipeline.RoadmapGuard.InSync.{IsPinned, IsClaimed, IsSymmetric, judge_iff}

abbrev row : String → Option ℕ → String → RoadmapRow
row name milestone state = record { kind = arc; name = name; milestone = milestone; state = state }

abbrev arcs : List RoadmapRow
arcs = row "Pillars" (some 3) "active" ∷ row "Later" none "queued" ∷ []

abbrev milestones : List Milestone
milestones = record { number = 3; is_open = true; title = "Pillars" } ∷ []

judge_iff_example : (judge arcs [] milestones ≡ pass (length arcs) 0 (length milestones)) ↔ (
    (arcs ≢ [])
    × (milestones ≢ [])
    × ((r : RoadmapRow) → In r (arcs ++ []) → In r.state (legal_states r.kind))
    × ((r : RoadmapRow) → In r (arcs ++ []) → IsPinned milestones r)
    × (length (active_arcs arcs) ≡ 1)
    × ((m : Milestone) → In m milestones → IsClaimed (arcs ++ []) m)
    × ((r : RoadmapRow) → In r (arcs ++ []) → IsSymmetric milestones r))
judge_iff_example = judge_iff arcs [] milestones
