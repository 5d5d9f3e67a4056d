-- ===== src/Roadmap/Tests.antt =====
-- A roadmap with one active arc, and a stale p1 outside of it.
use kampus_pipeline.Common.{
  ℕ, String, true, false, Option, none, some, List, [], ◌∷◌, ◌≡◌, ◌≢◌, ◌↔◌, refl, In, get, nat_eq,
  string_eq, any, filter, contains,
}
use kampus_pipeline.RoadmapGuard.Numbers.{Numbered}
use kampus_pipeline.RoadmapGuard.{RoadmapRow, arc, Milestone, judge, pass}
use kampus_pipeline.Roadmap.{Issue, p1, RoadmapFacts, PullRequest, build_row, build_view}
use kampus_pipeline.Roadmap.Rows.{Claims, build_row-pulls_iff}
use kampus_pipeline.Roadmap.Active.{build_view-active}

abbrev row : RoadmapRow
row = record { kind = arc; name = "Pillars"; milestone = some 3; state = "active" }

abbrev rows : List RoadmapRow
rows = row ∷ []

abbrev facts : RoadmapFacts
facts = record {
  milestones = record { number = 3; is_open = true; title = "Pillars" } ∷ [];
  issues =
      record {
        number = 9;
        title = "later";
        is_open = true;
        labels = "p1" ∷ [];
        milestone = none;
        parent = none;
        is_epic = false;
        priority = some p1;
      }
      ∷ [];
  pulls = [];
}

passes : judge rows [] facts.milestones ≡ pass 1 0 1
unfolding kampus_pipeline.RoadmapGuard.pin_may_be_absent kampus_pipeline.RoadmapGuard.well_formed
    kampus_pipeline.RoadmapGuard.pinned kampus_pipeline.RoadmapGuard.one_active
    kampus_pipeline.RoadmapGuard.claimed kampus_pipeline.RoadmapGuard.symmetric
    kampus_pipeline.RoadmapGuard.all_violations kampus_pipeline.RoadmapGuard.judge any filter
    contains get kampus_pipeline.Common.of_entries kampus_pipeline.Common.set
passes = refl

build_view-active_example :
    (a : RoadmapRow) × (n : ℕ) × (m : Milestone) × In a rows
    × (a.state ≡ "active")
    × (a.milestone ≡ some n)
    × Numbered n facts.milestones m
    × (m.is_open ≡ true)
    × ((build_view rows [] facts).active_arc_name ≡ some a.name)
    × ((build_view rows [] facts).active_milestone ≡ some n)
    × ((i : Issue)
        → In i (build_view rows [] facts).stale_p1s ↔ (
            In i facts.issues
            × (i.is_open ≡ true)
            × (i.priority ≡ some p1)
            × (i.milestone ≢ some n)))
build_view-active_example = build_view-active rows [] facts passes

abbrev pull : PullRequest
pull = record { number = 12; title = "fix"; branch = "fix/9-later"; linked_issues = 9 ∷ [] }

build_row-pulls_iff_example :
    In pull (build_row arc facts none row).pulls
    ↔ (In pull facts.pulls × ((n : ℕ) × In n pull.linked_issues × Claims facts.issues (some 3) n))
build_row-pulls_iff_example = build_row-pulls_iff arc facts none row pull
