-- ===== src/Roadmap/Active.antt =====
-- packages/pipeline-cli/src/tools/roadmap/roadmap.ts: the view of a roadmap that the guard passes.
use kampus_pipeline.Common.{
  ℕ, true, false, ◌&&◌, Option, none, some, List, [], ◌∷◌, ◌≡◌, ◌≢◌, ◌↔◌, refl, inl, inr, arith,
  length, In, In-filter, In-append, string_eq, nat_eq, ◌==◌, ◌∙◌, sym, ap,
}
use kampus_pipeline.RoadmapGuard.{RoadmapRow, Milestone, active_arcs, judge, pass}
use kampus_pipeline.RoadmapGuard.Numbers.{Numbered}
use kampus_pipeline.RoadmapGuard.InSync.{IsPinned, IsSymmetric, judge_iff}
use kampus_pipeline.Roadmap.{
  Priority, p0, p1, p2, Issue, RoadmapFacts, only, active_arc, is_p1, is_number, is_outside,
  derive_stale_p1s, build_view, name_of, pin_of,
}

is_p1_iff : (o : Option Priority) → (is_p1 o ≡ true) ↔ (o ≡ some p1)
is_p1_iff none = ground arith
is_p1_iff (some p0) = ground arith
is_p1_iff (some p1) = ground arith
is_p1_iff (some p2) = ground arith

pub is_number_iff : (o : Option ℕ) (n : ℕ) → (is_number o n ≡ true) ↔ (o ≡ some n)
is_number_iff none n = ground arith
is_number_iff (some m) n = ground (arith, nat_eq.same_iff m n)

-- An open issue is stale exactly when it is a p1 of another milestone than the active one.
stale_iff :
    (issues : List Issue) (n : ℕ) (i : Issue)
    → In i (derive_stale_p1s issues (some n))
      ↔ (In i issues × (i.is_open ≡ true) × (i.priority ≡ some p1) × (i.milestone ≢ some n))
unfolding derive_stale_p1s
stale_iff issues n i = ground (
  arith,
  In-filter (λ (i : Issue). i.is_open && is_p1 i.priority && is_outside i.milestone (some n)) i
      issues,
  is_p1_iff i.priority,
  is_number_iff i.milestone n,
)

stale_at_iff :
    (issues : List Issue) (n : ℕ) (o : Option ℕ)
    → o ≡ some n
    → (i : Issue)
    → In i (derive_stale_p1s issues o)
      ↔ (In i issues × (i.is_open ≡ true) × (i.priority ≡ some p1) × (i.milestone ≢ some n))
stale_at_iff issues n o e i = rw e (stale_iff issues n i)

only-one : {A : Type 0} (xs : List A) → length xs ≡ 1 → (a : A) × (only xs ≡ some a) × In a xs
only-one [] h = absurd (omega (arith, h))
only-one (a ∷ []) h = (a, refl, inl refl)
only-one (a ∷ b ∷ rest) h = absurd (omega (arith, h))

active-is_open :
    (milestones : List Milestone) (a : RoadmapRow)
    → a.state ≡ "active"
    → IsPinned milestones a
    → IsSymmetric milestones a
    → (n : ℕ) × (m : Milestone) × (a.milestone ≡ some n)
      × Numbered n milestones m
      × (m.is_open ≡ true)
active-is_open milestones a active (inl (_, _, queued)) sym_ =
    absurd
      (let e : false ≡ true = (string_eq.same_iff "active" "queued").1 (sym active ∙ queued) in cc)
active-is_open milestones a active (inr (n, m, pin, found)) sym_ =
    (n, m, pin, found, (sym_ n m pin found).0 active)

-- If the guard passes the roadmap, its view has an active arc, one of the arcs that is active, whose
-- milestone, the last with its number, is open and the active one of the view; and the stale p1s of the view are the open
-- p1 issues that are not pinned to that milestone.
pub build_view-active :
    (arcs campaigns : List RoadmapRow) (facts : RoadmapFacts)
    → judge arcs campaigns facts.milestones
      ≡ pass (length arcs) (length campaigns) (length facts.milestones)
    → (a : RoadmapRow) × (n : ℕ) × (m : Milestone) × In a arcs
      × (a.state ≡ "active")
      × (a.milestone ≡ some n)
      × Numbered n facts.milestones m
      × (m.is_open ≡ true)
      × ((build_view arcs campaigns facts).active_arc_name ≡ some a.name)
      × ((build_view arcs campaigns facts).active_milestone ≡ some n)
      × ((i : Issue)
          → In i (build_view arcs campaigns facts).stale_p1s ↔ (
              In i facts.issues
              × (i.is_open ≡ true)
              × (i.priority ≡ some p1)
              × (i.milestone ≢ some n)))
unfolding build_view active_arc
build_view-active arcs campaigns facts h =
    let (_, _, _, pinned, one, _, symmetric) = (judge_iff arcs campaigns facts.milestones).0 h in
    let (a, found, i) = only-one (active_arcs arcs) one in
    let (j, active) = (In-filter (λ (a : RoadmapRow). a.state == "active") a arcs).0 i in
    let there = (In-append a arcs campaigns).1 (inl j) in
    let state = (string_eq.same_iff a.state "active").0 active in
    let (n, m, pin, known, opened) =
      active-is_open facts.milestones a state (pinned a there) (symmetric a there) in
    (
      a,
      n,
      m,
      j,
      state,
      pin,
      known,
      opened,
      ap name_of found,
      ap pin_of found ∙ pin,
      stale_at_iff facts.issues n (pin_of (active_arc arcs)) (ap pin_of found ∙ pin),
    )
