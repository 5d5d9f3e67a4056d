-- ===== src/EpicLedger/Validate/Clean.antt =====
-- The floor finds nothing exactly when the ledger meets each structural rule.
use kampus_pipeline.Common.{
  ◌≡◌, ◌≢◌, ◌↔◌, true, List, [], ◌++◌, map, arith, nat_eq, string_eq, sort_by, length,
  append-eq-nil_iff, map-eq-nil_iff, sort_by-eq-nil_iff, length-eq-zero_iff, nat_beq_iff,
}
use kampus_pipeline.EpicLedger.Ledger.{EpicLedger}
use kampus_pipeline.EpicLedger.Graph.{find_cycles}
use kampus_pipeline.EpicLedger.Graph.Acyclic.{find_cycles-eq-nil_iff}
use kampus_pipeline.EpicLedger.Validate.{
  findings, validate_ledger, is_pickable, by_number, not_after, concat_map, child_defects,
  uncovered, stories_section_defects, declares_stories, orphan_defects, orphans, dangling_refs,
  deps_section_defects, uncovered_defect, dangling_defect, cycle_defect,
}
use kampus_pipeline.EpicLedger.Validate.Rules.{IsClean}
use kampus_pipeline.EpicLedger.Validate.Groups.{
  dangling_refs_iff, orphans_iff, uncovered_iff, children_iff,
}

-- No finding is pushed exactly when every group is empty.
abbrev Groups : EpicLedger → Type 0
Groups l =
    (deps_section_defects l.epic ≡ [])
    × (find_cycles l.epic.dependencies.edges ≡ [])
    × (dangling_refs l ≡ [])
    × (orphan_defects l ≡ [])
    × (stories_section_defects l.epic ≡ [])
    × (uncovered l ≡ [])
    × (concat_map (child_defects (declares_stories l.epic) l.cycle_doc_present)
          (sort_by by_number l.children)
        ≡ [])

seven-eq-nil_iff :
    {A : Type 0} (a b c d e f g : List A)
    → (a ++ (b ++ (c ++ (d ++ (e ++ (f ++ g))))) ≡ [])
      ↔ ((a ≡ []) × (b ≡ []) × (c ≡ []) × (d ≡ []) × (e ≡ []) × (f ≡ []) × (g ≡ []))
seven-eq-nil_iff a b c d e f g = ground (
  arith,
  append-eq-nil_iff a (b ++ (c ++ (d ++ (e ++ (f ++ g))))),
  append-eq-nil_iff b (c ++ (d ++ (e ++ (f ++ g)))),
  append-eq-nil_iff c (d ++ (e ++ (f ++ g))),
  append-eq-nil_iff d (e ++ (f ++ g)),
  append-eq-nil_iff e (f ++ g),
  append-eq-nil_iff f g,
)

findings_iff : (l : EpicLedger) → (findings l ≡ []) ↔ Groups l
unfolding findings
findings_iff l =
    let cycles = find_cycles l.epic.dependencies.edges in
    let parts =
      seven-eq-nil_iff (deps_section_defects l.epic) (map cycle_defect cycles)
        (map (dangling_defect l.epic.number) (dangling_refs l)) (orphan_defects l)
        (stories_section_defects l.epic) (map (uncovered_defect l.epic.number) (uncovered l))
        (concat_map (child_defects (declares_stories l.epic) l.cycle_doc_present)
          (sort_by by_number l.children)) in
    (
      λ h.
          let (a, b, c, d, e, f, g) = parts.0 h in
          (
            a,
            (map-eq-nil_iff _ cycles).0 b,
            (map-eq-nil_iff _ (dangling_refs l)).0 c,
            d,
            e,
            (map-eq-nil_iff _ (uncovered l)).0 f,
            g,
          ),
      λ (a, b, c, d, e, f, g). parts.1 (
        a,
        (map-eq-nil_iff _ cycles).1 b,
        (map-eq-nil_iff _ (dangling_refs l)).1 c,
        d,
        e,
        (map-eq-nil_iff _ (uncovered l)).1 f,
        g,
      ),
    )

Groups-IsClean : (l : EpicLedger) → l.children ≢ [] → Groups l → IsClean l
unfolding deps_section_defects orphan_defects stories_section_defects orphans
Groups-IsClean l ne (a, b, c, d, e, f, g) =
    let present_ : l.epic.dependencies.present ≡ true = ground arith in
    let declared : declares_stories l.epic ≡ true = ground arith in
    record {
      has_children = ne;
      has_dependencies = present_;
      no_cycles = (find_cycles-eq-nil_iff l.epic.dependencies.edges).0 b;
      refs_resolve = (dangling_refs_iff l).0 c;
      children_listed = (orphans_iff l).0 ((map-eq-nil_iff _ (orphans l)).0 (rw present_ at d));
      declares = ground arith;
      stories_covered = (uncovered_iff l).0 f;
      children_clean = (children_iff l).0 (rw declared at g);
    }

IsClean-Groups : (l : EpicLedger) → IsClean l → Groups l
unfolding deps_section_defects orphan_defects stories_section_defects orphans
IsClean-Groups l k =
    let declared : declares_stories l.epic ≡ true = ground (arith, k.declares) in
    (
      ground (arith, k.has_dependencies),
      (find_cycles-eq-nil_iff l.epic.dependencies.edges).1 k.no_cycles,
      (dangling_refs_iff l).1 k.refs_resolve,
      rw k.has_dependencies
          ((map-eq-nil_iff _ (orphans l)).1 ((orphans_iff l).1 k.children_listed)),
      rw declared,
      (uncovered_iff l).1 k.stories_covered,
      rw declared ((children_iff l).1 k.children_clean),
    )

validate_ledger-eq-nil_iff :
    (l : EpicLedger) → (validate_ledger l ≡ []) ↔ ((l.children ≢ []) × (findings l ≡ []))
unfolding validate_ledger
validate_ledger-eq-nil_iff l = ground (arith, sort_by-eq-nil_iff not_after (findings l))

pub is_pickable_iff : (l : EpicLedger) → (is_pickable l ≡ true) ↔ IsClean l
unfolding is_pickable
is_pickable_iff l = (
  λ h.
      let (ne, none_found) = (validate_ledger-eq-nil_iff l).0 (
        (length-eq-zero_iff (validate_ledger l)).0
          ((nat_beq_iff (length (validate_ledger l)) 0).0 h)) in
      Groups-IsClean l ne ((findings_iff l).0 none_found),
  λ k. (nat_beq_iff (length (validate_ledger l)) 0).1 (
      (length-eq-zero_iff (validate_ledger l)).1 (
        (validate_ledger-eq-nil_iff l).1
          (k.has_children, (findings_iff l).1 (IsClean-Groups l k)))),
)
