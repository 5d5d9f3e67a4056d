-- ===== src/EpicLedger/Validate.antt =====
-- epic-ledger/validate.ts: the deterministic structural floor.
pub mod Rules
pub mod Groups
pub mod Clean
pub mod Order
use kampus_pipeline.Common.{
  ℕ, ◌+◌, suc, String, Bool, true, false, ◌&&◌, ◌||◌, not, Option, none, some, List, [], ◌∷◌, ◌++◌,
  map, leb, ltb, if◌then◌else◌, ◌==◌, nat_eq, string_eq, filter, any, contains, distinct, sort,
  sort_by, join, show, length, ◌&◌, nat_beq,
}
use text.Mathlib.Text.{starts_with}
use kampus_pipeline.EpicLedger.Ledger
use kampus_pipeline.EpicLedger.Ledger.{
  DependencyEdge, DependencyGraph, Containment, none_marker, flag, exempt, ChildIssue, EpicHeader,
  EpicLedger, DefectType, Defect, defect_type_rank, defect_type_name, zero_scope,
  missing_deps_section, dep_cycle, dangling_dep, orphan_child, missing_stories_section,
  uncovered_story, zero_ac, missing_story, missing_label, missing_containment, needs_triage_label,
}
use kampus_pipeline.EpicLedger.Graph.{find_cycles, first_or_zero}

abbrev pub required_label_prefixes : List String
required_label_prefixes = "type:" ∷ "status:" ∷ []

abbrev pub priority_labels : List String
priority_labels = "p0" ∷ "p1" ∷ "p2" ∷ []

abbrev pub needs_triage : String
needs_triage = "status:needs-triage"

abbrev pub feature_label : String
feature_label = "type:feature"

unfoldable pub has_prefixed_label : List String → String → Bool
has_prefixed_label labels prefix = any (λ l. starts_with l prefix) labels

unfoldable pub has_priority_label : List String → Bool
has_priority_label labels = any (λ l. contains priority_labels l) labels

-- `#N` for each number, joined.
abbrev pub hashes : String → List ℕ → String
hashes sep ns = join sep (map (λ n. "#" & show n) ns)

pub zero_scope_defect : ℕ → Defect
zero_scope_defect epic = record {
  kind = zero_scope;
  message =
      "Epic #"
      & show epic
      & " declares no linked children; the floor scanned zero scope (a gate that scans nothing fails closed — the zero-scope fail-closed invariant).";
  refs = epic ∷ [];
}

pub deps_section_defects : EpicHeader → List Defect
deps_section_defects epic =
    if epic.dependencies.present
    then []
    else record {
      kind = missing_deps_section;
      message = "Epic #" & show epic.number & " has no `## Dependencies` section.";
      refs = epic.number ∷ [];
    }
      ∷ []

pub cycle_defect : List ℕ → Defect
cycle_defect cycle = record {
  kind = dep_cycle;
  message = "Dependency cycle: " & hashes " → " cycle & ".";
  refs = cycle;
}

pub dangling_refs : EpicLedger → List ℕ
dangling_refs ledger = sort (
    filter
      (λ n.
        not (n == ledger.epic.number)
        && not (contains (map (λ (c : ChildIssue). c.number) ledger.children) n)
        && not (contains ledger.external_refs n))
      (distinct ledger.epic.dependencies.nodes))

pub dangling_defect : ℕ → ℕ → Defect
dangling_defect epic n = record {
  kind = dangling_dep;
  message =
      "`## Dependencies` references #"
      & show n
      & ", which is neither a linked child of epic #"
      & show epic
      & " nor a resolvable cross-epic issue.";
  refs = n ∷ [];
}

pub orphans : EpicLedger → List ℕ
orphans ledger = sort (
    map (λ (c : ChildIssue). c.number)
      (filter (λ c. not (contains ledger.epic.dependencies.nodes c.number)) ledger.children))

pub orphan_defect : ℕ → Defect
orphan_defect n = record {
  kind = orphan_child;
  message = "Child #" & show n & " is not referenced in the `## Dependencies` section.";
  refs = n ∷ [];
}

pub orphan_defects : EpicLedger → List Defect
orphan_defects ledger =
    if ledger.epic.dependencies.present then map orphan_defect (orphans ledger) else []

abbrev pub declares_stories : EpicHeader → Bool
declares_stories epic = ltb 0 (length epic.stories)

pub stories_section_defects : EpicHeader → List Defect
stories_section_defects epic =
    if declares_stories epic
    then []
    else record {
      kind = missing_stories_section;
      message =
          "Epic #"
          & show epic.number
          & " declares no `### User stories`; a PRD-grade epic must (its children have no stories to trace to).";
      refs = epic.number ∷ [];
    }
      ∷ []

abbrev pub stories_of : ChildIssue → List ℕ
stories_of c = elim c.stories [ none ↦ [] | some stories ↦ stories ]

-- The set `covered`.
pub covered : List ChildIssue → List ℕ
covered [] = []
covered (c ∷ cs) = stories_of c ++ covered cs

pub uncovered : EpicLedger → List ℕ
uncovered ledger =
    sort (filter (λ s. not (contains (covered ledger.children) s)) (distinct ledger.epic.stories))

pub uncovered_defect : ℕ → ℕ → Defect
uncovered_defect epic s = record {
  kind = uncovered_story;
  message =
      "User story "
      & show s
      & " declared by epic #"
      & show epic
      & " is covered by no linked child.";
  refs = s ∷ [];
}

pub zero_ac_defects : ChildIssue → List Defect
zero_ac_defects child =
    if ltb child.acceptance_criteria_count 1
    then record {
      kind = zero_ac;
      message = "Child #" & show child.number & " has zero acceptance criteria.";
      refs = child.number ∷ [];
    }
      ∷ []
    else []

abbrev pub is_none : {A : Type 0} → Option A → Bool
is_none none = true
is_none (some a) = false

pub story_defects : Bool → ChildIssue → List Defect
story_defects declared child =
    if declared && is_none child.stories
    then record {
      kind = missing_story;
      message =
          "Child #"
          & show child.number
          & " has no `**Stories:**` reference; every linked child must trace to ≥1 story.";
      refs = child.number ∷ [];
    }
      ∷ []
    else []

pub missing_labels : List String → List String
missing_labels labels =
    filter (λ prefix. not (has_prefixed_label labels prefix)) required_label_prefixes
    ++ (if has_priority_label labels then [] else "priority" ∷ [])

pub label_defects : ChildIssue → List Defect
label_defects child = elim (missing_labels child.labels) [
  | [] ↦ []
  | m ∷ ms ↦
      record {
        kind = missing_label;
        message =
            "Child #"
            & show child.number
            & " is missing required label(s): "
            & join ", " (m ∷ ms)
            & ".";
        refs = child.number ∷ [];
      }
      ∷ []
]

-- `child.containment === undefined || child.containment === "none"`.
abbrev pub is_unset : Option Containment → Bool
is_unset none = true
is_unset (some none_marker) = true
is_unset (some flag) = false
is_unset (some exempt) = false

pub containment_defects : Bool → ChildIssue → List Defect
containment_defects cycle_doc child =
    if cycle_doc && contains child.labels feature_label && is_unset child.containment
    then record {
      kind = missing_containment;
      message =
          "Child #"
          & show child.number
          & " is `type:feature` but carries no `**Containment:**` marker; every feature child must declare `flag (default-off)` or `exempt (<reason>)` (the real-consumer requirement).";
      refs = child.number ∷ [];
    }
      ∷ []
    else []

pub triage_defects : ChildIssue → List Defect
triage_defects child =
    if contains child.labels needs_triage
    then record {
      kind = needs_triage_label;
      message =
          "Child #"
          & show child.number
          & " still carries `"
          & needs_triage
          & "`; a planned child must not.";
      refs = child.number ∷ [];
    }
      ∷ []
    else []

-- The body of the loop over the children.
pub child_defects : Bool → Bool → ChildIssue → List Defect
child_defects declared cycle_doc child =
    zero_ac_defects child
    ++ story_defects declared child
    ++ label_defects child
    ++ containment_defects cycle_doc child
    ++ triage_defects child

pub concat_map : {A B : Type 0} → (A → List B) → List A → List B
concat_map f [] = []
concat_map f (x ∷ xs) = f x ++ concat_map f xs

abbrev pub by_number : ChildIssue → ChildIssue → Bool
by_number a b = leb a.number b.number

-- The findings in the order in which they are pushed.
pub findings : EpicLedger → List Defect
findings ledger =
    deps_section_defects ledger.epic
    ++ (map cycle_defect (find_cycles ledger.epic.dependencies.edges)
        ++ (map (dangling_defect ledger.epic.number) (dangling_refs ledger)
            ++ (orphan_defects ledger
                ++ (stories_section_defects ledger.epic
                    ++ (map (uncovered_defect ledger.epic.number) (uncovered ledger)
                        ++ concat_map
                            (child_defects (declares_stories ledger.epic) ledger.cycle_doc_present)
                            (sort_by by_number ledger.children))))))

-- The comparison of the final sort: by rank, then by the first reference.
pub not_after : Defect → Defect → Bool
not_after a b =
    if defect_type_rank a.kind == defect_type_rank b.kind
    then leb (first_or_zero a.refs) (first_or_zero b.refs)
    else ltb (defect_type_rank a.kind) (defect_type_rank b.kind)

unfoldable pub validate_ledger : EpicLedger → List Defect
validate_ledger ledger = elim ledger.children [
  | [] ↦ zero_scope_defect ledger.epic.number ∷ []
  | c ∷ cs ↦ sort_by not_after (findings ledger)
]

unfoldable pub is_pickable : EpicLedger → Bool
is_pickable ledger = nat_beq (length (validate_ledger ledger)) 0

pub signature_token : DefectType → List ℕ → String
signature_token kind refs = defect_type_name kind & ":" & join "." (map show (sort refs))

unfoldable pub ledger_signature : EpicLedger → String
ledger_signature ledger = elim (validate_ledger ledger) [
  | [] ↦ "clean"
  | d ∷ ds ↦ join "|" (map (λ (e : Defect). signature_token e.kind e.refs) (d ∷ ds))
]
