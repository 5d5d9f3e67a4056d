-- ===== src/EpicLedger/Validate/Rules.antt =====
-- The rules of the floor, stated of the ledger.
use text.Mathlib.TextBridge.{IsPrefix}
use kampus_pipeline.Common.{
  String, List, ℕ, ◌≤◌, ◌≡◌, ◌≢◌, ◌⊎◌, Bool, true, none, some, [], nat_eq, string_eq, In,
}
use kampus_pipeline.EpicLedger.Ledger.{flag, exempt, ChildIssue, EpicLedger}
use kampus_pipeline.EpicLedger.Graph.Acyclic.{IsAcyclic}
use kampus_pipeline.EpicLedger.Validate.{needs_triage, feature_label, stories_of}

-- One of the labels begins with the prefix.
pub record HasPrefixed (labels : List String) (prefix : String) : Type 0 where
  pub label : String
  pub there : In label labels
  pub begins : IsPrefix prefix label

-- What the floor asks of one child.
pub record IsCleanChild (cycle_doc : Bool) (c : ChildIssue) : Type 0 where
  pub has_criteria : 1 ≤ c.acceptance_criteria_count
  pub traced : c.stories ≢ none
  pub typed : HasPrefixed c.labels "type:"
  pub has_status : HasPrefixed c.labels "status:"
  pub prioritised : In "p0" c.labels ⊎ In "p1" c.labels ⊎ In "p2" c.labels
  pub contained :
      cycle_doc ≡ true
      → In feature_label c.labels
      → (c.containment ≡ some flag) ⊎ (c.containment ≡ some exempt)
  pub triaged : In needs_triage c.labels → ⊥

-- What the floor asks of a ledger.
pub record IsClean (l : EpicLedger) : Type 0 where
  pub has_children : l.children ≢ []
  pub has_dependencies : l.epic.dependencies.present ≡ true
  pub no_cycles : IsAcyclic l.epic.dependencies.edges
  pub refs_resolve :
      (n : ℕ)
      → In n l.epic.dependencies.nodes
      → (n ≡ l.epic.number)
        ⊎ ((c : ChildIssue) × In c l.children × (n ≡ c.number))
        ⊎ In n l.external_refs
  pub children_listed : (c : ChildIssue) → In c l.children → In c.number l.epic.dependencies.nodes
  pub declares : l.epic.stories ≢ []
  pub stories_covered :
      (s : ℕ) → In s l.epic.stories → (c : ChildIssue) × In c l.children × In s (stories_of c)
  pub children_clean : (c : ChildIssue) → In c l.children → IsCleanChild l.cycle_doc_present c
