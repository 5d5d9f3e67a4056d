-- ===== src/Gates/Scope.antt =====
-- packages/pipeline-cli/src/tools/ship-it/preconditions.ts, from `gatesForFiles` on: the gates that a
-- pull request needs under the policies of its two sides, and where a verdict may be posted.
pub mod Laws
use kampus_pipeline.Common.{
  String, Bool, true, false, ◌&&◌, ◌||◌, not, Option, none, some, List, [], ◌∷◌, leb, length,
  if◌then◌else◌, any, filter,
}
use kampus_pipeline.Gates.{VerdictGate, ClassificationPolicy, classify_paths, all_gates, is_gate}

pub record SidedPolicies : Type 0 where
  pub base : ClassificationPolicy
  pub head : ClassificationPolicy

pub record PrGateScope : Type 0 where
  pub gates : Option (List VerdictGate)
  pub base : Option (List VerdictGate)
  pub head : Option (List VerdictGate)
  pub only : List VerdictGate

-- A policy as the loader hands it over.
pub record LoadedPolicy : Type 0 where
  pub policy : ClassificationPolicy
  pub trusted : Bool

pub record LoadedSides : Type 0 where
  pub base : LoadedPolicy
  pub head : LoadedPolicy

pub data NamespaceCheck : Type 0 where
  allowed : NamespaceCheck
  refused : List VerdictGate → NamespaceCheck
  unchecked : NamespaceCheck

-- `gates.length === 0 ? null : gates`.
abbrev pub unless_empty : List VerdictGate → Option (List VerdictGate)
unless_empty [] = none
unless_empty (g ∷ gs) = some (g ∷ gs)

-- `gates.includes(gate)`.
abbrev pub includes : VerdictGate → List VerdictGate → Bool
includes gate gates = any (is_gate gate) gates

-- `has` on `new Set(gates ?? [])`.
abbrev pub asked : Option (List VerdictGate) → VerdictGate → Bool
asked none gate = false
asked (some gates) gate = includes gate gates

abbrev xor : Bool → Bool → Bool
xor true b = not b
xor false b = b

pub guard_policy : Option LoadedPolicy → Option ClassificationPolicy
guard_policy none = none
guard_policy (some loaded) = if loaded.trusted then some loaded.policy else none

both_sides : Option ClassificationPolicy → Option ClassificationPolicy → Option SidedPolicies
both_sides none head = none
both_sides (some base) none = none
both_sides (some base) (some head) = some (record { base = base; head = head })

pub guard_policies : Option LoadedSides → Option SidedPolicies
unfolding guard_policy both_sides
guard_policies none = both_sides (guard_policy none) (guard_policy none)
guard_policies (some loaded) =
    both_sides (guard_policy (some loaded.base)) (guard_policy (some loaded.head))

module _ (compile_regexp : String → Option (String → Bool)) where
  -- `requiredNamespaces` and the removal of `review-` take a class to its gate.
  pub gates_for_files : List String → ClassificationPolicy → Option (List VerdictGate)
  gates_for_files [] policy = none
  gates_for_files (f ∷ fs) policy =
      unless_empty (classify_paths compile_regexp (f ∷ fs) policy).classes

  scope_of : Option (List VerdictGate) → Option (List VerdictGate) → PrGateScope
  scope_of base head =
      let union = filter (λ gate. asked base gate || asked head gate) all_gates in
      record {
        gates = unless_empty union;
        base = base;
        head = head;
        only = filter (λ gate. xor (asked base gate) (asked head gate)) union;
      }

  pub pr_gate_scope : List String → SidedPolicies → PrGateScope
  unfolding scope_of gates_for_files
  pr_gate_scope files policies =
      scope_of (gates_for_files files policies.base) (gates_for_files files policies.head)

  abbrev posting : VerdictGate → Option (List VerdictGate) → NamespaceCheck
  posting gate none = unchecked
  posting gate (some required) = if includes gate required then allowed else refused required

  pub namespace_check : VerdictGate → List String → Option SidedPolicies → NamespaceCheck
  unfolding pr_gate_scope
  namespace_check gate files none = unchecked
  namespace_check gate files (some policies) =
      if leb 100 (length files)
      then unchecked
      else posting gate (pr_gate_scope files policies).gates
