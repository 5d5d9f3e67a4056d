-- ===== src/Gates/Tests.antt =====
-- A policy by which a regular expression is a file's own name, and a diff of one such file.
use kampus_pipeline.Common.{
  String, ◌≡◌, refl, ◌↔◌, ◌⊎◌, Bool, true, false, Option, none, some, List, [], ◌∷◌, ◌==◌,
  string_eq, In,
}
use kampus_pipeline.Gates.{
  VerdictGate, doc, PatternSet, ClassificationPolicy, CompiledPatternSet, classify_paths, compile,
  compile_all,
}
use kampus_pipeline.Gates.Scope.{
  SidedPolicies, LoadedPolicy, LoadedSides, includes, asked, gates_for_files, pr_gate_scope,
}
use kampus_pipeline.Gates.Scope.Laws.{needs, classify_paths_iff, pr_gate_scope_iff}
use kampus_pipeline.Gates.Merge.{Mergeability}

abbrev by_name : String → Option (String → Bool)
by_name pattern = some (λ path. path == pattern)

abbrev only : List String → PatternSet
only patterns = record { include_patterns = patterns; exclude_patterns = [] }

abbrev policy : ClassificationPolicy
policy = record {
  code = only ("main.ts" ∷ []);
  docs = only ("README.md" ∷ []);
  skills = only [];
  design = only [];
}

abbrev files : List String
files = "README.md" ∷ []

abbrev compiled : List (String → Bool) → CompiledPatternSet
compiled tests = record { includes = tests; excludes = [] }

main_rule : compile by_name policy.code ≡ some (compiled ((λ path. path == "main.ts") ∷ []))
unfolding compile compile_all
main_rule = refl

docs_rule : compile by_name policy.docs ≡ some (compiled ((λ path. path == "README.md") ∷ []))
unfolding compile compile_all
docs_rule = refl

no_rule : compile by_name (only []) ≡ some (compiled [])
unfolding compile compile_all
no_rule = refl

classify_paths_iff_example : (includes doc (classify_paths by_name files policy).classes ≡ true) ↔ (
    (path : String) × In path files
    × (needs
          (compiled ((λ path. path == "main.ts") ∷ []))
          (compiled ((λ path. path == "README.md") ∷ []))
          (compiled [])
          (compiled [])
          doc
          path
        ≡ true))
classify_paths_iff_example =
    classify_paths_iff by_name files policy doc (compiled ((λ path. path == "main.ts") ∷ []))
      (compiled ((λ path. path == "README.md") ∷ [])) (compiled []) (compiled []) main_rule
      docs_rule no_rule no_rule

abbrev sides : SidedPolicies
sides = record { base = policy; head = policy }

pr_gate_scope_iff_example :
    ((gate : VerdictGate)
      → (asked (pr_gate_scope by_name files sides).gates gate ≡ true) ↔ (
          (asked (gates_for_files by_name files sides.base) gate ≡ true)
          ⊎ (asked (gates_for_files by_name files sides.head) gate ≡ true)))
    × (((pr_gate_scope by_name files sides).gates ≡ none) ↔ (files ≡ []))
pr_gate_scope_iff_example = pr_gate_scope_iff by_name files sides

abbrev trusted : LoadedPolicy
trusted = record { policy = policy; trusted = true }

abbrev loaded : LoadedSides
loaded = record { base = trusted; head = trusted }

abbrev blocked : Mergeability
blocked = record { state = "open"; draft = false; merged = false; mergeable_state = some "blocked" }
