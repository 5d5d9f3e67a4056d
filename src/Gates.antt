-- ===== src/Gates.antt =====
-- packages/pipeline-cli/src/tools/class-probe/class-probe.ts: which review gates a diff needs. A gate
-- of the verdict namespaces (verdict/verdict-match.ts) stands for its text and for its class.
-- `compile_regexp` stands for `new RegExp(…)` and the `test` of its result, with `none` where the
-- constructor throws.
pub mod Scope
pub mod Merge
mod Tests
use kampus_pipeline.Common.{
  ℕ, String, Bool, true, false, ◌&&◌, ◌||◌, not, Option, none, some, List, [], ◌∷◌, map, leb,
  length, if◌then◌else◌, ◌==◌, string_eq, Same, any, filter, find, contains,
}

pub data VerdictGate : Type 0 where
  code doc skill design : VerdictGate

pub record PatternSet : Type 0 where
  pub include_patterns : List String
  pub exclude_patterns : List String

pub record ClassificationPolicy : Type 0 where
  pub code : PatternSet
  pub docs : PatternSet
  pub skills : PatternSet
  pub design : PatternSet

-- `GATES`, and `CLASS_ORDER` under `NAMESPACE_OF`: a class is named by the gate that reviews it.
abbrev pub all_gates : List VerdictGate
all_gates = code ∷ doc ∷ skill ∷ design ∷ []

abbrev pub is_gate : VerdictGate → VerdictGate → Bool
is_gate code code = true
is_gate doc doc = true
is_gate skill skill = true
is_gate design design = true
is_gate _ _ = false

pub record CompiledPatternSet : Type 0 where
  pub includes : List (String → Bool)
  pub excludes : List (String → Bool)

-- The classes that are there after a file: `present`, a set over the four classes.
pub record Present : Type 0 where
  pub code : Bool
  pub docs : Bool
  pub skills : Bool
  pub design : Bool

abbrev pub nothing_present : Present
nothing_present = record { code = false; docs = false; skills = false; design = false }

abbrev pub has : Present → VerdictGate → Bool
has present code = present.code
has present doc = present.docs
has present skill = present.skills
has present design = present.design

pub matches : String → CompiledPatternSet → Bool
matches path rules =
    any (λ (pattern : String → Bool). pattern path) rules.includes
    && not (any (λ (pattern : String → Bool). pattern path) rules.excludes)

-- One turn of the loop over the files.
pub add_path :
    CompiledPatternSet
    → CompiledPatternSet
    → CompiledPatternSet
    → CompiledPatternSet
    → Present
    → String
    → Present
add_path c d s v present path = record {
  code =
      present.code
      || matches path c
      || not (matches path c || matches path d || matches path s || matches path v);
  docs = present.docs || matches path d;
  skills = present.skills || matches path s;
  design = present.design || matches path v;
}

pub add_paths :
    CompiledPatternSet
    → CompiledPatternSet
    → CompiledPatternSet
    → CompiledPatternSet
    → Present
    → List String
    → Present
unfolding add_path
add_paths c d s v present [] = present
add_paths c d s v present (path ∷ files) = add_paths c d s v (add_path c d s v present path) files

pub record ClassificationResult : Type 0 where
  pub classes : List VerdictGate
  pub trusted : Bool
  pub reason : Option String

module _ (compile_regexp : String → Option (String → Bool)) where
  pub compile_all : List String → Option (List (String → Bool))
  compile_all [] = some []
  compile_all (p ∷ ps) =
      let rest = compile_all ps in
      elim (compile_regexp p) [
        | none ↦ none
        | some test ↦ elim rest [ none ↦ none | some tests ↦ some (test ∷ tests) ]
      ]

  pub compile : PatternSet → Option CompiledPatternSet
  unfolding compile_all
  compile rules = elim (compile_all rules.include_patterns) [
    | none ↦ none
    | some includes ↦ elim (compile_all rules.exclude_patterns) [
      | none ↦ none
      | some excludes ↦ some (record { includes = includes; excludes = excludes })
    ]
  ]

  abbrev every_class : ClassificationResult
  every_class = record {
    classes = all_gates;
    trusted = false;
    reason =
        some
          "one or more repository classification patterns could not be compiled; dispatching every review namespace";
  }

  -- `classifyPaths` on a diff with files, its patterns compiled.
  pub classify_compiled :
      List String
      → Option CompiledPatternSet
      → Option CompiledPatternSet
      → Option CompiledPatternSet
      → Option CompiledPatternSet
      → ClassificationResult
  unfolding add_paths
  classify_compiled files (some c) (some d) (some s) (some v) = record {
    classes = filter (has (add_paths c d s v nothing_present files)) all_gates;
    trusted = true;
    reason = none;
  }
  classify_compiled files none d s v = every_class
  classify_compiled files (some c) none s v = every_class
  classify_compiled files (some c) (some d) none v = every_class
  classify_compiled files (some c) (some d) (some s) none = every_class

  pub classify_paths : List String → ClassificationPolicy → ClassificationResult
  unfolding classify_compiled compile
  classify_paths [] policy = record { classes = []; trusted = true; reason = none }
  classify_paths (f ∷ fs) policy =
      classify_compiled (f ∷ fs) (compile policy.code) (compile policy.docs) (compile policy.skills)
        (compile policy.design)
