-- ===== src/Gates/Scope/Laws.antt =====
-- No diff goes without a gate, and what the union of the two sides asks for.
use kampus_pipeline.Common.{
  ◌&&◌, ◌<◌, String, ◌≡◌, refl, ap, sym, ◌∙◌, ◌≢◌, ◌↔◌, ◌⊎◌, inl, inr, Bool, true, false, ◌||◌, not,
  Option, none, some, List, [], ◌∷◌, arith, length, any, any_iff, filter, In, Bool-cases,
  Option-cases,
}
use kampus_pipeline.Gates.{
  VerdictGate, code, doc, skill, design, ClassificationPolicy, CompiledPatternSet, Present,
  nothing_present, has, matches, add_path, add_paths, classify_paths, classify_compiled, compile,
  all_gates, is_gate,
}
use kampus_pipeline.Gates.Scope.{
  SidedPolicies, LoadedSides, refused, unless_empty, includes, asked, guard_policy, guard_policies,
  both_sides, gates_for_files, pr_gate_scope, scope_of, namespace_check,
}

-- One of the patterns to include matches the path, and none to exclude does.
abbrev pub covers : CompiledPatternSet → String → Bool
covers rules path = any (λ p. p path) rules.includes && not (any (λ p. p path) rules.excludes)

-- What the four rules say of one file: it needs the gates of the rules that match it, and the code
-- gate when none does.
abbrev pub needs :
    CompiledPatternSet
    → CompiledPatternSet
    → CompiledPatternSet
    → CompiledPatternSet
    → VerdictGate
    → String
    → Bool
needs c d s v code path =
    covers c path || not (covers c path || covers d path || covers s path || covers v path)
needs c d s v doc path = covers d path
needs c d s v skill path = covers s path
needs c d s v design path = covers v path

has-add_paths :
    (c d s v : CompiledPatternSet) (gate : VerdictGate) (present : Present) (files : List String)
    → has (add_paths c d s v present files) gate
      ≡ (has present gate || any (needs c d s v gate) files)
unfolding add_paths any
has-add_paths c d s v gate present [] = ground arith
has-add_paths c d s v code present (path ∷ files) =
    rw (has-add_paths c d s v code (add_path c d s v present path) files)
      (unfold add_path matches in ground arith)
has-add_paths c d s v doc present (path ∷ files) =
    rw (has-add_paths c d s v doc (add_path c d s v present path) files)
      (unfold add_path matches in ground arith)
has-add_paths c d s v skill present (path ∷ files) =
    rw (has-add_paths c d s v skill (add_path c d s v present path) files)
      (unfold add_path matches in ground arith)
has-add_paths c d s v design present (path ∷ files) =
    rw (has-add_paths c d s v design (add_path c d s v present path) files)
      (unfold add_path matches in ground arith)

includes-filter :
    (gate : VerdictGate) (p : VerdictGate → Bool) → includes gate (filter p all_gates) ≡ p gate
unfolding filter any
includes-filter code p = ground arith
includes-filter doc p = ground arith
includes-filter skill p = ground arith
includes-filter design p = ground arith

filter-nonempty :
    (gate : VerdictGate) (p : VerdictGate → Bool) → p gate ≡ true → filter p all_gates ≢ []
unfolding any
filter-nonempty gate p h e = cc (h, includes-filter gate p)

asked-unless_empty :
    (gs : List VerdictGate) (gate : VerdictGate) → asked (unless_empty gs) gate ≡ includes gate gs
unfolding any
asked-unless_empty [] gate = refl
asked-unless_empty (g ∷ gs) gate = refl

module _ (compile_regexp : String → Option (String → Bool)) where
  -- With rules that compile, a diff has a class exactly when one of its files needs it.
  pub classify_paths_iff :
      (files : List String) (policy : ClassificationPolicy) (gate : VerdictGate)
      (c d s v : CompiledPatternSet)
      → compile compile_regexp policy.code ≡ some c
      → compile compile_regexp policy.docs ≡ some d
      → compile compile_regexp policy.skills ≡ some s
      → compile compile_regexp policy.design ≡ some v
      → (includes gate (classify_paths compile_regexp files policy).classes ≡ true)
        ↔ ((path : String) × In path files × (needs c d s v gate path ≡ true))
  unfolding classify_paths classify_compiled
  classify_paths_iff [] policy gate c d s v h i j k =
      unfold any in (λ e. cc, λ (path, m, _). absurd m)
  classify_paths_iff (f ∷ fs) policy gate c d s v h i j k =
      rw (h, i, j, k)
        (rw (includes-filter gate (has (add_paths c d s v nothing_present (f ∷ fs))))
          (rw (has-add_paths c d s v gate nothing_present (f ∷ fs)) (start gate)))
    where
      start :
          (g : VerdictGate)
          → ((has nothing_present g || any (needs c d s v g) (f ∷ fs)) ≡ true)
            ↔ ((path : String) × In path (f ∷ fs) × (needs c d s v g path ≡ true))
      start code = any_iff (needs c d s v code) (f ∷ fs)
      start doc = any_iff (needs c d s v doc) (f ∷ fs)
      start skill = any_iff (needs c d s v skill) (f ∷ fs)
      start design = any_iff (needs c d s v design) (f ∷ fs)

  -- One file of the diff needs one gate, whatever the rules match.
  some_need :
      (c d s v : CompiledPatternSet) (path : String)
      → (gate : VerdictGate) × (needs c d s v gate path ≡ true)
  some_need c d s v path = elim (Bool-cases (covers d path)) [
    | inl m ↦ (doc, m)
    | inr nd ↦ elim (Bool-cases (covers s path)) [
      | inl m ↦ (skill, m)
      | inr ns ↦ elim (Bool-cases (covers v path)) [
        | inl m ↦ (design, m)
        | inr nv ↦ (code, ground arith)
      ]
    ]
  ]

  classify_paths-nonempty :
      (f : String) (fs : List String) (policy : ClassificationPolicy)
      → (classify_paths compile_regexp (f ∷ fs) policy).classes ≢ []
  unfolding classify_paths classify_compiled any
  classify_paths-nonempty f fs policy =
      compiled (compile compile_regexp policy.code) (compile compile_regexp policy.docs)
        (compile compile_regexp policy.skills) (compile compile_regexp policy.design)
    where
      compiled :
          (c d s v : Option CompiledPatternSet)
          → (classify_compiled compile_regexp (f ∷ fs) c d s v).classes ≢ []
      compiled none d s v e = cc
      compiled (some c) none s v e = cc
      compiled (some c) (some d) none v e = cc
      compiled (some c) (some d) (some s) none e = cc
      compiled (some c) (some d) (some s) (some v) e =
          let (gate, n) = some_need c d s v f in
          filter-nonempty gate (has (add_paths c d s v nothing_present (f ∷ fs)))
            (has-add_paths c d s v gate nothing_present (f ∷ fs) ∙ present gate n) e
        where
          present :
              (g : VerdictGate)
              → needs c d s v g f ≡ true
              → (has nothing_present g || any (needs c d s v g) (f ∷ fs)) ≡ true
          present code n = ground arith
          present doc n = ground arith
          present skill n = ground arith
          present design n = ground arith

  -- No diff goes without a gate: only an empty list of files has none.
  pub gates_for_files-eq-none_iff :
      (files : List String) (policy : ClassificationPolicy)
      → (gates_for_files compile_regexp files policy ≡ none) ↔ (files ≡ [])
  unfolding gates_for_files
  gates_for_files-eq-none_iff [] policy = (λ e. refl, λ e. refl)
  gates_for_files-eq-none_iff (f ∷ fs) policy = (
    λ e. absurd (
        some_gates (classify_paths compile_regexp (f ∷ fs) policy).classes
          (classify_paths-nonempty f fs policy) e),
    λ e. cc,
  )
    where
      some_gates : (gs : List VerdictGate) → gs ≢ [] → unless_empty gs ≡ none → ⊥
      some_gates [] h e = h refl
      some_gates (g ∷ gs) h e = cc

  some_gate :
      (files : List String) (policy : ClassificationPolicy) {gs : List VerdictGate}
      → gates_for_files compile_regexp files policy ≡ some gs
      → (g : VerdictGate) × (asked (some gs) g ≡ true)
  unfolding gates_for_files
  some_gate [] policy e = cc
  some_gate (f ∷ fs) policy {gs} e = first (classify_paths compile_regexp (f ∷ fs) policy).classes e
    where
      same : (g : VerdictGate) → is_gate g g ≡ true
      same code = refl
      same doc = refl
      same skill = refl
      same design = refl

      first :
          (xs : List VerdictGate)
          → unless_empty xs ≡ some gs
          → (g : VerdictGate) × (asked (some gs) g ≡ true)
      first [] q = cc
      first (g ∷ xs) q = (
        g,
        ap (λ o. asked o g) (sym q) ∙ unfold any in ap (λ b. b || any (is_gate g) xs) (same g),
      )

  -- The merge needs a gate exactly when one of the two sides asks for it, and it has no scope only
  -- for a pull request without files.
  pub pr_gate_scope_iff :
      (files : List String) (policies : SidedPolicies)
      → ((gate : VerdictGate)
          → (asked (pr_gate_scope compile_regexp files policies).gates gate ≡ true) ↔ (
              (asked (gates_for_files compile_regexp files policies.base) gate ≡ true)
              ⊎ (asked (gates_for_files compile_regexp files policies.head) gate ≡ true)))
        × (((pr_gate_scope compile_regexp files policies).gates ≡ none) ↔ (files ≡ []))
  unfolding pr_gate_scope scope_of
  pr_gate_scope_iff files policies = (each, (to, from))
    where
      each :
          (gate : VerdictGate)
          → (asked (pr_gate_scope compile_regexp files policies).gates gate ≡ true) ↔ (
              (asked (gates_for_files compile_regexp files policies.base) gate ≡ true)
              ⊎ (asked (gates_for_files compile_regexp files policies.head) gate ≡ true))
      each gate = ground (
        arith,
        asked-unless_empty
            (filter
              (λ (g : VerdictGate).
                asked (gates_for_files compile_regexp files policies.base) g
                || asked (gates_for_files compile_regexp files policies.head) g)
              all_gates)
            gate,
        includes-filter gate (λ (g : VerdictGate).
            asked (gates_for_files compile_regexp files policies.base) g
            || asked (gates_for_files compile_regexp files policies.head) g),
      )

      to : (pr_gate_scope compile_regexp files policies).gates ≡ none → files ≡ []
      to e = elim (Option-cases (gates_for_files compile_regexp files policies.base)) [
        | inl n ↦ (gates_for_files-eq-none_iff files policies.base).0 n
        | inr (gs, found) ↦
            let (g, there) = some_gate files policies.base found in
            let needed : asked (pr_gate_scope compile_regexp files policies).gates g ≡ true =
              (each g).1 (inl (ap (λ o. asked o g) found ∙ there)) in
            absurd (ground arith)
      ]

      from : files ≡ [] → (pr_gate_scope compile_regexp files policies).gates ≡ none
      from e = rw e (unfold gates_for_files filter in refl)

  -- A verdict is refused only for a diff of fewer than 100 files whose scope is known and lacks the
  -- gate, and the refusal names the gates of that scope.
  pub namespace_check-refused :
      (gate : VerdictGate) (files : List String) (policies : Option SidedPolicies)
      (required : List VerdictGate)
      → (namespace_check compile_regexp gate files policies ≡ refused required) ↔ (
          (p : SidedPolicies) × (policies ≡ some p)
          × (length files < 100)
          × ((pr_gate_scope compile_regexp files p).gates ≡ some required)
          × (includes gate required ≡ false))
  unfolding namespace_check
  namespace_check-refused gate files none required = (λ e. cc, λ (p, e, _, _, _). cc)
  namespace_check-refused gate files (some p) required = (
    λ e. elim (Option-cases (pr_gate_scope compile_regexp files p).gates) [
      | inl n ↦ absurd (ground arith)
      | inr (gs, found) ↦ (p, refl, ground arith, ground arith, ground arith)
    ],
    λ (q, same, few, found, missing). ground arith,
  )

-- The guard may act on a policy only when both of its sides are there and trusted.
pub guard_policies_iff :
    (loaded : Option LoadedSides) (p : SidedPolicies)
    → (guard_policies loaded ≡ some p) ↔ (
        (l : LoadedSides) × (loaded ≡ some l)
        × (l.base.trusted ≡ true)
        × (l.head.trusted ≡ true)
        × (p.base ≡ l.base.policy)
        × (p.head ≡ l.head.policy))
unfolding guard_policies guard_policy both_sides
guard_policies_iff none p = (λ e. cc, λ (l, e, _, _, _, _). cc)
guard_policies_iff (some l) p = (
  λ e. (l, refl, ground arith, ground arith, ground arith, ground arith),
  λ (k, same, a, b, c, d). ground arith,
)
