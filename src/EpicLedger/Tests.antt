-- ===== src/EpicLedger/Tests.antt =====
-- An epic with no children, which a re-plan gives one. The world counts the re-plans.
use mathlib.Core.List.{Permᴰ, Perm}
use kampus_pipeline.Common.{
  any, false, ℕ, zero, suc, ◌≡◌, refl, true, false, none, some, List, [], ◌∷◌, arith, In, sym, ap,
  ◌∙◌, inl, inr,
}
use kampus_pipeline.EpicLedger.Graph.{Search, search_graph}
use kampus_pipeline.EpicLedger.Graph.Fuel.{search_graph-Ends}
use kampus_pipeline.EpicLedger.Ledger.{DependencyEdge, EpicLedger, EpicHeader, ChildIssue}
use kampus_pipeline.EpicLedger.Validate.{validate_ledger, ledger_signature, has_prefixed_label}
use kampus_pipeline.EpicLedger.Validate.Order.{validate_ledger-perm}
use kampus_pipeline.EpicLedger.Effects.{Github, RePlanner, ok, Yields}
use kampus_pipeline.EpicLedger.Gate.{run_gate}
use kampus_pipeline.EpicLedger.Gate.Sound.{IsGrounded, run_gate-IsGrounded}
use kampus_pipeline.EpicLedger.Loop.{run_convergence_loop}
use kampus_pipeline.EpicLedger.Loop.Total.{IsRight, run_convergence_loop-IsRight}
use kampus_pipeline.EpicLedger.Loop.Bounds.{Adds, Counted, run_convergence_loop-Adds}

abbrev header : EpicHeader
header = record {
  number = 7;
  title = "Queue";
  labels = [];
  dependencies = record { present = true; nodes = 8 ∷ 9 ∷ []; edges = [] };
  stories = 1 ∷ [];
}

abbrev child : ℕ → ChildIssue
child n = record {
  number = n;
  title = "Task";
  labels = "type:feature" ∷ "p1" ∷ "status:planned" ∷ [];
  acceptance_criteria_count = 2;
  stories = some (1 ∷ []);
  containment = none;
}

abbrev with_children : List ChildIssue → EpicLedger
with_children children = record {
  epic = header;
  children = children;
  external_refs = [];
  cycle_doc_present = false;
}

abbrev bare : EpicLedger
bare = with_children []

abbrev two : EpicLedger
two = with_children (child 8 ∷ child 9 ∷ [])

abbrev ledger_at : ℕ → EpicLedger
ledger_at zero = bare
ledger_at (suc n) = two

abbrev github : Github ℕ ℕ
github = record {
  epic_ledger = λ n w. (ok (ledger_at w), w);
  flip_child_to_triaged = λ n w. (ok tt, w);
  post_comment = λ n body w. (ok tt, w);
  park_needs_info = λ n w. (ok tt, w);
}

abbrev planner : RePlanner ℕ ℕ
planner = record { re_plan = λ n w. (ok tt, suc w) }

counted : Counted (λ (w : ℕ). w) github planner
counted = record {
  reads = λ n w. omega arith;
  flips = λ n w. omega arith;
  posts = λ n body w. omega arith;
  parks = λ n w. omega arith;
  plans_once = λ n w. omega arith;
}

run_gate-IsGrounded_example : Yields (IsGrounded github 7) (run_gate github 7 0)
run_gate-IsGrounded_example = run_gate-IsGrounded github 7 0

run_convergence_loop-IsRight_example :
    Yields (IsRight github planner 7 12 12) (run_convergence_loop github planner 7 12 0)
run_convergence_loop-IsRight_example = run_convergence_loop-IsRight github planner 7 12 0

run_convergence_loop-Adds_example :
    Adds (λ (w : ℕ). w) 11 (run_convergence_loop github planner 7 12)
run_convergence_loop-Adds_example =
    run_convergence_loop-Adds (λ (w : ℕ). w) github planner 7 12 counted (omega arith)

own_number :
    (a b : ChildIssue) → In a two.children → In b two.children → a.number ≡ b.number → a ≡ b
own_number a b (inl e) (inl f) q = e ∙ sym f
own_number a b (inl e) (inr (inl f)) q =
    absurd (cc (q, ap (λ (c : ChildIssue). c.number) e, ap (λ (c : ChildIssue). c.number) f))
own_number a b (inr (inl e)) (inl f) q =
    absurd (cc (q, ap (λ (c : ChildIssue). c.number) e, ap (λ (c : ChildIssue). c.number) f))
own_number a b (inr (inl e)) (inr (inl f)) q = e ∙ sym f
own_number a b (inr (inr e)) j q = absurd e
own_number a b i (inr (inr f)) q = absurd f

swapped : Perm two.children (child 9 ∷ child 8 ∷ [])
swapped = ∣ Permᴰ.swap refl refl ∣₁

validate_ledger-perm_example :
    (validate_ledger two ≡ validate_ledger (with_children (child 9 ∷ child 8 ∷ [])))
    × (ledger_signature two ≡ ledger_signature (with_children (child 9 ∷ child 8 ∷ [])))
validate_ledger-perm_example = validate_ledger-perm two (child 9 ∷ child 8 ∷ []) swapped own_number

-- Two cycles that share an issue, and an edge out of them.
abbrev tangle : List DependencyEdge
tangle =
    record { child = 1; requires = 2 }
    ∷ record { child = 2; requires = 1 }
    ∷ record { child = 2; requires = 3 }
    ∷ record { child = 3; requires = 2 }
    ∷ record { child = 3; requires = 4 }
    ∷ []

search_graph-Ends_example : (s : Search) × (search_graph tangle ≡ some s)
search_graph-Ends_example = search_graph-Ends tangle

-- A label is looked for by its front.
labelled : has_prefixed_label ("p1" ∷ "type:feature" ∷ []) "type:" ≡ true
unfolding has_prefixed_label any
labelled = refl

unlabelled : has_prefixed_label ("type" ∷ "my-type:" ∷ []) "type:" ≡ false
unfolding has_prefixed_label any
unlabelled = refl
