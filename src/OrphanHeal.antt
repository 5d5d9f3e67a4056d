-- ===== src/OrphanHeal.antt =====
-- packages/pipeline-cli/src/tools/orphan-heal/orphan-heal.ts: which red pull requests get a
-- heal-item. A time is a natural number of milliseconds; `parse_date` stands for `Date.parse`, with
-- `none` for NaN.
pub mod Laws
mod Tests
use kampus_pipeline.Common.{
  ℕ, ◌-◌, ◌/◌, ◌%◌, String, Bool, true, false, ◌||◌, Option, none, some, List, [], ◌∷◌, ◌++◌, ltb,
  if◌then◌else◌, ◌==◌, nat_eq, contains, show, ◌&◌,
}

pub data CiConclusion : Type 0 where
  red green pending unknown : CiConclusion

abbrev ci_name : CiConclusion → String
ci_name red = "red"
ci_name green = "green"
ci_name pending = "pending"
ci_name unknown = "unknown"

abbrev pub is_red : CiConclusion → Bool
is_red red = true
is_red green = false
is_red pending = false
is_red unknown = false

pub record PrSnapshot : Type 0 where
  pub number : ℕ
  pub is_draft : Bool
  pub ci : CiConclusion
  pub red_since : Option String
  pub in_engine_lane : Bool
  pub failing_check : Option String

pub record HealPlanOptions : Type 0 where
  pub grace_ms : ℕ
  pub now : ℕ
  pub existing_heal_targets : List ℕ

pub data SkipReason : Type 0 where
  draft ci_not_red in_lane no_red_since within_grace heal_item_exists : SkipReason

pub record EmitItem : Type 0 where
  pub number : ℕ
  pub failing_check : Option String
  pub red_for_ms : ℕ

pub record SkipItem : Type 0 where
  pub number : ℕ
  pub reason : SkipReason
  pub detail : String

pub record HealPlan : Type 0 where
  pub emit : List EmitItem
  pub skip : List SkipItem

-- A negative duration is one of 0 minutes, as the subtraction that stops at 0 makes it.
pub format_duration : ℕ → String
format_duration ms =
    let total_minutes = ms / 60000 in
    let hours = total_minutes / 60 in
    let minutes = total_minutes % 60 in
    if hours == 0 then show minutes & "m" else show hours & "h " & show minutes & "m"

-- What the loop does with one pull request: an item to emit, or one to skip.
pub data Decision : Type 0 where
  emits : EmitItem → Decision
  skips : SkipItem → Decision

skip_item : ℕ → SkipReason → String → Decision
skip_item number reason detail =
    skips (record { number = number; reason = reason; detail = detail })

-- `Date.parse` on a timestamp that is there.
abbrev pub red_at : (String → Option ℕ) → Option String → Option ℕ
red_at parse_date none = none
red_at parse_date (some t) = parse_date t

-- The gates behind the one on the timestamp. `now - redAt < graceMs` holds of a negative difference.
past_anchor : HealPlanOptions → PrSnapshot → ℕ → Decision
past_anchor opts pr at =
    let red_for = opts.now - at in
    if ltb opts.now at || ltb red_for opts.grace_ms
    then skip_item pr.number within_grace
        ("red for " & format_duration red_for & " < grace " & format_duration opts.grace_ms)
    else if contains opts.existing_heal_targets pr.number
    then skip_item pr.number heal_item_exists
        "an open heal-item already targets this PR — idempotent skip"
    else emits
        (record { number = pr.number; failing_check = pr.failing_check; red_for_ms = red_for })

pub decide : (String → Option ℕ) → HealPlanOptions → PrSnapshot → Decision
unfolding skip_item past_anchor
decide parse_date opts pr =
    if pr.is_draft
    then skip_item pr.number draft "PR is a draft"
    else if is_red pr.ci
    then if pr.in_engine_lane
      then skip_item pr.number in_lane
          "PR is in an engine lane (closes a triaged issue / active claim) — the engine heals it"
      else elim (red_at parse_date pr.red_since) [
        | none ↦
            skip_item pr.number no_red_since
              "red, but no parseable red-since timestamp to measure the grace window (default-deny)"
        | some at ↦ past_anchor opts pr at
      ]
    else skip_item pr.number ci_not_red ("head CI is " & ci_name pr.ci & ", not red")

abbrev push : HealPlan → Decision → HealPlan
push plan (emits item) = record plan { emit = plan.emit ++ item ∷ [] }
push plan (skips item) = record plan { skip = plan.skip ++ item ∷ [] }

plan_from : (String → Option ℕ) → HealPlanOptions → HealPlan → List PrSnapshot → HealPlan
plan_from parse_date opts plan [] = plan
plan_from parse_date opts plan (pr ∷ prs) =
    plan_from parse_date opts (push plan (decide parse_date opts pr)) prs

pub plan_heal_items : (String → Option ℕ) → List PrSnapshot → HealPlanOptions → HealPlan
unfolding plan_from
plan_heal_items parse_date prs opts =
    plan_from parse_date opts (record { emit = []; skip = [] }) prs
