-- ===== src/OrphanHeal/Tests.antt =====
-- A red pull request, a draft, and one that has a heal-item. A date is read as a fixed time.
use kampus_pipeline.Common.{
  ℕ, String, ◌≡◌, ◌↔◌, Bool, true, false, Option, some, List, [], ◌∷◌, ◌++◌, map, In,
}
use kampus_pipeline.OrphanHeal.{PrSnapshot, HealPlanOptions, EmitItem, red, plan_heal_items}
use kampus_pipeline.OrphanHeal.Laws.{IsOrphan, plan_heal_items_iff, plan_heal_items_idempotent}

abbrev parse_date : String → Option ℕ
parse_date t = some 1000

abbrev pr : ℕ → Bool → PrSnapshot
pr number is_draft = record {
  number = number;
  is_draft = is_draft;
  ci = red;
  red_since = some "1970-01-01T00:00:01Z";
  in_engine_lane = false;
  failing_check = some "build";
}

abbrev prs : List PrSnapshot
prs = pr 4 false ∷ pr 5 true ∷ pr 6 false ∷ []

abbrev opts : HealPlanOptions
opts = record { grace_ms = 500; now = 2000; existing_heal_targets = 6 ∷ [] }

abbrev item : EmitItem
item = record { number = 4; failing_check = some "build"; red_for_ms = 1000 }

plan_heal_items_iff_example :
    In item (plan_heal_items parse_date prs opts).emit
    ↔ ((p : PrSnapshot) × In p prs × IsOrphan parse_date opts p item)
plan_heal_items_iff_example = plan_heal_items_iff parse_date opts prs item

plan_heal_items_idempotent_example :
    (plan_heal_items parse_date prs (record opts {
      existing_heal_targets =
          opts.existing_heal_targets
          ++ map (λ (i : EmitItem). i.number) (plan_heal_items parse_date prs opts).emit;
    })).emit
    ≡ []
plan_heal_items_idempotent_example = plan_heal_items_idempotent parse_date opts prs
