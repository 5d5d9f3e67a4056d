-- ===== src/WorktreeGuard/Tests.antt =====
-- A worktree below a main checkout.
use text.Mathlib.Text.{starts_with}
use kampus_pipeline.Common.{
  String, Bool, true, false, some, List, [], ◌≡◌, ◌≢◌, refl, All, join, ◌&◌, ◌==◌, string_eq,
}
use kampus_pipeline.WorktreeGuard.{
  rewrite_to, block, main_checkout_prefix, normalize, strip_trailing_slash, split_path,
  resolve_path,
}
use kampus_pipeline.WorktreeGuard.Guarded.{Lands, Leads, IsClean, resolve_path-Lands}

abbrev root : String
root = "/w/main/.claude/worktrees/a1/"

abbrev exists : String → Bool
exists p = p == "/w/main/.claude/worktrees/a1/src/a.ts"

derived : main_checkout_prefix root ≡ some "/w/main"
unfolding main_checkout_prefix
derived = refl

rewrites :
    resolve_path exists root "/w/main/docs/../src/a.ts"
    ≡ rewrite_to "/w/main/.claude/worktrees/a1/src/a.ts"
unfolding resolve_path join
rewrites = refl

blocks : resolve_path exists root "/w/main/b.ts" ≡ block "/w/main/.claude/worktrees/a1/b.ts"
unfolding resolve_path join
blocks = refl

relative : resolve_path exists root "src/a.ts" ≡ rewrite_to "/w/main/.claude/worktrees/a1/src/a.ts"
unfolding resolve_path join
relative = refl

-- A relative path that climbs is rewritten to the main checkout itself.
escapes : resolve_path exists root "../../../src/a.ts" ≡ rewrite_to "/w/main/src/a.ts"
unfolding resolve_path join
escapes = refl

absolute : starts_with (normalize "/w/main/b.ts") "/" ≡ true
unfolding normalize
absolute = refl

abbrev path : String
path = "/w/main/b.ts"

path-ne : path ≢ ""
path-ne e = let h : false ≡ true = (string_eq.same_iff path "").1 e in cc

resolve_path-Lands_example :
    (ss : List String) × All IsClean ss
    × Leads [] (split_path (normalize path)) ss
    × Lands exists "/w/main"
        (strip_trailing_slash (normalize root))
        ("/" & join "/" ss)
        (resolve_path exists root path)
resolve_path-Lands_example = resolve_path-Lands exists root path "/w/main" derived path-ne absolute
