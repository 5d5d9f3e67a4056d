-- ===== src/WorktreeGuard.antt =====
-- packages/pipeline-cli/src/tools/worktree-guard/path-resolve.ts: where a path of an agent in a worktree
-- goes. `exists` stands for the test whether a file is there; the reasons of a decision are left out.
pub mod Guarded
mod Tests
use Prim.Native.Char.{code}
use Prim.Native.String
use text.Mathlib.Text.{starts_with}
use kampus_pipeline.Common.{
  ℕ, String, Bool, true, false, ◌&&◌, ◌||◌, not, Option, none, some, List, [], ◌∷◌, nat_beq,
  if◌then◌else◌, ◌==◌, string_eq, join, ◌&◌,
}

pub data PathDecision : Type 0 where
  allow : PathDecision
  rewrite_to : String → PathDecision
  block : String → PathDecision

-- Each backslash becomes a slash.
unfoldable pub normalize : String → String
normalize String.[] = ""
normalize (String.◌∷◌ c s) =
    let rest = normalize s in
    if nat_beq (code c) 0x5C then String.◌∷◌ "/" rest else String.◌∷◌ c rest

abbrev is_slash : ℕ → Bool
is_slash c = nat_beq c b'/'

-- `p.replace(/\/+$/, "")`.
unfoldable pub strip_slashes : String → String
strip_slashes String.[] = ""
strip_slashes (String.◌∷◌ c s) =
    let rest = strip_slashes s in if is_slash (code c) && rest == "" then "" else String.◌∷◌ c rest

-- A text of one character is left as it is.
unfoldable pub strip_trailing_slash : String → String
unfolding strip_slashes
strip_trailing_slash String.[] = ""
strip_trailing_slash (String.◌∷◌ c String.[]) = String.◌∷◌ c String.[]
strip_trailing_slash (String.◌∷◌ c (String.◌∷◌ d s)) = strip_slashes (String.◌∷◌ c (String.◌∷◌ d s))

abbrev pub worktree_segment : String
worktree_segment = "/.claude/worktrees/"

abbrev put_before : Option String → (String → String) → Option String
put_before none f = none
put_before (some s) f = some (f s)

-- The text before the first worktree segment.
unfoldable pub before_segment : String → Option String
before_segment String.[] = none
before_segment (String.◌∷◌ c s) =
    let rest = before_segment s in
    if starts_with (String.◌∷◌ c s) worktree_segment
    then some ""
    else put_before rest (String.◌∷◌ c)

-- `idx <= 0`.
abbrev not_empty : Option String → Option String
not_empty none = none
not_empty (some s) = if s == "" then none else some s

unfoldable pub main_checkout_prefix : String → Option String
unfolding strip_trailing_slash normalize before_segment
main_checkout_prefix worktree_root =
    not_empty (before_segment (strip_trailing_slash (normalize worktree_root)))

abbrev onto_first : (String → String) → List String → List String
onto_first f [] = f "" ∷ []
onto_first f (s ∷ ss) = f s ∷ ss

-- `text.split("/")`.
unfoldable pub split_path : String → List String
split_path String.[] = "" ∷ []
split_path (String.◌∷◌ c s) =
    let rest = split_path s in
    if is_slash (code c) then "" ∷ rest else onto_first (String.◌∷◌ c) rest

abbrev pub pop : List String → List String
pop [] = []
pop (s ∷ out) = out

-- The loop over the segments; `out` has its end in front.
unfoldable pub walk : List String → List String → List String
walk out [] = out
walk out (seg ∷ segs) =
    let stay = walk out segs in
    let up = walk (pop out) segs in
    let down = walk (seg ∷ out) segs in
    if seg == "" || seg == "." then stay else if seg == ".." then up else down

unfoldable pub turn : List String → List String → List String
turn acc [] = acc
turn acc (s ∷ ss) = turn (s ∷ acc) ss

unfoldable pub segments_of : String → String → List String
unfolding walk turn split_path strip_trailing_slash
segments_of dir path = turn [] (walk [] (split_path (strip_trailing_slash dir & "/" & path)))

unfoldable pub resolve_against : String → String → String
unfolding segments_of
resolve_against dir path = "/" & join "/" (segments_of dir path)

-- `p === root || p.startsWith(root + "/")`.
abbrev pub is_under : String → String → Bool
is_under root p = p == root || starts_with p (root & "/")

-- `s.slice(p.length)`.
unfoldable pub drop_length : String → String → String
drop_length String.[] s = s
drop_length (String.◌∷◌ c p) String.[] = ""
drop_length (String.◌∷◌ c p) (String.◌∷◌ d s) = drop_length p s

-- `s.replace(/^\/+/, "")`.
unfoldable pub strip_leading : String → String
strip_leading String.[] = ""
strip_leading (String.◌∷◌ c s) =
    let rest = strip_leading s in if is_slash (code c) then rest else String.◌∷◌ c s

-- The path below the main checkout, put below the worktree.
unfoldable pub worktree_copy : String → String → String → String
unfolding drop_length strip_leading
worktree_copy main wt path =
    let rel = strip_leading (drop_length main path) in if rel == "" then wt else wt & "/" & rel

module _ (exists : String → Bool) where
  unfoldable pub resolve_absolute : String → String → String → PathDecision
  unfolding worktree_copy
  resolve_absolute main wt path =
      if is_under wt path
      then allow
      else if is_under main path
      then (if exists (worktree_copy main wt path)
          then rewrite_to (worktree_copy main wt path)
          else block (worktree_copy main wt path))
      else allow

  abbrev by_main : String → String → Option String → PathDecision
  by_main root path none = allow
  by_main root path (some main) =
      if starts_with (normalize path) "/"
      then resolve_absolute main (strip_trailing_slash (normalize root))
          (resolve_against "/" (normalize path))
      else rewrite_to (resolve_against root (normalize path))

  unfoldable pub resolve_path : String → String → PathDecision
  unfolding main_checkout_prefix resolve_absolute resolve_against
  resolve_path worktree_root candidate =
      if candidate == ""
      then allow
      else by_main worktree_root candidate (main_checkout_prefix worktree_root)
