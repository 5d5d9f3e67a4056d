-- ===== src/WorktreeGuard/Guarded.antt =====
-- packages/pipeline-cli/src/tools/worktree-guard/path-resolve.ts: where an absolute path leads, and what
-- the guard makes of it.
use Prim.Native.String.append.{nil, cons}
use mathlib.Core.List
use text.Mathlib.Text.{starts_with}
use text.Mathlib.TextBridge.{IsPrefix}
use text.Mathlib.TextEquality.{starts_with_iff}
use text.Mathlib.TextLemmas.{append_assoc}
use kampus_pipeline.Common.{
  String, Bool, true, false, ◌||◌, some, List, [], ◌∷◌, ◌≡◌, ◌≢◌, ◌⊎◌, ◌↔◌, refl, inl, inr, arith,
  All, ◌++◌, sym, ap, ◌∙◌, join, ◌&◌, ◌==◌, string_eq, Bool-cases, if◌then◌else◌,
}
use kampus_pipeline.WorktreeGuard.{
  PathDecision, allow, rewrite_to, block, normalize, strip_trailing_slash, main_checkout_prefix,
  walk, turn, pop, strip_leading, drop_length, segments_of, split_path, resolve_against, is_under,
  worktree_copy, resolve_absolute, resolve_path,
}

-- The path is the root, or the root and a slash are the front of it.
abbrev pub Under : String → String → Type 0
Under root p = (p ≡ root) ⊎ IsPrefix (root & "/") p

is_under_iff : (root p : String) → (is_under root p ≡ true) ↔ Under root p
is_under_iff root p = ground (arith, string_eq.same_iff p root, starts_with_iff p (root & "/"))

worktree_copy-Under : (main wt p : String) → Under wt (worktree_copy main wt p)
unfolding worktree_copy
worktree_copy-Under main wt p =
    copy (strip_leading (drop_length main p) == "") (strip_leading (drop_length main p))
  where
    copy : (b : Bool) (rel : String) → Under wt (if b then wt else wt & "/" & rel)
    copy true rel = inl refl
    copy false rel = inr (rel, append_assoc wt "/" rel)

-- What the guard makes of a path: one that is let through is in the worktree or outside of the main
-- checkout, and one that it names is in the worktree, where a rewritten path exists and a blocked one
-- does not.
abbrev pub Lands : (String → Bool) → String → String → String → PathDecision → Type 0
Lands exists main wt p allow = Under wt p ⊎ ¬ Under main p
Lands exists main wt p (rewrite_to t) = Under wt t × (exists t ≡ true) × Under main p
Lands exists main wt p (block t) = Under wt t × (exists t ≡ false) × Under main p

resolve_absolute-Lands :
    (exists : String → Bool) (main wt p : String)
    → Lands exists main wt p (resolve_absolute exists main wt p)
unfolding resolve_absolute
resolve_absolute-Lands exists main wt p =
    lands (is_under wt p) (is_under main p) (exists t) t refl (is_under_iff wt p).0
      (is_under_iff main p).0 (λ f u. ne f ((is_under_iff main p).1 u))
      (worktree_copy-Under main wt p)
  where
    t : String
    t = worktree_copy main wt p

    ne : {b : Bool} → b ≡ false → b ≡ true → ⊥
    ne f u = cc

    lands :
        (a b c : Bool) (t : String)
        → exists t ≡ c
        → (a ≡ true → Under wt p)
        → (b ≡ true → Under main p)
        → (b ≡ false → ¬ Under main p)
        → Under wt t
        → Lands exists main wt p
            (if a then allow else if b then (if c then rewrite_to t else block t) else allow)
    lands true b c t e x y z u = inl (x refl)
    lands false true true t e x y z u = (u, e, y refl)
    lands false true false t e x y z u = (u, e, y refl)
    lands false false c t e x y z u = inr (z refl)

-- A segment of a path that is not empty and stays where it is.
abbrev pub IsClean : String → Type 0
IsClean s = (s ≢ "") × (s ≢ ".") × (s ≢ "..")

-- Where the segments lead from a folder, which is given by its segments from the root on: an empty
-- segment and `.` stay, `..` goes to the parent, of which the root has none, and any other segment goes
-- down.
pub data Leads : List String → List String → List String → Type 0 where
  arrive : (at : List String) → Leads at [] at
  stay :
      (at to segs : List String) (seg : String)
      → (seg ≡ "") ⊎ (seg ≡ ".")
      → Leads at segs to
      → Leads at (seg ∷ segs) to
  up_at_root :
      (to segs : List String) (seg : String)
      → seg ≡ ".."
      → Leads [] segs to
      → Leads [] (seg ∷ segs) to
  up :
      (at to segs : List String) (last seg : String)
      → seg ≡ ".."
      → Leads at segs to
      → Leads (at ++ last ∷ []) (seg ∷ segs) to
  down :
      (at to segs : List String) (seg : String)
      → IsClean seg
      → Leads (at ++ seg ∷ []) segs to
      → Leads at (seg ∷ segs) to

pop-IsClean : (out : List String) → All IsClean out → All IsClean (pop out)
pop-IsClean [] h = tt
pop-IsClean (s ∷ out) h = h.1

down-IsClean : (s : String) → (s == "" || s == ".") ≡ false → (s == "..") ≡ false → IsClean s
down-IsClean s f k = (
  λ e. ground (arith, string_eq.same_iff s ""),
  λ e. ground (arith, string_eq.same_iff s "."),
  λ e. ground (arith, string_eq.same_iff s ".."),
)

walk-IsClean : (out segs : List String) → All IsClean out → All IsClean (walk out segs)
unfolding walk
walk-IsClean out [] h = h
walk-IsClean out (seg ∷ segs) h = elim (Bool-cases (seg == "" || seg == ".")) [
  | inl t ↦ rw (t, walk) (walk-IsClean out segs h)
  | inr f ↦ elim (Bool-cases (seg == "..")) [
    | inl t ↦ rw (f, t, walk) (walk-IsClean (pop out) segs (pop-IsClean out h))
    | inr k ↦ rw (f, k, walk) (walk-IsClean (seg ∷ out) segs (down-IsClean seg f k, h))
  ]
]

turn-IsClean : (acc ss : List String) → All IsClean acc → All IsClean ss → All IsClean (turn acc ss)
unfolding turn
turn-IsClean acc [] a h = a
turn-IsClean acc (s ∷ ss) a h = turn-IsClean (s ∷ acc) ss (h.0, a) h.1

turn-append : (acc ss : List String) → turn acc ss ≡ turn [] ss ++ acc
unfolding turn
turn-append acc [] = refl
turn-append acc (s ∷ ss) =
    turn-append (s ∷ acc) ss
    ∙ sym (List.append_assoc (turn [] ss) (s ∷ []) acc)
    ∙ ap (λ r. r ++ acc) (sym (turn-append (s ∷ []) ss))

turn-cons : (s : String) (out : List String) → turn [] (s ∷ out) ≡ turn [] out ++ s ∷ []
unfolding turn
turn-cons s out = turn-append (s ∷ []) out

-- One more segment onto the loop leads where the segments do.
pop-Leads :
    (out segs to : List String) (seg : String)
    → seg ≡ ".."
    → Leads (turn [] (pop out)) segs to
    → Leads (turn [] out) (seg ∷ segs) to
pop-Leads [] segs to seg e l = unfold turn in up_at_root to segs seg e (unfold turn in l)
pop-Leads (s ∷ out) segs to seg e l = rw (turn-cons s out) (up (turn [] out) to segs s seg e l)

-- One segment and then the others, by the loop, from whatever folder.
segment-Leads :
    (out segs : List String) (seg : String)
    → ((o : List String) → Leads (turn [] o) segs (turn [] (walk o segs)))
    → Leads (turn [] out) (seg ∷ segs) (turn [] (walk out (seg ∷ segs)))
unfolding walk
segment-Leads out segs seg rest = elim (Bool-cases (seg == "" || seg == ".")) [
  | inl t ↦ rw (t, walk) (stay (turn [] out) _ segs seg (stays t) (rest out))
  | inr f ↦ elim (Bool-cases (seg == "..")) [
    | inl t ↦
        rw (f, t, walk)
          (pop-Leads out segs _ seg ((string_eq.same_iff seg "..").0 t) (rest (pop out)))
    | inr k ↦
        rw (f, k, walk)
          (down (turn [] out) _ segs seg (down-IsClean seg f k)
            (rw (turn-cons seg out) at (rest (seg ∷ out))))
  ]
]
  where
    stays : (seg == "" || seg == ".") ≡ true → (seg ≡ "") ⊎ (seg ≡ ".")
    stays t = ground (arith, string_eq.same_iff seg "", string_eq.same_iff seg ".")

-- The loop over the segments leads where the segments do.
walk-Leads : (segs out : List String) → Leads (turn [] out) segs (turn [] (walk out segs))
unfolding walk
walk-Leads [] out = arrive (turn [] out)
walk-Leads (seg ∷ segs) out = segment-Leads out segs seg (walk-Leads segs)

slashes-append : (path : String) → "/" & "/" & path ≡ String.◌∷◌ "/" (String.◌∷◌ "/" path)
slashes-append path = rw (cons, nil, cons, nil) refl

-- A path from the root is resolved to where its segments lead from the root.
segments_of-Leads : (path : String) → Leads [] (split_path path) (segments_of "/" path)
unfolding segments_of walk turn split_path strip_trailing_slash
segments_of-Leads path = rw (slashes-append path) (walk-Leads (split_path path) [])

segments_of-IsClean : (dir path : String) → All IsClean (segments_of dir path)
unfolding segments_of
segments_of-IsClean dir path =
    turn-IsClean [] (walk [] (split_path (strip_trailing_slash dir & "/" & path))) tt
      (walk-IsClean [] (split_path (strip_trailing_slash dir & "/" & path)) tt)

-- In a worktree of a main checkout, the segments of an absolute path lead from the root to a path
-- without an empty segment, `.` or `..`. The guard lets the path through only if that path is in the
-- worktree or outside of the main checkout, and if it rewrites or blocks it, that path is in the main
-- checkout and gets one in the worktree, which exists if it is rewritten and does not if it is blocked.
pub resolve_path-Lands :
    (exists : String → Bool) (root path main : String)
    → main_checkout_prefix root ≡ some main
    → path ≢ ""
    → starts_with (normalize path) "/" ≡ true
    → (ss : List String) × All IsClean ss
      × Leads [] (split_path (normalize path)) ss
      × Lands exists main
          (strip_trailing_slash (normalize root))
          ("/" & join "/" ss)
          (resolve_path exists root path)
unfolding resolve_path resolve_against
resolve_path-Lands exists root path main known there absolute = (
  segments_of "/" (normalize path),
  segments_of-IsClean "/" (normalize path),
  segments_of-Leads (normalize path),
  guarded (resolve_path exists root path) (ground (arith, string_eq.same_iff path "")),
)
  where
    guarded :
        (d : PathDecision)
        → d
          ≡ resolve_absolute exists main
              (strip_trailing_slash (normalize root))
              (resolve_against "/" (normalize path))
        → Lands exists main
            (strip_trailing_slash (normalize root))
            ("/" & join "/" (segments_of "/" (normalize path)))
            d
    guarded d e = rw e (
        resolve_absolute-Lands exists main (strip_trailing_slash (normalize root))
          (resolve_against "/" (normalize path)))
