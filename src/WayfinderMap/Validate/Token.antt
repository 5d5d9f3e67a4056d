-- ===== src/WayfinderMap/Validate/Token.antt =====
-- packages/pipeline-cli/src/tools/wayfinder-map/validate.ts: the token of a defect tells its type and its
-- refs.
use Prim.Native.Char.{code}
use Prim.Native.String.append.{nil, cons}
use kampus_pipeline.Common.{
  ℕ, String, Bool, true, false, ◌&&◌, not, List, ◌≡◌, refl, sym, ap, ◌∙◌, sort, nat_beq,
  if◌then◌else◌, ◌==◌, string_eq, ◌&◌, join-show_inj,
}
use kampus_pipeline.WayfinderMap.{
  DefectType, missing_destination, missing_decisions_section, missing_frontier_section,
  missing_fog_section, empty_destination, malformed_decision_entry, malformed_frontier_entry,
  malformed_fog_entry, dangling_frontier_ref, closed_frontier_ticket, defect_type_name,
}
use kampus_pipeline.WayfinderMap.Validate.{signature_token}

-- The text before the first colon, and the text after it.
unfoldable front : String → String
front String.[] = ""
front (String.◌∷◌ c s) = let rest = front s in if nat_beq (code c) 58 then "" else String.◌∷◌ c rest

unfoldable back : String → String
back String.[] = ""
back (String.◌∷◌ c s) = let rest = back s in if nat_beq (code c) 58 then s else rest

unfoldable has_no_colon : String → Bool
has_no_colon String.[] = true
has_no_colon (String.◌∷◌ c s) = let rest = has_no_colon s in not (nat_beq (code c) 58) && rest

front-colon : (s t : String) → has_no_colon s ≡ true → front (s & ":" & t) ≡ s
unfolding front has_no_colon
front-colon String.[] t h = rw (nil, cons) refl
front-colon (String.◌∷◌ c s) t h = rw cons (by_code (nat_beq (code c) 58) h (front-colon s t))
  where
    by_code :
        (b : Bool)
        → (not b && has_no_colon s) ≡ true
        → (has_no_colon s ≡ true → front (s & ":" & t) ≡ s)
        → (if b then "" else String.◌∷◌ c (front (s & ":" & t))) ≡ String.◌∷◌ c s
    by_code true k ih = cc
    by_code false k ih = ap (String.◌∷◌ c) (ih k)

back-colon : (s t : String) → has_no_colon s ≡ true → back (s & ":" & t) ≡ t
unfolding back has_no_colon
back-colon String.[] t h = rw (nil, cons, nil) refl
back-colon (String.◌∷◌ c s) t h = rw cons (by_code (nat_beq (code c) 58) h (back-colon s t))
  where
    by_code :
        (b : Bool)
        → (not b && has_no_colon s) ≡ true
        → (has_no_colon s ≡ true → back (s & ":" & t) ≡ t)
        → (if b then s & ":" & t else back (s & ":" & t)) ≡ t
    by_code true k ih = cc
    by_code false k ih = ih k

defect_type_name-has_no_colon : (k : DefectType) → has_no_colon (defect_type_name k) ≡ true
unfolding has_no_colon
defect_type_name-has_no_colon missing_destination = refl
defect_type_name-has_no_colon missing_decisions_section = refl
defect_type_name-has_no_colon missing_frontier_section = refl
defect_type_name-has_no_colon missing_fog_section = refl
defect_type_name-has_no_colon empty_destination = refl
defect_type_name-has_no_colon malformed_decision_entry = refl
defect_type_name-has_no_colon malformed_frontier_entry = refl
defect_type_name-has_no_colon malformed_fog_entry = refl
defect_type_name-has_no_colon dangling_frontier_ref = refl
defect_type_name-has_no_colon closed_frontier_ticket = refl

-- The type with a name.
unfoldable named : String → DefectType
named s =
    if s == "MISSING_DESTINATION"
    then missing_destination
    else if s == "MISSING_DECISIONS_SECTION"
    then missing_decisions_section
    else if s == "MISSING_FRONTIER_SECTION"
    then missing_frontier_section
    else if s == "MISSING_FOG_SECTION"
    then missing_fog_section
    else if s == "EMPTY_DESTINATION"
    then empty_destination
    else if s == "MALFORMED_DECISION_ENTRY"
    then malformed_decision_entry
    else if s == "MALFORMED_FRONTIER_ENTRY"
    then malformed_frontier_entry
    else if s == "MALFORMED_FOG_ENTRY"
    then malformed_fog_entry
    else if s == "DANGLING_FRONTIER_REF"
    then dangling_frontier_ref
    else closed_frontier_ticket

named-defect_type_name : (k : DefectType) → named (defect_type_name k) ≡ k
unfolding named
named-defect_type_name missing_destination = refl
named-defect_type_name missing_decisions_section = refl
named-defect_type_name missing_frontier_section = refl
named-defect_type_name missing_fog_section = refl
named-defect_type_name empty_destination = refl
named-defect_type_name malformed_decision_entry = refl
named-defect_type_name malformed_frontier_entry = refl
named-defect_type_name malformed_fog_entry = refl
named-defect_type_name dangling_frontier_ref = refl
named-defect_type_name closed_frontier_ticket = refl

-- Defects with the same token have the same type and, in order, the same refs.
pub signature_token_inj :
    (k l : DefectType) (ns ms : List ℕ)
    → signature_token k ns ≡ signature_token l ms
    → (k ≡ l) × (sort ns ≡ sort ms)
unfolding signature_token
signature_token_inj k l ns ms e = (
  sym (named-defect_type_name k)
      ∙ ap (λ s. named s)
          (sym (front-colon (defect_type_name k) _ (defect_type_name-has_no_colon k))
            ∙ ap (λ s. front s) e
            ∙ front-colon (defect_type_name l) _ (defect_type_name-has_no_colon l))
      ∙ named-defect_type_name l,
  join-show_inj (sort ns) (sort ms) (
      sym (back-colon (defect_type_name k) _ (defect_type_name-has_no_colon k))
      ∙ ap (λ s. back s) e
      ∙ back-colon (defect_type_name l) _ (defect_type_name-has_no_colon l)),
)

pub signature_token_same :
    (k l : DefectType) (ns ms : List ℕ)
    → l ≡ k
    → sort ms ≡ sort ns
    → signature_token k ns ≡ signature_token l ms
unfolding signature_token
signature_token_same k l ns ms e f = rw (e, f) refl
