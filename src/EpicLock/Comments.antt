-- ===== src/EpicLock/Comments.antt =====
-- packages/pipeline-cli/src/tools/epic-lock/github.ts: what a new comment and a deleted comment
-- leave of the claims on an epic.
use kampus_pipeline.Common.{
  ℕ, ◌≤◌, String, false, not, some, [], ◌∷◌, ◌≡◌, ◌≢◌, ◌↔◌, ◌⊎◌, sym, ap, ◌∙◌, inl, inr, arith, In,
  In-append, In-filter, ◌==◌, nat_eq, text_lt,
}
use kampus_pipeline.Common.TextOrder.{text_lt_asym, text_lt_tie, text_lt_trans, text_lt_of_units}
use kampus_pipeline.EpicLock.{ClaimComment, parse_claim_session, not_after}
use kampus_pipeline.EpicLock.World.{Store, IsFresh, post, remove}
use kampus_pipeline.EpicLock.Winner.{IsKeyed, Before, Wins}

-- The ids and the times of the comments are those that were given out.
pub record IsSound (st : Store) : Type 0 where
  pub known : (c : ClaimComment) → In c st.comments → c.id ≤ st.last_id
  pub past : (c : ClaimComment) → In c st.comments → text_lt st.last_time c.created_at ≡ false
  pub keyed : IsKeyed st.comments

text_lt_irrefl : (a : String) → text_lt a a ≡ false
text_lt_irrefl a = ground (arith, text_lt_asym a a)

Before-time :
    (st : Store) (c e : ClaimComment)
    → text_lt st.last_time c.created_at ≡ false
    → IsFresh st e
    → text_lt e.created_at c.created_at ≡ false
Before-time st c e time fresh = ground (
  arith,
  text_lt_trans st.last_time e.created_at c.created_at,
  text_lt_tie st.last_time e.created_at,
  text_lt_of_units st.last_time e.created_at c.created_at c.created_at,
)

Before-fresh :
    (st : Store) (c e : ClaimComment)
    → c.id ≤ st.last_id
    → text_lt st.last_time c.created_at ≡ false
    → IsFresh st e
    → Before c e
unfolding not_after
Before-fresh st c e bound time fresh = ground (arith, Before-time st c e time fresh)

In-post : (st : Store) (e c : ClaimComment) → In c (post st e).comments → In c st.comments ⊎ (c ≡ e)
In-post st e c i = ground (arith, In-append c st.comments (e ∷ []))

In-remove :
    (st : Store) (k : ℕ) (c : ClaimComment)
    → In c (remove st k).comments ↔ (In c st.comments × (c.id ≢ k))
In-remove st k c =
    ground (
      arith,
      In-filter (λ (d : ClaimComment). not (d.id == k)) c st.comments,
      nat_eq.same_iff c.id k,
    )

pub post-IsSound : (st : Store) (e : ClaimComment) → IsSound st → IsFresh st e → IsSound (post st e)
post-IsSound st e s fresh = record {
  known = λ c i. elim (In-post st e c i) [
    | inl j ↦ omega (arith, s.known c j, fresh.0)
    | inr q ↦ rw q (omega arith)
  ];
  past = λ c i. elim (In-post st e c i) [
    | inl j ↦ Before-time st c e (s.past c j) fresh
    | inr q ↦ rw q (text_lt_irrefl e.created_at)
  ];
  keyed = λ c d i j same. elim (In-post st e c i) [
    | inl k ↦ elim (In-post st e d j) [
      | inl l ↦ s.keyed c d k l same
      | inr q ↦
          absurd (omega (arith, s.known c k, fresh.0, same, ap (λ (x : ClaimComment). x.id) q))
    ]
    | inr p ↦ elim (In-post st e d j) [
      | inl l ↦
          absurd (omega (arith, s.known d l, fresh.0, same, ap (λ (x : ClaimComment). x.id) p))
      | inr q ↦ ap (λ (x : ClaimComment). x.body) (p ∙ sym q)
    ]
  ];
}

pub remove-IsSound : (st : Store) (id : ℕ) → IsSound st → IsSound (remove st id)
remove-IsSound st id s = record {
  known = λ c i. s.known c ((In-remove st id c).0 i).0;
  past = λ c i. s.past c ((In-remove st id c).0 i).0;
  keyed = λ c d i j same. s.keyed c d ((In-remove st id c).0 i).0 ((In-remove st id d).0 j).0 same;
}

module _ (lower : String → String) (permission : String → String) where
  -- A comment with the id is a claim of the session, if it is still there.
  abbrev pub IsOwn : Store → String → ℕ → Type 0
  IsOwn st s id =
      (id ≤ st.last_id)
      × ((c : ClaimComment)
          → In c st.comments
          → c.id ≡ id
          → parse_claim_session lower c.body ≡ some s)

  pub post-IsOwn :
      (st : Store) (e : ClaimComment) (s : String) (id : ℕ)
      → IsFresh st e
      → IsOwn st s id
      → IsOwn (post st e) s id
  post-IsOwn st e s id fresh (bound, own) = (
    omega arith,
    λ c i same. elim (In-post st e c i) [
      | inl j ↦ own c j same
      | inr q ↦ absurd (omega (arith, same, ap (λ (x : ClaimComment). x.id) q))
    ],
  )

  pub remove-IsOwn : (st : Store) (s : String) (id k : ℕ) → IsOwn st s id → IsOwn (remove st k) s id
  remove-IsOwn st s id k (bound, own) = (bound, λ c i same. own c ((In-remove st k c).0 i).0 same)

  pub post-Wins :
      (st : Store) (e : ClaimComment) (s : String)
      → IsSound st
      → IsFresh st e
      → Wins lower permission st.comments s
      → Wins lower permission (post st e).comments s
  post-Wins st e s sound fresh (c, i, k, least) = (
    c,
    (In-append c st.comments (e ∷ [])).1 (inl i),
    k,
    λ d t j l. elim (In-post st e d j) [
      | inl m ↦ least d t m l
      | inr q ↦ rw q (Before-fresh st c e (sound.known c i) (sound.past c i) fresh)
    ],
  )

  pub remove-Wins :
      (st : Store) (s t : String) (k : ℕ)
      → IsOwn st t k
      → s ≢ t
      → Wins lower permission st.comments s
      → Wins lower permission (remove st k).comments s
  remove-Wins st s t k own other (c, i, claim, least) = (
    c,
    (In-remove st k c).1
        (i, λ same. other (let q : some s ≡ some t = sym claim.1 ∙ own.1 c i same in ground arith)),
    claim,
    λ d u j l. least d u ((In-remove st k d).0 j).0 l,
  )
