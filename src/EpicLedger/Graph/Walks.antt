-- ===== src/EpicLedger/Graph/Walks.antt =====
-- epic-ledger/graph.ts: what a reported cycle is.
use kampus_pipeline.Common.{
  ℕ, zero, suc, ◌≡◌, ◌∙◌, ap, refl, inl, inr, Bool, true, false, not, ◌&&◌, Option, none, some,
  List, [], ◌∷◌, ◌++◌, arith, if◌then◌else◌, ◌==◌, nat_eq, string_eq, Dict, get, filter, sort,
  sort_by, distinct, contains, contains_iff, In, In-append, In-filter, In-sort_by, Bool-cases, leb,
  join, map, show, length,
}
use kampus_pipeline.EpicLedger.Ledger.{DependencyEdge}
use kampus_pipeline.EpicLedger.Graph.{
  white, grey, is_color, Search, add, remove, pop, slice_from, neighbours, record_cycle, enter,
  leave, step, each, visit, roots, start, search_graph, all_nodes, adjacency, find_cycles,
  first_or_zero,
}

module _ (adj : Dict ℕ (List ℕ)) where
  -- The edge from the first node to the second is in the lists.
  abbrev pub Edge : ℕ → ℕ → Type 0
  Edge x y = In y (neighbours adj x)

  -- A walk from `x` along the list that may go on to `y`.
  abbrev pub Walk : ℕ → List ℕ → ℕ → Type 0
  Walk x [] y = Edge x y
  Walk x (z ∷ zs) y = Edge x z × Walk z zs y

  -- A walk along the whole stack that may go on to `y`; anything may follow the empty one.
  abbrev Reaches : List ℕ → ℕ → Type 0
  Reaches [] y = Unit {0}
  Reaches (x ∷ xs) y = Walk x xs y

  -- The sorted set of the nodes of a walk that ends where it began.
  abbrev pub IsCycle : List ℕ → Type 0
  IsCycle c = (x : ℕ) × (xs : List ℕ) × Walk x xs x × (c ≡ sort (distinct (x ∷ xs)))

  pub Walk-snoc : (x : ℕ) (xs : List ℕ) (y z : ℕ) → Walk x xs y → Edge y z → Walk x (xs ++ y ∷ []) z
  Walk-snoc x [] y z w e = (w, e)
  Walk-snoc x (v ∷ xs) y z w e = (w.0, Walk-snoc v xs y z w.1 e)

  Reaches-snoc : (xs : List ℕ) (y z : ℕ) → Reaches xs y → Edge y z → Reaches (xs ++ y ∷ []) z
  Reaches-snoc [] y z r e = e
  Reaches-snoc (x ∷ xs) y z r e = Walk-snoc x xs y z r e

  pop-snoc : (xs : List ℕ) (y : ℕ) → pop (xs ++ y ∷ []) ≡ xs
  unfolding pop
  pop-snoc [] y = refl
  pop-snoc (x ∷ []) y = refl
  pop-snoc (x ∷ z ∷ xs) y = ap (λ r. x ∷ r) (pop-snoc (z ∷ xs) y)

  -- From a node on the stack on, the stack is a walk from that node.
  slice_from-Walk :
      (xs : List ℕ) (n : ℕ)
      → Reaches xs n
      → In n xs
      → (rest : List ℕ) × (slice_from n xs ≡ n ∷ rest) × Walk n rest n
  unfolding slice_from
  slice_from-Walk [] n r i = absurd i
  slice_from-Walk (x ∷ xs) n r i = elim (Bool-cases (x == n)) [
    | inl same ↦
        let e : x ≡ n = (nat_eq.same_iff x n).0 same in rw same (xs, ap (λ y. y ∷ xs) e, rw e at r)
    | inr other ↦ rw other (slice_from-Walk xs n (onward xs r) (inside other i))
  ]
    where
      onward : (ys : List ℕ) → Walk x ys n → Reaches ys n
      onward [] w = tt
      onward (y ∷ ys) w = w.1

      inside : (x == n) ≡ false → In n (x ∷ xs) → In n xs
      inside other (inl e) = absurd (ground (arith, nat_eq.same_iff x n))
      inside other (inr j) = j

  -- What holds of a search: what is on the stack set is on the stack, and the cycles are cycles.
  record IsSound (s : Search) : Type 0 where
    stacked : (n : ℕ) → In n s.on_stack → In n s.stack
    closed : (c : List ℕ) → In c s.cycles → IsCycle c

  -- A search after which the stack is as it was.
  abbrev Keeps : List ℕ → Option Search → Type 0
  Keeps st none = Unit {0}
  Keeps st (some s) = IsSound s × (s.stack ≡ st)

  abbrev Calls : (ℕ → Search → Option Search) → Type 0
  Calls call = (n : ℕ) (s : Search) → IsSound s → Reaches s.stack n → Keeps s.stack (call n s)

  record_cycle-IsSound :
      (s : Search) (x : ℕ) (xs : List ℕ)
      → IsSound s
      → Walk x xs x
      → IsSound (record_cycle (x ∷ xs) s) × ((record_cycle (x ∷ xs) s).stack ≡ s.stack)
  unfolding record_cycle
  record_cycle-IsSound s x xs h w =
      elim (Bool-cases (contains s.seen (join "," (map show (sort (distinct (x ∷ xs))))))) [
        | inl known ↦ rw known (h, refl)
        | inr new ↦ rw new (record { stacked = h.stacked; closed = added }, refl)
      ]
    where
      added : (c : List ℕ) → In c (s.cycles ++ sort (distinct (x ∷ xs)) ∷ []) → IsCycle c
      added c i = elim ((In-append c s.cycles (sort (distinct (x ∷ xs)) ∷ [])).0 i) [
        | inl old ↦ h.closed c old
        | inr (inl e) ↦ (x, xs, w, e)
        | inr (inr nowhere) ↦ absurd nowhere
      ]

  step-Keeps :
      (call : ℕ → Search → Option Search) (next : ℕ) (s : Search)
      → Calls call
      → IsSound s
      → Reaches s.stack next
      → Keeps s.stack (step call next s)
  unfolding step
  step-Keeps call next s h k r =
      elim (Bool-cases (is_color grey (get next s.color) && contains s.on_stack next)) [
        | inl cyclic ↦
            let on : contains s.on_stack next ≡ true = ground arith in
            let (rest, e, w) =
              slice_from-Walk s.stack next r
                (k.stacked next ((contains_iff s.on_stack next).0 on)) in
            rw cyclic (rw e (record_cycle-IsSound s next rest k w))
        | inr open_edge ↦ elim (Bool-cases (is_color white (get next s.color))) [
          | inl fresh ↦ rw (open_edge, fresh) (h next s k r)
          | inr seen_before ↦ rw (open_edge, seen_before) (k, refl)
        ]
      ]

  each-Keeps :
      (call : ℕ → Search → Option Search) (nexts : List ℕ) (s : Search)
      → Calls call
      → IsSound s
      → ((n : ℕ) → In n nexts → Reaches s.stack n)
      → Keeps s.stack (each call nexts s)
  unfolding each
  each-Keeps call [] s h k r = (k, refl)
  each-Keeps call (next ∷ rest) s h k r =
      then_rest (λ t m q. each-Keeps call rest t h m q) (step call next s)
        (step-Keeps call next s h k (r next (inl refl)))
    where
      then_rest :
          ((t : Search)
            → IsSound t
            → ((n : ℕ) → In n rest → Reaches t.stack n)
            → Keeps t.stack (each call rest t))
          → (o : Option Search) → Keeps s.stack o
          → Keeps s.stack (elim o [ none ↦ none | some t ↦ each call rest t ])
      then_rest ih none e = tt
      then_rest ih (some t) (m, same) = rw⁻¹ same (ih t m (λ n i. rw same (r n (inr i))))

  enter-IsSound : (n : ℕ) (s : Search) → IsSound s → IsSound (enter n s)
  unfolding enter
  enter-IsSound n s k = record {
    stacked = λ m i. added m (contains s.on_stack n) i;
    closed = k.closed;
  }
    where
      added : (m : ℕ) (b : Bool) → In m (add s.on_stack b n) → In m (s.stack ++ n ∷ [])
      added m true i = (In-append m s.stack (n ∷ [])).1 (inl (k.stacked m i))
      added m false i = elim ((In-append m s.on_stack (n ∷ [])).0 i) [
        | inl old ↦ (In-append m s.stack (n ∷ [])).1 (inl (k.stacked m old))
        | inr last ↦ (In-append m s.stack (n ∷ [])).1 (inr last)
      ]

  leave-IsSound :
      (n : ℕ) (s : Search) (st : List ℕ)
      → IsSound s
      → s.stack ≡ st ++ n ∷ []
      → IsSound (leave n s) × ((leave n s).stack ≡ st)
  unfolding leave remove
  leave-IsSound n s st k e = (record { stacked = kept; closed = k.closed }, popped)
    where
      popped : pop s.stack ≡ st
      popped = ap pop e ∙ pop-snoc st n

      kept : (m : ℕ) → In m (filter (λ j. not (j == n)) s.on_stack) → In m (pop s.stack)
      kept m i = rw popped (below (rw e at (k.stacked m other.0)))
        where
          other : In m s.on_stack × (not (m == n) ≡ true)
          other = (In-filter (λ j. not (j == n)) m s.on_stack).0 i

          below : In m (st ++ n ∷ []) → In m st
          below j = elim ((In-append m st (n ∷ [])).0 j) [
            | inl deeper ↦ deeper
            | inr (inl top) ↦ absurd (ground (arith, other.1, nat_eq.same_iff m n))
            | inr (inr nowhere) ↦ absurd nowhere
          ]

  visit-Calls : (fuel : ℕ) → Calls (visit fuel adj)
  unfolding visit
  visit-Calls zero n s k r = tt
  visit-Calls (suc fuel) n s k r = left (each (visit fuel adj) (neighbours adj n) (enter n s)) (
      each-Keeps (visit fuel adj) (neighbours adj n) (enter n s) (visit-Calls fuel)
        (enter-IsSound n s k) (λ m i. unfold enter in Reaches-snoc s.stack n m r i))
    where
      left :
          (o : Option Search)
          → Keeps (enter n s).stack o
          → Keeps s.stack (elim o [ none ↦ none | some t ↦ some (leave n t) ])
      left none h = tt
      left (some t) (m, same) = leave-IsSound n t s.stack m (unfold enter in same)

  roots-Keeps :
      (call : ℕ → Search → Option Search) (nodes : List ℕ) (s : Search)
      → Calls call
      → IsSound s
      → s.stack ≡ []
      → Keeps [] (roots call nodes s)
  unfolding roots
  roots-Keeps call [] s h k e = (k, e)
  roots-Keeps call (n ∷ nodes) s h k e =
      then_rest (λ t m q. roots-Keeps call nodes t h m q)
        (if is_color white (get n s.color) then call n s else some s)
        (rooted (is_color white (get n s.color)))
    where
      rooted : (b : Bool) → Keeps [] (if b then call n s else some s)
      rooted true = rw⁻¹ e (h n s k (rw e tt))
      rooted false = (k, e)

      then_rest :
          ((t : Search) → IsSound t → t.stack ≡ [] → Keeps [] (roots call nodes t))
          → (o : Option Search) → Keeps [] o
          → Keeps [] (elim o [ none ↦ none | some t ↦ roots call nodes t ])
      then_rest ih none q = tt
      then_rest ih (some t) (m, q) = ih t m q

-- Each reported cycle is the sorted set of the nodes of a walk along the edges that ends where it
-- began.
pub find_cycles-IsCycle :
    (edges : List DependencyEdge) (c : List ℕ)
    → In c (find_cycles edges)
    → IsCycle (adjacency edges) c
unfolding find_cycles search_graph start
find_cycles-IsCycle edges c i =
    reported (search_graph edges)
      (roots-Keeps (adjacency edges) (visit (suc (length (all_nodes edges))) (adjacency edges))
        (all_nodes edges) (start (all_nodes edges))
        (visit-Calls (adjacency edges) (suc (length (all_nodes edges))))
        (record { stacked = λ n j. absurd j; closed = λ d j. absurd j }) refl)
      i
  where
    reported :
        (o : Option Search)
        → Keeps (adjacency edges) [] o
        → In c (elim o [
          | none ↦ []
          | some s ↦ sort_by (λ a b. leb (first_or_zero a) (first_or_zero b)) s.cycles
        ])
        → IsCycle (adjacency edges) c
    reported none k j = absurd j
    reported (some s) (k, _) j =
        k.closed c ((In-sort_by (λ a b. leb (first_or_zero a) (first_or_zero b)) c s.cycles).0 j)
