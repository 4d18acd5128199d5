-- ===== src/Scheduler/Graph/Ancestors.antt =====
-- The search of `computeNeededNodes` ends, and finds the targets and their ancestors.
use insightify_core.Prelude.{
  ℕ, zero, suc, ◌+◌, ◌≤◌, ◌<◌, ◌≡◌, refl, ap, ◌∙◌, ◌↔◌, ◌⊎◌, inl, inr, true, false, not, ◌&&◌, ◌||◌,
  Option, some, List, [], ◌∷◌, length, length-append, ◌==◌, ==_iff, Bool-cases, List-cases, arith,
}
use insightify_core.Scheduler.Sets.{has, has-add, has-snoc, unseen, unseen-add, unseen-le}
use insightify_core.Scheduler.Graph.{
  Adjacency, targets_of, build_reverse_graph, Search, visit, visit_preds, needed_loop,
  compute_needed_nodes,
}
use insightify_core.Scheduler.Graph.Needed.{Reaches, here, step, has-build_reverse_graph}

has-visit :
    (p : ℕ) (s : Search) (x : ℕ)
    → (has x (visit p s).need ≡ (has x s.need || x == p))
      × (has x (visit p s).pending ≡ (has x s.pending || (x == p && not (has x s.need))))
unfolding visit
has-visit p s x = elim (Bool-cases (has p s.need)) [
  | inl e ↦ rw (e, visit) (ground (arith, member e), ground (arith, member e))
  | inr e ↦
      rw (e, visit)
        (ground (arith, has-add x p s.need), ground (arith, has-snoc x p s.pending, member_not e))
]
  where
    member : has p s.need ≡ true → x == p ≡ true → has x s.need ≡ true
    member e same = rw ((==_iff x p).0 same) e

    member_not : has p s.need ≡ false → x == p ≡ true → has x s.need ≡ false
    member_not e same = rw ((==_iff x p).0 same) e

visit-work :
    (n p : ℕ) (s : Search)
    → p < n
    → length (visit p s).pending + unseen n (visit p s).need ≡ length s.pending + unseen n s.need
unfolding visit
visit-work n p s h = elim (Bool-cases (has p s.need)) [
  | inl e ↦ rw (e, visit) refl
  | inr e ↦
      rw (e, visit) (omega (arith, unseen-add n p s.need h e, length-append s.pending (p ∷ [])))
]

has-visit_preds :
    (ps : List ℕ) (s : Search) (x : ℕ)
    → (has x (visit_preds ps s).need ≡ (has x s.need || has x ps))
      × (has x (visit_preds ps s).pending ≡ (has x s.pending || (has x ps && not (has x s.need))))
unfolding has visit_preds
has-visit_preds [] s x = ground arith
has-visit_preds (p ∷ ps) s x =
    let (need, pending) = has-visit p s x in
    let ih = has-visit_preds ps (visit p s) x in
    (ih.0 ∙ ground (arith, need), ih.1 ∙ ground (arith, need, pending))

visit_preds-work :
    (n : ℕ) (ps : List ℕ) (s : Search)
    → ((x : ℕ) → has x ps ≡ true → x < n)
    → length (visit_preds ps s).pending + unseen n (visit_preds ps s).need
      ≡ length s.pending + unseen n s.need
unfolding has visit_preds
visit_preds-work n [] s h = refl
visit_preds-work n (p ∷ ps) s h =
    visit_preds-work n ps (visit p s) (λ x m. h x (ground arith))
    ∙ visit-work n p s (h p (ground arith))

has-row-below : (adj : Adjacency) (u v : ℕ) → has v (targets_of adj u) ≡ true → u < length adj
unfolding has
has-row-below [] u v m = cc
has-row-below (vs ∷ adj) zero v m = omega arith
has-row-below (vs ∷ adj) (suc u) v m = omega (arith, has-row-below adj u v m)

module _ (adj : Adjacency) (targets : List ℕ) where
  abbrev rev : Adjacency
  rev = build_reverse_graph adj

  -- `x` is a target or an ancestor of one.
  abbrev pub IsNeeded : ℕ → Type 0
  IsNeeded x = (t : ℕ) × (has t targets ≡ true) × Reaches adj t x

  module _ (in_range : (u v : ℕ) → has v (targets_of adj u) ≡ true → v < length adj)
      (on_graph : (t : ℕ) → has t targets ≡ true → t < length adj) where
    record Inv (s : Search) : Type 0 where
      start : (x : ℕ) → has x targets ≡ true → has x s.need ≡ true
      sound : (x : ℕ) → has x s.need ≡ true → IsNeeded x
      queued : (x : ℕ) → has x s.pending ≡ true → has x s.need ≡ true
      inside : (x : ℕ) → has x s.need ≡ true → x < length adj
      closed :
          (u v : ℕ)
          → has v s.need ≡ true
          → has v (targets_of adj u) ≡ true
          → (has u s.need ≡ true) ⊎ (has v s.pending ≡ true)

    -- One round of the outer loop.
    visit-Inv :
        (t : ℕ) (rest : List ℕ) (s : Search)
        → s.pending ≡ t ∷ rest
        → Inv s
        → Inv (visit_preds (targets_of rev t) (record s { pending = rest }))
    visit-Inv t rest s e h = record {
      start = λ x m. ground (arith, h.start x m, now x);
      sound = λ x m. elim (Bool-cases (has x s.need)) [
        | inl old ↦ h.sound x old
        | inr new ↦
            let (goal, listed, walk) = h.sound t in_need in
            (goal, listed, step (rw (← row x) (ground (arith, now x))) walk)
      ];
      queued = λ x m. ground (arith, now x, then_queued x, pending x, h.queued x);
      inside = λ x m. elim (Bool-cases (has x s.need)) [
        | inl old ↦ h.inside x old
        | inr new ↦ has-row-below adj x t (rw (← row x) (ground (arith, now x)))
      ];
      closed = λ u v m edge. elim (Bool-cases (v == t)) [
        | inl same ↦
            let here_t = (==_iff v t).0 same in
            inl (rw (now u, row u) (ground (arith, rw here_t at edge)))
        | inr other ↦ ground (arith, now u, now v, then_queued v, pending v, h.closed u v)
      ];
    }
      where
        in_need : has t s.need ≡ true
        in_need = h.queued t (rw e (unfold has in ground arith))

        row : (x : ℕ) → has x (targets_of rev t) ≡ has t (targets_of adj x)
        row x = has-build_reverse_graph adj x t (h.inside t in_need)

        s' : Search
        s' = visit_preds (targets_of rev t) (record s { pending = rest })

        now : (x : ℕ) → has x s'.need ≡ (has x s.need || has x (targets_of rev t))
        now x = (has-visit_preds (targets_of rev t) (record s { pending = rest }) x).0

        then_queued :
            (x : ℕ)
            → has x s'.pending ≡ (has x rest || (has x (targets_of rev t) && not (has x s.need)))
        then_queued x = (has-visit_preds (targets_of rev t) (record s { pending = rest }) x).1

        pending : (x : ℕ) → has x s.pending ≡ (x == t || has x rest)
        pending x = rw e (unfold has in refl)

    abbrev work : Search → ℕ
    work s = length s.pending + unseen (length adj) s.need

    -- Once the queue is empty, the set is closed under predecessors.
    all_found :
        (s : Search)
        → Inv s
        → s.pending ≡ []
        → {t : ℕ} → has t targets ≡ true
        → {x : ℕ} → Reaches adj t x
        → has x s.need ≡ true
    all_found s h e m here = h.start _ m
    all_found s h e m (step {u} {v} edge walk) = elim (h.closed u v (all_found s h e m walk) edge) [
      | inl found ↦ found
      | inr waits ↦ absurd (none_waits v waits)
    ]
      where
        none_waits : (w : ℕ) → has w s.pending ≡ true → ⊥
        none_waits w waits = let nothing = rw e at waits in unfold has in cc

    abbrev Finds : Option (List ℕ) → Type 0
    Finds o = (need : List ℕ) × (o ≡ some need) × ((x : ℕ) → (has x need ≡ true) ↔ IsNeeded x)

    stops : (s : Search) → Inv s → s.pending ≡ [] → Finds (some s.need)
    stops s h e = (s.need, refl, λ x. (h.sound x, λ n. all_found s h e n.1 n.2))

    loop-Finds : (fuel : ℕ) (s : Search) → Inv s → work s ≤ fuel → Finds (needed_loop fuel rev s)
    unfolding needed_loop
    loop-Finds zero s h enough = elim (List-cases s.pending) [
      | inl e ↦ rw (e, needed_loop) (stops s h e)
      | inr (t, rest, e) ↦ absurd (omega (arith, ap length e))
    ]
    loop-Finds (suc fuel) s h enough = elim (List-cases s.pending) [
      | inl e ↦ rw (e, needed_loop) (stops s h e)
      | inr (t, rest, e) ↦
          let s' = visit_preds (targets_of rev t) (record s { pending = rest }) in
          let spent =
            visit_preds-work (length adj) (targets_of rev t) (record s { pending = rest })
              (row_below t (h.queued t (rw e (unfold has in ground arith)))) in
          rw (e, needed_loop)
            (loop-Finds fuel s' (visit-Inv t rest s e h) (omega (arith, spent, ap length e)))
    ]
      where
        row_below :
            (t : ℕ)
            → has t s.need ≡ true
            → (x : ℕ) → has x (targets_of rev t) ≡ true
            → x < length adj
        row_below t m x edge =
            has-row-below adj x t (rw (← has-build_reverse_graph adj x t (h.inside t m)) edge)

    -- The search ends within its rounds, with the targets and their ancestors.
    pub compute_needed_nodes_lem :
        (need : List ℕ) × (compute_needed_nodes adj targets ≡ some need)
        × ((x : ℕ) → (has x need ≡ true) ↔ IsNeeded x)
    unfolding compute_needed_nodes
    compute_needed_nodes_lem =
        loop-Finds (length adj + length targets) (record { need = targets; pending = targets })
          (record {
            start = λ x m. m;
            sound = λ x m. (x, m, here);
            queued = λ x m. m;
            inside = on_graph;
            closed = λ u v m edge. inr m;
          })
          (omega (arith, unseen-le (length adj) targets))
