-- ===== src/Scheduler/Launch/Completion.antt =====
-- The loop over the nodes of a finished chunk keeps the invariant of the scheduler.
use insightify_core.Prelude.{
  ℕ, ◌+◌, ◌≤◌, ◌<◌, ◌≡◌, ◌∙◌, ◌⊎◌, inl, inr, true, false, ◌||◌, List, [], ◌∷◌, length, Bool-cases,
  ◌==◌, arith,
}
use insightify_core.Scheduler.Sets.{has, add, has-add, has-append}
use insightify_core.Scheduler.Graph.{targets_of, at, Counts, relax}
use insightify_core.Scheduler.Graph.Degrees.{
  open_degree, open_degree-close, open_degree-ext, occurrences,
}
use insightify_core.Scheduler.Graph.Relax.{at-relax, length-relax, relax-rule}
use insightify_core.Scheduler.Chunk.{Plan}
use insightify_core.Scheduler.Chunk.Order.{IsCandidate}
use insightify_core.Scheduler.Launch.{Params, State, promote_ready, complete}
use insightify_core.Scheduler.Launch.InFlight.{All-map, flat, IsClosed, flat-IsClosed}
use insightify_core.Scheduler.Launch.Sound.{IsSound, InRange}

module _ (params : Params) (plan : Plan) (n_parallel : ℕ) (in_range : InRange plan.adj) where
  open plan use {adj, need}

  module _ (u : ℕ) (rest : List ℕ) (s : State) (h : IsSound plan n_parallel (u ∷ rest) s)
      (below : u < length adj) where
    abbrev done : List ℕ
    done = add u s.completed

    abbrev relaxing : Counts
    relaxing = relax (promote_ready params plan done) (targets_of adj u) s.counts

    -- The state when `u` is marked as completed.
    abbrev marked : State
    marked = record s { counts = relaxing; completed = done }

    new : has u s.completed ≡ false
    unfolding has
    new = ground (arith, h.undone u)

    has-done : (x : ℕ) → has x done ≡ has x (u ∷ s.completed)
    unfolding has
    has-done x = has-add x u s.completed

    degree-done :
        (v : ℕ)
        → open_degree adj done v + occurrences v (targets_of adj u) ≡ open_degree adj s.completed v
    degree-done v =
        rw (open_degree-ext adj done (u ∷ s.completed) v has-done)
          (open_degree-close adj s.completed u v below new)

    -- A candidate that is not `u` is one still.
    still-IsCandidate :
        (x : ℕ)
        → x == u ≡ false
        → IsCandidate plan s.completed (flat s.inflight) x
        → IsCandidate plan done (flat s.inflight) x
    still-IsCandidate x other k = record {
      below = k.below;
      uncompleted = rw (has-add x u s.completed, other) k.uncompleted;
      unbusy = k.unbusy;
      needed = k.needed;
      ready = omega (arith, degree-done x, k.ready);
    }

    -- So is a dependent that `u` was the last to hold back.
    newly-IsCandidate :
        (x : ℕ)
        → has x (targets_of adj u) ≡ true
        → at s.counts.indeg x ≤ occurrences x (targets_of adj u)
        → has x need ≡ true
        → has x done ≡ false
        → IsCandidate plan done (flat s.inflight) x
    unfolding has
    newly-IsCandidate x edge last wanted fresh = record {
      below = in_range u x edge;
      uncompleted = fresh;
      unbusy =
          ground
            (arith, flat-IsClosed adj s.completed s.inflight h.closed u x edge, h.apart u, new);
      needed = wanted;
      ready = omega (arith, degree-done x, h.degrees x (in_range u x edge), last);
    }

    abbrev Waits : ℕ → Type 0
    Waits x = ((has x done || has x rest) ≡ true) ⊎ IsCandidate plan done (flat s.inflight) x

    has-promote_ready :
        (v x : ℕ) (found : List ℕ)
        → has x (promote_ready params plan done v found) ≡ true
        → (has x found ≡ true) ⊎ ((x ≡ v) × (has v need ≡ true) × (has v done ≡ false))
    unfolding promote_ready
    has-promote_ready v x found m = ground (arith, has-add x v found)

    Waits-still : (x : ℕ) → has x s.counts.found ≡ true → Waits x
    unfolding has
    Waits-still x m = elim (Bool-cases (x == u)) [
      | inl e ↦ inl (ground (arith, has-add x u s.completed))
      | inr e ↦ elim (h.ready x m) [
        | inl d ↦ inl (ground (arith, has-add x u s.completed))
        | inr k ↦ inr (still-IsCandidate x e k)
      ]
    ]

    marked-ready : (x : ℕ) → has x relaxing.found ≡ true → Waits x
    marked-ready =
        relax-rule (λ found. (x : ℕ) → has x found ≡ true → Waits x)
          (promote_ready params plan done) (targets_of adj u) s.counts
          (λ v found edge _ last ih x m. elim (has-promote_ready v x found m) [
            | inl old ↦ ih x old
            | inr (same, wanted, fresh) ↦ rw same (inr (newly-IsCandidate v edge last wanted fresh))
          ])
          Waits-still

    mark-IsSound : IsSound plan n_parallel rest marked
    unfolding has
    mark-IsSound = record {
      size = length-relax (promote_ready params plan done) (targets_of adj u) s.counts ∙ h.size;
      degrees = λ v b. omega (
        arith,
        degree-done v,
        h.degrees v b,
        h.size,
        at-relax (promote_ready params plan done) (targets_of adj u) s.counts v
            (omega (arith, h.size)),
      );
      ready = marked-ready;
      closed =
          All-map (IsClosed adj s.completed) (IsClosed adj done) s.inflight
            (λ c k a b e m. ground (arith, k a b e m, has-add a u s.completed)) h.closed;
      flying = h.flying;
      landing = h.landing.1;
      apart = λ x m. ground (arith, h.apart x);
      undone = λ x m. ground (
        arith,
        h.undone x,
        has-add x u s.completed,
        h.landing,
        has-append x rest (flat s.inflight),
        h.apart x,
      );
      within = h.within;
      bounded = h.bounded;
      once = h.once;
      all_launched = λ x.
          ground
            (arith, h.all_launched x, has-add x u s.completed, has-append x rest (flat s.inflight));
      fit = h.fit;
    }

  -- When every node of the chunk is marked, the state is sound with nothing left to mark.
  pub complete-IsSound :
      (chunk : List ℕ) (s : State)
      → IsSound plan n_parallel chunk s
      → ((x : ℕ) → has x chunk ≡ true → x < length adj)
      → IsSound plan n_parallel [] (complete params plan chunk s)
  unfolding complete has
  complete-IsSound [] s h below = h
  complete-IsSound (u ∷ chunk) s h below = rw (new u chunk s h (below u (ground arith))) (
      complete-IsSound chunk (marked u chunk s h (below u (ground arith)))
        (mark-IsSound u chunk s h (below u (ground arith))) (λ x m. below x (ground arith)))
