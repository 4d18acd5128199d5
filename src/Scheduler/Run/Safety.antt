-- ===== src/Scheduler/Run/Safety.antt =====
-- The safety of `ScheduleHeavierStart`, in terms of its parameters.
use insightify_core.Prelude.{
  ℕ, ◌-◌, ◌≤◌, ◌<◌, ◌≡◌, refl, inl, inr, true, ◌&&◌, ◌||◌, some, List, [], length, Bool-cases,
  Option-cases, ◌==◌, if◌then◌else◌, arith,
}
use insightify_core.Scheduler.Sets.{has, Distinct}
use insightify_core.Scheduler.Graph.{
  Adjacency, compute_indegrees, descendant_counts, Descendants, counts, not_a_dag, topo_out_of_fuel,
}
use insightify_core.Scheduler.Graph.Degrees.{at-compute_indegrees, length-compute_indegrees}
use insightify_core.Scheduler.Graph.Ancestors.{IsNeeded, compute_needed_nodes_lem}
use insightify_core.Scheduler.Chunk.{Plan, sum_weights}
use insightify_core.Scheduler.Chunk.Capacity.{InRangeOfInt}
use insightify_core.Scheduler.Chunk.Order.{InOrder, IsCandidate}
use insightify_core.Scheduler.Launch.{
  Params, State, Launched, launched_to, refused, try_launch, cycle_detected, out_of_fuel,
}
use insightify_core.Scheduler.Launch.InFlight.{All, All-map, flat}
use insightify_core.Scheduler.Launch.Sound.{IsSound, InRange, IsFit, chunks, try_launch-IsSound}
use insightify_core.Scheduler.Run.{
  Event, Outcome, finished, waiting, failed, invalid, main_loop, initial_ready, all_below,
  rows_below, schedule_graph, schedule_heavier_start,
}
use insightify_core.Scheduler.Run.Invariant.{Ends, Ends-launch, main_loop-IsSound}
use insightify_core.Scheduler.Run.Start.{all_below-has, rows_below-has, has-initial_ready}

-- A launch as the caller sees it: it weighs no more than the capacity, runs targets and their
-- ancestors alone, and runs each node after its predecessors, those completed by then aside.
pub record IsProper (adj : Adjacency) (weight_of : ℕ → ℕ) (p : Params) (l : Launched) : Type 0 where
  pub light : sum_weights weight_of l.chunk ≤ p.cap_per_chunk
  pub in_order : InOrder adj l.done l.chunk
  pub wanted : (x : ℕ) → has x l.chunk ≡ true → IsNeeded adj p.targets x

-- Every launch is proper, no node is launched twice, what was launched is completed or in flight, and
-- no more chunks are in flight than allowed (one, if the bound given is 0).
pub record IsSafe (adj : Adjacency) (weight_of : ℕ → ℕ) (p : Params) (s : State) : Type 0 where
  pub proper : All (IsProper adj weight_of p) s.launched
  pub once : Distinct (flat (chunks s.launched))
  pub accounted :
      (x : ℕ) → has x (flat (chunks s.launched)) ≡ (has x s.completed || has x (flat s.inflight))
  pub bounded : length s.inflight ≤ (if p.n_parallel == 0 then 1 else p.n_parallel)

Ends-map :
    (P Q : State → Type 0) (targets : List ℕ) (o : Outcome)
    → ((s : State) → P s → Q s)
    → Ends P targets o
    → Ends Q targets o
Ends-map P Q targets (finished s) f h = (f s h.0, h.1)
Ends-map P Q targets (waiting s) f h = f s h
Ends-map P Q targets (failed e s) f h = f s h
Ends-map P Q targets (invalid e) f h = tt

Ends-descendants :
    (P : State → Type 0) (targets : List ℕ) (d : Descendants) (next : List ℕ → Outcome)
    → ((desc : List ℕ) → Ends P targets (next desc))
    → Ends P targets (elim d [
      | not_a_dag ↦ invalid cycle_detected
      | topo_out_of_fuel ↦ invalid out_of_fuel
      | counts desc ↦ next desc
    ])
Ends-descendants P targets (counts desc) next h = h desc
Ends-descendants P targets not_a_dag next h = tt
Ends-descendants P targets topo_out_of_fuel next h = tt

module _ (p : Params) (adj : Adjacency) (weight_of : ℕ → ℕ)
    (small : InRangeOfInt weight_of p.cap_per_chunk) where
  abbrev parallel : ℕ
  parallel = if p.n_parallel == 0 then 1 else p.n_parallel

  abbrev plan_of : List ℕ → List ℕ → Plan
  plan_of need desc = record {
    weight_of = weight_of;
    cap_per_chunk = p.cap_per_chunk;
    desc = desc;
    adj = adj;
    need = need;
  }

  abbrev first_state : List ℕ → State
  first_state need = record {
    counts = record {
      indeg = compute_indegrees adj;
      found = initial_ready need 0 (compute_indegrees adj);
    };
    completed = [];
    inflight = [];
    launched = [];
  }

  module _ (need desc : List ℕ) (in_range : InRange adj) where
    first_state-IsSound : IsSound (plan_of need desc) parallel [] (first_state need)
    unfolding has
    first_state-IsSound = record {
      size = length-compute_indegrees adj;
      degrees = at-compute_indegrees adj;
      ready = λ x m. inr (first x m);
      closed = tt;
      flying = tt;
      landing = tt;
      apart = λ x m. refl;
      undone = λ x m. refl;
      within = λ x m. cc;
      bounded = omega arith;
      once = tt;
      all_launched = λ x. refl;
      fit = tt;
    }
      where
        first :
            (x : ℕ)
            → has x (initial_ready need 0 (compute_indegrees adj)) ≡ true
            → IsCandidate (plan_of need desc) [] [] x
        first x m =
            let (j, place, inside, zero_count, wanted) =
              has-initial_ready need 0 x (compute_indegrees adj) m in
            let same : j ≡ x = omega arith in
            let below : x < length adj = omega (arith, length-compute_indegrees adj) in
            record {
              below = below;
              uncompleted = refl;
              unbusy = refl;
              needed = wanted;
              ready = omega (arith, at-compute_indegrees adj x below, rw same at zero_count);
            }

    -- What is sound is safe, if `need` is what the search finds.
    sound-IsSafe :
        ((x : ℕ) → has x need ≡ true → IsNeeded adj p.targets x)
        → (s : State) → IsSound (plan_of need desc) parallel [] s
        → IsSafe adj weight_of p s
    sound-IsSafe found s h = record {
      proper =
          All-map (IsFit (plan_of need desc)) (IsProper adj weight_of p) s.launched
            (λ l f. record {
              light = f.light small;
              in_order = f.in_order;
              wanted = λ x m. found x (f.wanted x m);
            })
            h.fit;
      once = h.once;
      accounted = h.all_launched;
      bounded = h.bounded;
    }

    -- From the first launch on.
    run_on-IsSafe :
        (events : List Event)
        → ((x : ℕ) → has x need ≡ true → IsNeeded adj p.targets x)
        → Ends
            (IsSafe adj weight_of p)
            p.targets
            (elim (try_launch p (plan_of need desc) (parallel - 0) (first_state need)) [
              | refused e t ↦ failed e t
              | launched_to t ↦ main_loop p (plan_of need desc) parallel p.targets events t
            ])
    run_on-IsSafe events found =
        let P = IsSound (plan_of need desc) parallel [] in
        let o = try_launch p (plan_of need desc) (parallel - 0) (first_state need) in
        Ends-map P (IsSafe adj weight_of p) p.targets _ (sound-IsSafe found) (
          Ends-launch P p.targets o (main_loop p (plan_of need desc) parallel p.targets events)
            (try_launch-IsSound p (plan_of need desc) parallel in_range (parallel - 0)
              (first_state need) first_state-IsSound (omega arith))
            (main_loop-IsSound p (plan_of need desc) parallel in_range p.targets events))

  schedule_graph-IsSafe :
      (events : List Event)
      → Ends (IsSafe adj weight_of p) p.targets (schedule_graph p adj weight_of events)
  unfolding schedule_graph
  schedule_graph-IsSafe events =
      elim (Bool-cases (rows_below (length adj) adj && all_below (length adj) p.targets)) [
        | inl e ↦
            let in_range : InRange adj =
              λ u v. rows_below-has (length adj) adj u v (ground arith) in
            let (need, found, needed) =
              compute_needed_nodes_lem adj p.targets in_range
                (λ t. all_below-has (length adj) p.targets t (ground arith)) in
            rw (e, found, schedule_graph)
              (Ends-descendants (IsSafe adj weight_of p) p.targets (descendant_counts adj) _
                (λ desc. run_on-IsSafe need desc in_range events (λ x. (needed x).0)))
        | inr e ↦ rw (e, schedule_graph) tt
      ]

-- Whatever the graph, the callbacks and the events are, if no weight is negative and the capacity and any weight
-- add up to less than 2 ^ 63, the state in which a run ends, fails or
-- waits is safe: every launch is proper (it weighs no more than the capacity, holds targets and
-- their ancestors alone, and each node comes after its predecessors, those completed by then aside),
-- no node is launched twice, the launched nodes are those completed or in flight, and no more chunks
-- are in flight than allowed. A run that finishes has completed all targets.
pub schedule_heavier_start-IsSafe :
    (p : Params) (adj : Adjacency) (weight_of : ℕ → ℕ) (events : List Event)
    → p.adj ≡ some adj
    → p.weight_of ≡ some weight_of
    → InRangeOfInt weight_of p.cap_per_chunk
    → Ends (IsSafe adj weight_of p) p.targets (schedule_heavier_start p events)
unfolding schedule_heavier_start
schedule_heavier_start-IsSafe p adj weight_of events a w small = elim (Option-cases p.run) [
  | inl e ↦ simp (e, schedule_heavier_start) tt
  | inr (run, e) ↦
      simp (e, w, a, schedule_heavier_start)
        (elim (Bool-cases (p.cap_per_chunk == 0)) [
          | inl zero_cap ↦ rw zero_cap tt
          | inr positive ↦ rw positive (schedule_graph-IsSafe p adj weight_of small events)
        ])
]
