-- ===== src/Scheduler/Launch.antt =====
-- `tryLaunch` and the bookkeeping of a finished chunk, in `ScheduleHeavierStart` of
-- internal/common/scheduler/HeavierStartScheduler.go, with the reservation policies of policy.go. The
-- callbacks are functions of the chunk: `none` is a nil error.
pub mod InFlight
pub mod Sound
pub mod Completion
use insightify_core.Prelude.{
  ℕ, zero, suc, ◌+◌, ◌-◌, Bool, true, false, not, ◌&&◌, Option, none, some, List, [], ◌∷◌, ◌++◌,
  length, ltb, ◌==◌, is_empty, if◌then◌else◌,
}
use insightify_core.Prelude.Text.{Text}
use insightify_core.Scheduler.Sets.{has, add, remove, is_subset}
use insightify_core.Scheduler.Graph.{
  Adjacency, targets_of, at, Counts, relax, compute_indegrees, compute_needed_nodes,
  descendant_counts, counts, not_a_dag, topo_out_of_fuel,
}
use insightify_core.Scheduler.Chunk.{Plan, build_chunk_desc, add_int, less_int}

-- `Broker` and `ReserveWith` are optional; a reservation of 0 is none.
pub record Params : Type 0 where
  pub adj : Option Adjacency
  pub weight_of : Option (ℕ → ℕ)
  pub targets : List ℕ
  pub cap_per_chunk : ℕ
  pub n_parallel : ℕ
  pub run : Option (List ℕ → Option Text)
  pub broker : Option (List ℕ → ℕ → Option Text)
  pub reserve_with : Option (List ℕ → ℕ)

pub data Error : Type 0 where
  run_is_nil weight_of_is_nil adj_is_nil cap_not_positive index_out_of_range : Error
  cycle_detected deadlock context_done out_of_fuel : Error
  exceeds_capacity : List ℕ → Error
  callback : Text → Error

-- A call of `Run` that returned no error: the chunk, and the nodes that were completed by then.
pub record Launched : Type 0 where
  pub chunk : List ℕ
  pub done : List ℕ

-- The variables of the scheduler. `counts.found` is the set `ready`, and `inflight` holds the chunks
-- of the goroutines that wait; the counter of that name is its length. `launched` is a log.
pub record State : Type 0 where
  pub counts : Counts
  pub completed : List ℕ
  pub inflight : List (List ℕ)
  pub launched : List Launched

pub data Launch : Type 0 where
  launched_to : State → Launch
  refused : Error → State → Launch

-- The candidates: ready and not completed.
unfoldable pub candidates : List ℕ → List ℕ → List ℕ
candidates completed [] = []
candidates completed (u ∷ ready) =
    let rest = candidates completed ready in if has u completed then rest else u ∷ rest

unfoldable pub heavier_than : (ℕ → ℕ) → ℕ → List ℕ → List ℕ
unfolding less_int
heavier_than weight_of cap [] = []
heavier_than weight_of cap (u ∷ us) =
    let rest = heavier_than weight_of cap us in
    if less_int cap (weight_of u) then u ∷ rest else rest

unfoldable pub remove_all : List ℕ → List ℕ → List ℕ
remove_all [] s = s
remove_all (u ∷ us) s = remove_all us (remove u s)

-- `FixedPermits` and `WeightedPermits`.
unfoldable pub fixed_permits : ℕ → List ℕ → ℕ
unfolding less_int
fixed_permits n chunk = if less_int n 0 then 0 else n

unfoldable pub add_weights : (ℕ → ℕ) → ℕ → List ℕ → ℕ
unfolding add_int
add_weights weight_of sum [] = sum
add_weights weight_of sum (u ∷ us) = add_weights weight_of (add_int sum (weight_of u)) us

unfoldable pub weighted_permits : Option (ℕ → ℕ) → List ℕ → ℕ
unfolding add_weights
weighted_permits none chunk = 0
weighted_permits (some weight_of) chunk = add_weights weight_of 0 chunk

-- The reservation of one launch: the error of the broker, if there is one to ask.
unfoldable pub reserve :
    Option (List ℕ → ℕ → Option Text) → Option (List ℕ → ℕ) → List ℕ → Option Text
unfolding less_int
reserve none policy chunk = none
reserve (some broker) none chunk = none
reserve (some broker) (some policy) chunk =
    let want = policy chunk in if less_int 0 want then broker chunk want else none

-- Reserve, then run.
unfoldable pub start : Params → List ℕ → Option Text
unfolding reserve
start p chunk = elim (reserve p.broker p.reserve_with chunk) [
  | some e ↦ some e
  | none ↦ elim p.run [ none ↦ none | some run ↦ run chunk ]
]

module _ (params : Params) (plan : Plan) where
  -- One round of the loop in `tryLaunch` over a chunk that is not empty.
  unfoldable pub launch : List ℕ → State → State
  unfolding remove_all
  launch chunk s = record {
    counts = record { indeg = s.counts.indeg; found = remove_all chunk s.counts.found };
    completed = s.completed;
    inflight = s.inflight ++ (chunk ∷ []);
    launched = s.launched ++ (record { chunk = chunk; done = s.completed } ∷ []);
  }

  -- `slots` is `nParallel - inflight`, which falls by one with each launch.
  unfoldable pub try_launch : ℕ → State → Launch
  unfolding launch candidates heavier_than start
  try_launch zero s = launched_to s
  try_launch (suc slots) s =
      let cands = candidates s.completed s.counts.found in
      let chunk = build_chunk_desc plan s.completed cands s.counts.indeg in
      let heavy = heavier_than plan.weight_of plan.cap_per_chunk cands in
      let next = try_launch slots (launch chunk s) in
      if is_empty cands
      then launched_to s
      else (if is_empty chunk
          then (if is_empty heavy then launched_to s else refused (exceeds_capacity heavy) s)
          else elim (start params chunk) [ some e ↦ refused (callback e) s | none ↦ next ])

  abbrev pub slots_left : ℕ → State → ℕ
  slots_left n_parallel s = n_parallel - length s.inflight

  -- A dependent whose count has become 0 is ready, if it is needed and not completed.
  unfoldable pub promote_ready : List ℕ → ℕ → List ℕ → List ℕ
  promote_ready completed v ready =
      if has v plan.need && not (has v completed) then add v ready else ready

  -- The loop over the nodes of a chunk that has finished.
  unfoldable pub complete : List ℕ → State → State
  unfolding promote_ready relax
  complete [] s = s
  complete (u ∷ chunk) s =
      let completed = add u s.completed in
      complete chunk (
        if has u s.completed then s else record s {
          counts = relax (promote_ready completed) (targets_of plan.adj u) s.counts;
          completed = completed;
        })
