-- ===== src/Scheduler/Run.antt =====
-- The main loop of `ScheduleHeavierStart` in internal/common/scheduler/HeavierStartScheduler.go, and
-- what comes before it. The environment decides in which order the channels of the chunks in flight
-- are closed and whether the context is cancelled: a list of events.
pub mod Receive
pub mod Invariant
pub mod Start
pub mod Safety
pub mod Fuel
use insightify_core.Prelude.{
  ℕ, zero, suc, ◌-◌, Bool, true, false, not, ◌&&◌, Option, none, some, List, [], ◌∷◌, length, ltb,
  ◌==◌, is_empty, if◌then◌else◌,
}
use insightify_core.Scheduler.Sets.{has, is_subset}
use insightify_core.Scheduler.Graph.{
  Adjacency, compute_indegrees, compute_needed_nodes, descendant_counts, counts, not_a_dag,
  topo_out_of_fuel,
}
use insightify_core.Scheduler.Chunk.{Plan}
use insightify_core.Scheduler.Launch.{
  Params, Error, run_is_nil, weight_of_is_nil, adj_is_nil, cap_not_positive, index_out_of_range,
  cycle_detected, deadlock, context_done, out_of_fuel, State, Launch, launched_to, refused,
  try_launch, slots_left, complete,
}

-- What the environment does next: the context is cancelled, or the channel of the chunk that stands
-- at that place among those in flight is closed.
pub data Event : Type 0 where
  cancel : Event
  finish : ℕ → Event

-- `failed` keeps the state in which the error came up; `invalid` is an error before the first launch.
-- `waiting`: the events are used up, and the main loop stands at its `select`.
pub data Outcome : Type 0 where
  finished waiting : State → Outcome
  failed : Error → State → Outcome
  invalid : Error → Outcome

unfoldable pub take_chunk : ℕ → List (List ℕ) → Option (List ℕ × List (List ℕ))
take_chunk k [] = none
take_chunk zero (c ∷ cs) = some (c, cs)
take_chunk (suc k) (c ∷ cs) = elim (take_chunk k cs) [
  | none ↦ none
  | some (d, ds) ↦ some (d, c ∷ ds)
]

module _ (params : Params) (plan : Plan) (n_parallel : ℕ) where
  abbrev pub try_launch_all : State → Launch
  try_launch_all s = try_launch params plan (slots_left params plan n_parallel s) s

  -- The top of the main loop's body: with nothing in flight, launch, or report a deadlock.
  unfoldable pub ensure_inflight : State → Launch
  unfolding try_launch
  ensure_inflight s =
      if is_empty s.inflight
      then elim (try_launch_all s) [
        | refused e t ↦ refused e t
        | launched_to s' ↦ if is_empty s'.inflight then refused deadlock s' else launched_to s'
      ]
      else launched_to s

  -- A completion is received. No chunk stands at a place out of range, so that is no event.
  unfoldable pub receive : ℕ → State → Launch
  unfolding take_chunk complete try_launch
  receive k s = elim (take_chunk k s.inflight) [
    | none ↦ launched_to s
    | some (chunk, rest) ↦
        try_launch_all (complete params plan chunk (record s { inflight = rest }))
  ]

  unfoldable pub main_loop : List ℕ → List Event → State → Outcome
  unfolding ensure_inflight receive
  main_loop targets [] s = elim (is_subset s.completed targets) [
    | true ↦ finished s
    | false ↦ elim (ensure_inflight s) [ refused e t ↦ failed e t | launched_to s' ↦ waiting s' ]
  ]
  main_loop targets (cancel ∷ events) s = elim (is_subset s.completed targets) [
    | true ↦ finished s
    | false ↦ elim (ensure_inflight s) [
      | refused e t ↦ failed e t
      | launched_to s' ↦ failed context_done s'
    ]
  ]
  main_loop targets (finish k ∷ events) s = elim (is_subset s.completed targets) [
    | true ↦ finished s
    | false ↦ elim (ensure_inflight s) [
      | refused e t ↦ failed e t
      | launched_to s' ↦ elim (receive k s') [
        | refused e t ↦ failed e t
        | launched_to s'' ↦ main_loop targets events s''
      ]
    ]
  ]

-- The nodes from `u` on that are needed and wait for nothing.
unfoldable pub initial_ready : List ℕ → ℕ → List ℕ → List ℕ
initial_ready need u [] = []
initial_ready need u (c ∷ cs) =
    let rest = initial_ready need (suc u) cs in if c == 0 && has u need then u ∷ rest else rest

-- Every node of the list is one of the graph.
unfoldable pub all_below : ℕ → List ℕ → Bool
all_below n [] = true
all_below n (v ∷ vs) = ltb v n && all_below n vs

unfoldable pub rows_below : ℕ → Adjacency → Bool
unfolding all_below
rows_below n [] = true
rows_below n (vs ∷ adj) = all_below n vs && rows_below n adj

-- After the checks of the parameters. `computeNeededNodes` indexes the reverse graph by every edge's
-- end and every target, and panics where one is out of range.
unfoldable pub schedule_graph : Params → Adjacency → (ℕ → ℕ) → List Event → Outcome
schedule_graph p adj weight_of events =
    let n_parallel = if p.n_parallel == 0 then 1 else p.n_parallel in
    let indeg = compute_indegrees adj in
    if not (rows_below (length adj) adj && all_below (length adj) p.targets)
    then invalid index_out_of_range
    else elim (compute_needed_nodes adj p.targets) [
      | none ↦ invalid out_of_fuel
      | some need ↦ elim (descendant_counts adj) [
        | not_a_dag ↦ invalid cycle_detected
        | topo_out_of_fuel ↦ invalid out_of_fuel
        | counts desc ↦
            let plan : Plan = record {
              weight_of = weight_of;
              cap_per_chunk = p.cap_per_chunk;
              desc = desc;
              adj = adj;
              need = need;
            } in
            let s : State = record {
              counts = record { indeg = indeg; found = initial_ready need 0 indeg };
              completed = [];
              inflight = [];
              launched = [];
            } in
            elim (try_launch p plan (n_parallel - 0) s) [
              | refused e t ↦ failed e t
              | launched_to s' ↦ main_loop p plan n_parallel p.targets events s'
            ]
      ]
    ]

unfoldable pub schedule_heavier_start : Params → List Event → Outcome
unfolding schedule_graph
schedule_heavier_start p events = elim p.run [
  | none ↦ invalid run_is_nil
  | some _ ↦ elim p.weight_of [
    | none ↦ invalid weight_of_is_nil
    | some weight_of ↦ elim p.adj [
      | none ↦ invalid adj_is_nil
      | some adj ↦
          if p.cap_per_chunk == 0
          then invalid cap_not_positive
          else schedule_graph p adj weight_of events
    ]
  ]
]
