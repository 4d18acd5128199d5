-- ===== src/Scheduler/Run/Fuel.antt =====
-- The fuel of the graph searches is enough for `ScheduleHeavierStart`.
use insightify_core.Prelude.{
  ℕ, ◌≢◌, Bool, ap, refl, ◌&&◌, true, false, List, [], ◌∷◌, length, ◌==◌, Option-cases, Bool-cases,
  inl, inr, arith,
}
use insightify_core.Scheduler.Sets.{is_subset}
use insightify_core.Scheduler.Graph.{
  Adjacency, descendant_counts, Descendants, counts, not_a_dag, topo_out_of_fuel,
}
use insightify_core.Scheduler.Graph.Topo.{descendant_counts-ends}
use insightify_core.Scheduler.Graph.Ancestors.{compute_needed_nodes_lem}
use insightify_core.Scheduler.Chunk.{Plan}
use insightify_core.Scheduler.Launch.{
  Params, Error, context_done, State, Launch, launched_to, refused, cycle_detected, out_of_fuel,
}
use insightify_core.Scheduler.Run.{
  Event, cancel, finish, Outcome, finished, waiting, failed, invalid, ensure_inflight, receive,
  main_loop, all_below, rows_below, schedule_graph, schedule_heavier_start,
}
use insightify_core.Scheduler.Run.Start.{all_below-has, rows_below-has}

-- The outcome is not that a search has run out of fuel.
abbrev InTime : Outcome → Type 0
InTime (finished s) = Unit
InTime (waiting s) = Unit
InTime (failed e s) = Unit
InTime (invalid e) = e ≢ out_of_fuel

launch-InTime :
    (l : Launch) (next : State → Outcome)
    → ((s : State) → InTime (next s))
    → InTime (elim l [ refused e t ↦ failed e t | launched_to s ↦ next s ])
launch-InTime (refused e t) next h = tt
launch-InTime (launched_to s) next h = h s

test-InTime :
    (b : Bool) (s : State) (o : Outcome)
    → InTime o
    → InTime (elim b [ true ↦ finished s | false ↦ o ])
test-InTime true s o h = tt
test-InTime false s o h = h

module _ (p : Params) (plan : Plan) (n : ℕ) (targets : List ℕ) where
  main_loop-InTime :
      (events : List Event) (s : State) → InTime (main_loop p plan n targets events s)
  unfolding main_loop
  main_loop-InTime [] s =
      test-InTime (is_subset s.completed targets) s _
        (launch-InTime (ensure_inflight p plan n s) waiting (λ t. tt))
  main_loop-InTime (cancel ∷ events) s =
      test-InTime (is_subset s.completed targets) s _
        (launch-InTime (ensure_inflight p plan n s) (failed context_done) (λ t. tt))
  main_loop-InTime (finish k ∷ events) s = test-InTime (is_subset s.completed targets) s _ (
      launch-InTime (ensure_inflight p plan n s)
        (λ t. elim (receive p plan n k t) [
          | refused e q ↦ failed e q
          | launched_to q ↦ main_loop p plan n targets events q
        ])
        (λ t.
          launch-InTime (receive p plan n k t) (main_loop p plan n targets events)
            (main_loop-InTime events)))

descendants-InTime :
    (d : Descendants) (next : List ℕ → Outcome)
    → d ≢ topo_out_of_fuel
    → ((desc : List ℕ) → InTime (next desc))
    → InTime (elim d [
      | not_a_dag ↦ invalid cycle_detected
      | topo_out_of_fuel ↦ invalid out_of_fuel
      | counts desc ↦ next desc
    ])
descendants-InTime (counts desc) next ends h = h desc
descendants-InTime not_a_dag next ends h = λ e. cc
descendants-InTime topo_out_of_fuel next ends h = absurd (ends refl)

schedule_graph-InTime :
    (p : Params) (adj : Adjacency) (weight_of : ℕ → ℕ) (events : List Event)
    → InTime (schedule_graph p adj weight_of events)
unfolding schedule_graph
schedule_graph-InTime p adj weight_of events =
    elim (Bool-cases (rows_below (length adj) adj && all_below (length adj) p.targets)) [
      | inl e ↦
          let (need, found, needed) =
            compute_needed_nodes_lem adj p.targets
              (λ u v. rows_below-has (length adj) adj u v (ground arith))
              (λ t. all_below-has (length adj) p.targets t (ground arith)) in
          rw (e, found, schedule_graph)
            (descendants-InTime (descendant_counts adj) _ (descendant_counts-ends adj)
              (λ desc. launch-InTime _ _ (main_loop-InTime p _ _ p.targets events)))
      | inr e ↦ rw (e, schedule_graph) (λ h. cc)
    ]

abbrev error_of : Error → Outcome → Error
error_of d (invalid e) = e
error_of d o = d

in_time : (o : Outcome) → InTime o → o ≢ invalid out_of_fuel
in_time (finished s) h e = cc
in_time (waiting s) h e = cc
in_time (failed x s) h e = cc
in_time (invalid x) h e = h (ap (error_of x) e)

-- Whatever the parameters and the events are, the scheduler never runs out of fuel: the search for the
-- needed nodes and the topological sort end by themselves.
pub schedule_heavier_start-ends :
    (p : Params) (events : List Event) → schedule_heavier_start p events ≢ invalid out_of_fuel
unfolding schedule_heavier_start
schedule_heavier_start-ends p events =
    in_time (schedule_heavier_start p events) (elim (Option-cases p.run) [
      | inl r ↦ simp (r, schedule_heavier_start) (λ h. cc)
      | inr (run, r) ↦ elim (Option-cases p.weight_of) [
        | inl w ↦ simp (r, w, schedule_heavier_start) (λ h. cc)
        | inr (weight_of, w) ↦ elim (Option-cases p.adj) [
          | inl a ↦ simp (r, w, a, schedule_heavier_start) (λ h. cc)
          | inr (adj, a) ↦
              simp (r, w, a, schedule_heavier_start)
                (elim (Bool-cases (p.cap_per_chunk == 0)) [
                  | inl c ↦ rw c (λ h. cc)
                  | inr c ↦ rw c (schedule_graph-InTime p adj weight_of events)
                ])
        ]
      ]
    ])
