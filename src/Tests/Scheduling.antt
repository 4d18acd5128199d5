-- ===== src/Tests/Scheduling.antt =====
-- The scheduler on small graphs.
use insightify_core.Prelude.{
  ℕ, zero, suc, ◌≤◌, ◌<◌, ◌≡◌, ◌≢◌, refl, ◌↔◌, true, none, some, List, [], ◌∷◌, map, arith,
  if◌then◌else◌, ◌==◌,
}
use insightify_core.Scheduler.Sets.{has, add, remove, is_subset}
use insightify_core.Scheduler.Graph.{
  Adjacency, at, compute_indegrees, compute_needed_nodes, descendant_counts, counts,
}
use insightify_core.Scheduler.Graph.Degrees.{open_degree}
use insightify_core.Scheduler.Graph.Ancestors.{IsNeeded, compute_needed_nodes_lem}
use insightify_core.Scheduler.Chunk.{Plan, Packing, sum_weights, build_chunk_desc}
use insightify_core.Scheduler.Chunk.Capacity.{sum_weights-build_chunk_desc}
use insightify_core.Scheduler.Chunk.Order.{IsReadyToPack, IsCandidate, IsChunk}
use insightify_core.Scheduler.Chunk.Built.{build_chunk_desc-IsChunk}
use insightify_core.Scheduler.Chunk.Maximal.{IsMaximal, build_chunk_desc-IsMaximal}
use insightify_core.Scheduler.Launch.{Params, out_of_fuel}
use insightify_core.Scheduler.Run.Fuel.{schedule_heavier_start-ends}
use insightify_core.Scheduler.Run.{
  finish, Outcome, finished, waiting, failed, invalid, main_loop, initial_ready, rows_below,
  schedule_heavier_start,
}
use insightify_core.Scheduler.Run.Invariant.{Ends}
use insightify_core.Scheduler.Run.Safety.{IsSafe, schedule_heavier_start-IsSafe}
use insightify_core.Scheduler.Run.Start.{all_below-has, rows_below-has}

abbrev chain : Adjacency
chain = (1 ∷ []) ∷ (2 ∷ []) ∷ [] ∷ []

abbrev diamond : Adjacency
diamond = (1 ∷ 2 ∷ []) ∷ (3 ∷ []) ∷ (3 ∷ []) ∷ [] ∷ (3 ∷ []) ∷ []

abbrev params : Adjacency → ℕ → ℕ → Params
params adj cap n = record {
  adj = some adj;
  weight_of = some (λ _. 1);
  targets = 2 ∷ [];
  cap_per_chunk = cap;
  n_parallel = n;
  run = some (λ _. none);
  broker = none;
  reserve_with = none;
}

abbrev launches : Outcome → List (List ℕ)
launches (finished s) = map (λ l. l.chunk) s.launched
launches (waiting s) = map (λ l. l.chunk) s.launched
launches (failed e s) = map (λ l. l.chunk) s.launched
launches (invalid e) = []

program : Unit {0}
unfolding schedule_heavier_start rows_below initial_ready compute_indegrees compute_needed_nodes
    descendant_counts main_loop build_chunk_desc has add remove is_subset sum_weights
program = tt

chain_run :
    launches (schedule_heavier_start (params chain 2 1) (finish 0 ∷ finish 0 ∷ []))
    ≡ (0 ∷ 1 ∷ []) ∷ (2 ∷ []) ∷ []
unfolding program
chain_run = refl

diamond_needed : compute_needed_nodes diamond (2 ∷ []) ≡ some (0 ∷ 2 ∷ [])
unfolding program
diamond_needed = refl

diamond_counts : descendant_counts diamond ≡ counts (3 ∷ 1 ∷ 1 ∷ 0 ∷ 1 ∷ [])
unfolding program
diamond_counts = refl

schedule_heavier_start-IsSafe_example :
    Ends
      (IsSafe chain (λ _. 1) (params chain 2 1))
      (2 ∷ [])
      (schedule_heavier_start (params chain 2 1) (finish 0 ∷ finish 0 ∷ []))
schedule_heavier_start-IsSafe_example =
    schedule_heavier_start-IsSafe (params chain 2 1) chain (λ _. 1) (finish 0 ∷ finish 0 ∷ []) refl
      refl (λ u. omega arith)

abbrev plan : Plan
plan = record {
  weight_of = λ _. 1;
  cap_per_chunk = 2;
  desc = 2 ∷ 1 ∷ 0 ∷ [];
  adj = chain;
  need = 0 ∷ 1 ∷ 2 ∷ [];
}

abbrev indeg : List ℕ
indeg = 0 ∷ 1 ∷ 1 ∷ []

chain_ready : IsReadyToPack chain [] []
unfolding program
chain_ready = record {
  in_range = λ u v. rows_below-has 3 chain u v refl;
  busy_closed = λ u v e m. cc;
}

chain_degrees : (v : ℕ) → v < 3 → at indeg v ≡ open_degree chain [] v
unfolding program
chain_degrees zero h = refl
chain_degrees (suc zero) h = refl
chain_degrees (suc (suc zero)) h = refl
chain_degrees (suc (suc (suc v))) h = absurd (omega arith)

chain_candidates : (x : ℕ) → has x (0 ∷ []) ≡ true → IsCandidate plan [] [] x
unfolding program
chain_candidates zero m = record {
  below = omega arith;
  uncompleted = refl;
  unbusy = refl;
  needed = refl;
  ready = refl;
}
chain_candidates (suc x) m = absurd (ground arith)

build_chunk_desc-IsChunk_example : IsChunk plan [] [] (build_chunk_desc plan [] (0 ∷ []) indeg)
build_chunk_desc-IsChunk_example =
    build_chunk_desc-IsChunk plan [] [] chain_ready (0 ∷ []) indeg refl chain_degrees
      chain_candidates

sum_weights-build_chunk_desc_example :
    sum_weights (λ _. 1) (build_chunk_desc plan [] (0 ∷ []) indeg) ≤ 2
sum_weights-build_chunk_desc_example =
    sum_weights-build_chunk_desc plan [] (λ u. omega arith) (0 ∷ []) indeg

-- The weights 1 and 2 ^ 63 - 1 add up to less than nothing: the capacity does not keep the second out.
wrapped_chunk :
    build_chunk_desc
      (record plan {
        weight_of = λ u. if u == 0 then 1 else 0x7fffffffffffffff;
        cap_per_chunk = 10;
      })
      []
      (0 ∷ [])
      indeg
    ≡ 0 ∷ 1 ∷ 2 ∷ []
unfolding program
wrapped_chunk = refl

abbrev small_plan : Plan
small_plan = record plan { weight_of = λ u. 2; cap_per_chunk = 3 }

small_candidates : (x : ℕ) → has x (0 ∷ []) ≡ true → IsCandidate small_plan [] [] x
unfolding program
small_candidates zero m = record {
  below = omega arith;
  uncompleted = refl;
  unbusy = refl;
  needed = refl;
  ready = refl;
}
small_candidates (suc x) m = absurd (ground arith)

-- Node 0 is alone in the chunk: node 1, which it frees, weighs 2.
alone : build_chunk_desc small_plan [] (0 ∷ []) indeg ≡ 0 ∷ []
unfolding program
alone = refl

build_chunk_desc-IsMaximal_example :
    (last : Packing) × (build_chunk_desc small_plan [] (0 ∷ []) indeg ≡ last.chunk)
    × IsMaximal small_plan [] [] chain_ready (0 ∷ []) indeg refl chain_degrees small_candidates last
build_chunk_desc-IsMaximal_example =
    build_chunk_desc-IsMaximal small_plan [] [] chain_ready (0 ∷ []) indeg refl chain_degrees
      small_candidates (λ u. omega arith) (omega arith)

compute_needed_nodes_example :
    (need : List ℕ) × (compute_needed_nodes chain (1 ∷ []) ≡ some need)
    × ((x : ℕ) → (has x need ≡ true) ↔ IsNeeded chain (1 ∷ []) x)
unfolding program
compute_needed_nodes_example =
    compute_needed_nodes_lem chain (1 ∷ []) (λ u v. rows_below-has 3 chain u v refl)
      (λ t. all_below-has 3 (1 ∷ []) t refl)

schedule_heavier_start-ends_example :
    schedule_heavier_start (params diamond 2 1) (finish 0 ∷ []) ≢ invalid out_of_fuel
schedule_heavier_start-ends_example =
    schedule_heavier_start-ends (params diamond 2 1) (finish 0 ∷ [])
