-- ===== src/Scheduler/Graph/Topo.antt =====
-- `toposortAny` ends: what is in the queue and the nodes with a positive count are together fewer after
-- each round.
use insightify_core.Prelude.{
  ℕ, zero, suc, ◌+◌, ◌-◌, ◌≤◌, ◌≡◌, ◌≢◌, refl, ap, some, none, Option, ◌⊎◌, List, [], ◌∷◌, ◌++◌,
  length, length-append, set, ◌==◌, List-cases, Bool-cases, if◌then◌else◌, inl, inr, arith,
}
use insightify_core.Scheduler.Graph.{
  Adjacency, at, targets_of, Counts, relax, enqueue, topo_loop, zeros_from, compute_indegrees,
  toposort_any, Order, descendant_counts, topo_out_of_fuel, out_of_fuel, sorted, cycle_detected,
}
use insightify_core.Scheduler.Graph.Degrees.{length-compute_indegrees}

pub positives : List ℕ → ℕ
positives [] = 0
positives (c ∷ cs) = (if c == 0 then 0 else 1) + positives cs

positives-set :
    (cs : List ℕ) (v : ℕ)
    → positives (set cs v (at cs v - 1)) + (if at cs v == 1 then 1 else 0) ≡ positives cs
unfolding positives at
positives-set [] v = ground arith
positives-set (c ∷ cs) zero = ground arith
positives-set (c ∷ cs) (suc v) = ground (arith, positives-set cs v)

relax-potential :
    (vs : List ℕ) (s : Counts)
    → length (relax enqueue vs s).found + positives (relax enqueue vs s).indeg
      ≡ length s.found + positives s.indeg
unfolding relax
relax-potential [] s = refl
relax-potential (v ∷ vs) s =
    let next : Counts = record {
      indeg = set s.indeg v (at s.indeg v - 1);
      found = if at s.indeg v == 1 then enqueue v s.found else s.found;
    } in
    ground (arith, relax-potential vs next, positives-set s.indeg v, length-append s.found (v ∷ []))

topo_loop-ends :
    (fuel : ℕ) (adj : Adjacency) (s : Counts) (order : List ℕ)
    → length s.found + positives s.indeg ≤ fuel
    → topo_loop fuel adj s order ≢ none
unfolding topo_loop
topo_loop-ends zero adj s order enough = elim (List-cases s.found) [
  | inl e ↦ simp (e, topo_loop) (λ h. cc)
  | inr (u, rest, e) ↦ absurd (omega (arith, ap length e))
]
topo_loop-ends (suc fuel) adj s order enough = elim (List-cases s.found) [
  | inl e ↦ simp (e, topo_loop) (λ h. cc)
  | inr (u, rest, e) ↦
      let left : Counts = record s { found = rest } in
      simp (e, topo_loop)
        (topo_loop-ends fuel adj (relax enqueue (targets_of adj u) left) (order ++ (u ∷ []))
          (omega (arith, ap length e, relax-potential (targets_of adj u) left)))
]

zeros_from-positives : (k : ℕ) (cs : List ℕ) → length (zeros_from k cs) + positives cs ≡ length cs
unfolding positives zeros_from
zeros_from-positives k [] = refl
zeros_from-positives k (c ∷ cs) = ground (arith, zeros_from-positives (suc k) cs)

ended :
    (n : ℕ) (o : Option (List ℕ))
    → o ≢ none
    → (elim o [
      | none ↦ out_of_fuel
      | some order ↦ if length order == n then sorted order else cycle_detected
    ])
      ≢ out_of_fuel
ended n none h = λ e. h refl
ended n (some order) h = elim (Bool-cases (length order == n)) [
  | inl b ↦ rw b (λ e. cc)
  | inr b ↦ rw b (λ e. cc)
]

-- The topological sort ends within its fuel, on every graph.
pub toposort_any-ends : (adj : Adjacency) → toposort_any adj ≢ out_of_fuel
unfolding toposort_any
toposort_any-ends adj =
    let start : Counts = record {
      indeg = compute_indegrees adj;
      found = zeros_from 0 (compute_indegrees adj);
    } in
    let enough : length start.found + positives start.indeg ≤ length adj =
      omega (arith, zeros_from-positives 0 (compute_indegrees adj), length-compute_indegrees adj) in
    ended (length adj) (topo_loop (length adj) adj start [])
      (topo_loop-ends (length adj) adj start [] enough)

Order-cases :
    (o : Order) → o ≢ out_of_fuel → (o ≡ cycle_detected) ⊎ ((order : List ℕ) × (o ≡ sorted order))
Order-cases (sorted order) h = inr (order, refl)
Order-cases cycle_detected h = inl refl
Order-cases out_of_fuel h = absurd (h refl)

pub descendant_counts-ends : (adj : Adjacency) → descendant_counts adj ≢ topo_out_of_fuel
unfolding descendant_counts
descendant_counts-ends adj = elim (Order-cases (toposort_any adj) (toposort_any-ends adj)) [
  | inl e ↦ rw (e, descendant_counts) (λ h. cc)
  | inr (order, e) ↦ rw (e, descendant_counts) (λ h. cc)
]
