-- ===== src/Scheduler/Graph.antt =====
-- The graph helpers of internal/common/scheduler/HeavierStartScheduler.go: indegrees, the reverse
-- graph, the needed nodes, a topological order and the descendant counts. A node is a natural
-- number and `adj[u]` the list of its dependents; an edge that leaves `0 .. n - 1` is refused by
-- `schedule` before any of these runs, as Go's bounds check does.
pub mod Degrees
pub mod Relax
pub mod Needed
pub mod Ancestors
pub mod Topo
use insightify_core.Prelude.{
  ℕ, zero, suc, ◌+◌, ◌-◌, Bool, true, false, ◌&&◌, Option, none, some, List, [], ◌∷◌, ◌++◌, map,
  length, get_or, set, replicate, ltb, ◌==◌, if◌then◌else◌,
}
use mathlib.Core.List.{reverse}
use insightify_core.Scheduler.Sets.{has, add}

abbrev pub Adjacency : Type 0
Adjacency = List (List ℕ)

abbrev pub targets_of : Adjacency → ℕ → List ℕ
targets_of adj u = get_or adj u []

-- `xs[v]`, of a slice of counts.
abbrev pub at : List ℕ → ℕ → ℕ
at xs v = get_or xs v 0

-- The inner loop of `computeIndegrees`: `indeg[v]++` for each `v` of a row.
unfoldable pub count_row : List ℕ → List ℕ → List ℕ
count_row [] indeg = indeg
count_row (v ∷ vs) indeg = count_row vs (set indeg v (at indeg v + 1))

unfoldable pub count_rows : Adjacency → List ℕ → List ℕ
unfolding count_row
count_rows [] indeg = indeg
count_rows (vs ∷ adj) indeg = count_rows adj (count_row vs indeg)

unfoldable pub compute_indegrees : Adjacency → List ℕ
unfolding count_rows
compute_indegrees adj = count_rows adj (replicate (length adj) 0)

unfoldable pub reverse_row : ℕ → List ℕ → Adjacency → Adjacency
reverse_row u [] rev = rev
reverse_row u (v ∷ vs) rev = reverse_row u vs (set rev v (targets_of rev v ++ (u ∷ [])))

unfoldable pub reverse_rows : ℕ → Adjacency → Adjacency → Adjacency
unfolding reverse_row
reverse_rows u [] rev = rev
reverse_rows u (vs ∷ adj) rev = reverse_rows (suc u) adj (reverse_row u vs rev)

unfoldable pub build_reverse_graph : Adjacency → Adjacency
unfolding reverse_rows
build_reverse_graph adj = reverse_rows 0 adj (replicate (length adj) [])

-- The set `need`, and the part of the queue from `i` on.
pub record Search : Type 0 where
  pub need : List ℕ
  pub pending : List ℕ

unfoldable pub visit : ℕ → Search → Search
visit p s =
    if has p s.need then s else record { need = add p s.need; pending = s.pending ++ (p ∷ []) }

-- The inner loop of `computeNeededNodes`, over the predecessors of one node.
unfoldable pub visit_preds : List ℕ → Search → Search
visit_preds [] s = s
visit_preds (p ∷ ps) s = visit_preds ps (visit p s)

unfoldable pub needed_loop : ℕ → Adjacency → Search → Option (List ℕ)
unfolding visit_preds visit
needed_loop zero rev s = elim s.pending [ [] ↦ some s.need | _ ∷ _ ↦ none ]
needed_loop (suc fuel) rev s = elim s.pending [
  | [] ↦ some s.need
  | t ∷ rest ↦ needed_loop fuel rev (visit_preds (targets_of rev t) (record s { pending = rest }))
]

-- `targets` is a set, so its members are distinct and `need` starts as the same set. Every round
-- takes one node from the queue, and a node enters it once.
unfoldable pub compute_needed_nodes : Adjacency → List ℕ → Option (List ℕ)
unfolding needed_loop build_reverse_graph
compute_needed_nodes adj targets =
    needed_loop (length adj + length targets) (build_reverse_graph adj)
      (record { need = targets; pending = targets })

-- The counts, and what the loop collects: a queue or a set. A count that Go would make negative stays
-- 0 here: the code asks only whether a count has just become 0, which neither does.
pub record Counts : Type 0 where
  pub indeg : List ℕ
  pub found : List ℕ

-- The loop that `toposortAny`, `buildChunkDesc` and `ScheduleHeavierStart` each write out: for every
-- `v` of a row `indeg[v]--`, and if that makes it 0, `promote v`.
unfoldable pub relax : (ℕ → List ℕ → List ℕ) → List ℕ → Counts → Counts
relax promote [] s = s
relax promote (v ∷ vs) s =
    let c = at s.indeg v in
    relax promote vs (record {
      indeg = set s.indeg v (c - 1);
      found = if c == 1 then promote v s.found else s.found;
    })

abbrev pub enqueue : ℕ → List ℕ → List ℕ
enqueue v queue = queue ++ (v ∷ [])

unfoldable pub topo_loop : ℕ → Adjacency → Counts → List ℕ → Option (List ℕ)
unfolding relax
topo_loop zero adj s order = elim s.found [ [] ↦ some order | _ ∷ _ ↦ none ]
topo_loop (suc fuel) adj s order = elim s.found [
  | [] ↦ some order
  | u ∷ rest ↦
      topo_loop fuel adj (relax enqueue (targets_of adj u) (record s { found = rest }))
        (order ++ (u ∷ []))
]

-- The nodes from `u` on whose count is 0.
unfoldable pub zeros_from : ℕ → List ℕ → List ℕ
zeros_from u [] = []
zeros_from u (c ∷ cs) = let rest = zeros_from (suc u) cs in if c == 0 then u ∷ rest else rest

pub data Order : Type 0 where
  sorted : List ℕ → Order
  cycle_detected out_of_fuel : Order

unfoldable pub toposort_any : Adjacency → Order
unfolding topo_loop zeros_from compute_indegrees
toposort_any adj =
    let indeg = compute_indegrees adj in
    elim (topo_loop (length adj) adj (record { indeg = indeg; found = zeros_from 0 indeg }) []) [
      | none ↦ out_of_fuel
      | some order ↦ if length order == length adj then sorted order else cycle_detected
    ]

-- The bit sets of `descendantCounts` as sets of nodes: `b.Or(b, s)` and `b.SetBit(b, u, 1)`.
unfoldable pub union : List ℕ → List ℕ → List ℕ
union b [] = b
union b (x ∷ s) = union (add x b) s

unfoldable pub gather : List ℕ → Adjacency → List ℕ → List ℕ
unfolding union
gather [] sets b = b
gather (u ∷ us) sets b = gather us sets (add u (union b (targets_of sets u)))

-- The loop from the last node of the order to the first: `order` is reversed.
unfoldable pub descendant_sets : Adjacency → List ℕ → Adjacency → Adjacency
unfolding gather
descendant_sets adj [] sets = sets
descendant_sets adj (v ∷ order) sets =
    descendant_sets adj order (set sets v (gather (targets_of adj v) sets []))

pub data Descendants : Type 0 where
  counts : List ℕ → Descendants
  not_a_dag topo_out_of_fuel : Descendants

-- The number of bits set in a node's set is its length: no member stands in it twice.
unfoldable pub descendant_counts : Adjacency → Descendants
unfolding toposort_any descendant_sets
descendant_counts adj = elim (toposort_any adj) [
  | sorted topo ↦
      counts (map length (descendant_sets adj (reverse topo) (replicate (length adj) [])))
  | cycle_detected ↦ not_a_dag
  | out_of_fuel ↦ topo_out_of_fuel
]
