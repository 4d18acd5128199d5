-- ===== src/Scheduler/Chunk.antt =====
-- `buildChunkDesc` of internal/common/scheduler/HeavierStartScheduler.go.
pub mod Capacity
pub mod Order
pub mod Members
pub mod Built
pub mod Maximal
use insightify_core.Prelude.{
  ℕ, zero, suc, ◌+◌, ◌%◌, Bool, not, Option, none, some, List, [], ◌∷◌, ◌++◌, ltb, length, ◌==◌,
  if◌then◌else◌,
}
use insightify_core.Scheduler.Sets.{has, add, remove}
use insightify_core.Scheduler.Graph.{Adjacency, targets_of, at, Counts, relax}

-- Go's `int` of 64 bits, as a number below 2 ^ 64 in two's complement: a sum wraps around, and a comparison
-- looks at the sign.
unfoldable pub add_int : ℕ → ℕ → ℕ
add_int m n = (m + n) % 0x10000000000000000

unfoldable pub less_int : ℕ → ℕ → Bool
less_int m n =
    ltb ((m + 0x8000000000000000) % 0x10000000000000000)
      ((n + 0x8000000000000000) % 0x10000000000000000)

-- The comparison of `sort.SliceStable`: more descendants, then less weight, then the smaller id.
unfoldable pub before : (ℕ → ℕ) → List ℕ → ℕ → ℕ → Bool
unfolding less_int
before weight_of desc i j =
    if at desc i == at desc j
    then (if weight_of i == weight_of j then ltb i j else less_int (weight_of i) (weight_of j))
    else ltb (at desc j) (at desc i)

-- A stable sort: an element goes behind those of the rest that come before it.
unfoldable pub insert_by : (ℕ → ℕ → Bool) → ℕ → List ℕ → List ℕ
insert_by less i [] = i ∷ []
insert_by less i (j ∷ order) =
    let rest = insert_by less i order in if less j i then j ∷ rest else i ∷ j ∷ order

unfoldable pub sort_by : (ℕ → ℕ → Bool) → List ℕ → List ℕ
unfolding insert_by
sort_by less [] = []
sort_by less (i ∷ xs) = insert_by less i (sort_by less xs)

-- What `ScheduleHeavierStart` computes once and every chunk is built from.
pub record Plan : Type 0 where
  pub weight_of : ℕ → ℕ
  pub cap_per_chunk : ℕ
  pub desc : List ℕ
  pub adj : Adjacency
  pub need : List ℕ

-- The variables of the loop: the simulated counts with the set `ready`, the chunk, its weight, and
-- the set of its members.
pub record Packing : Type 0 where
  pub counts : Counts
  pub chunk : List ℕ
  pub total : ℕ
  pub in_chunk : List ℕ

unfoldable pub sum_weights : (ℕ → ℕ) → List ℕ → ℕ
sum_weights weight_of [] = 0
sum_weights weight_of (u ∷ us) = weight_of u + sum_weights weight_of us

-- The first node of the order that still fits.
unfoldable pub first_fit : (ℕ → ℕ) → ℕ → ℕ → List ℕ → Option ℕ
unfolding add_int less_int
first_fit weight_of cap total [] = none
first_fit weight_of cap total (u ∷ order) =
    let rest = first_fit weight_of cap total order in
    if less_int cap (add_int total (weight_of u)) then rest else some u

unfoldable pub add_all : List ℕ → List ℕ → List ℕ
add_all [] s = s
add_all (u ∷ us) s = add_all us (add u s)

module _ (plan : Plan) (completed : List ℕ) where
  open plan use {weight_of, cap_per_chunk, desc, adj, need}

  -- A dependent whose simulated count has become 0 is made ready, unless one of the guards holds.
  unfoldable pub look_ahead : List ℕ → ℕ → List ℕ → List ℕ
  look_ahead in_chunk v ready =
      if has v completed
      then ready
      else (if not (has v need)
          then ready
          else (if has v in_chunk then ready else (if has v ready then ready else v ∷ ready)))

  unfoldable pub admit : ℕ → Packing → Packing
  unfolding look_ahead relax add_int
  admit u p =
      let in_chunk = add u p.in_chunk in
      record {
        counts =
            relax (look_ahead in_chunk) (targets_of adj u)
              (record { indeg = p.counts.indeg; found = remove u p.counts.found });
        chunk = p.chunk ++ (u ∷ []);
        total = add_int p.total (weight_of u);
        in_chunk = in_chunk;
      }

  -- One round of the `for` loop: the node that it adds, if any.
  unfoldable pub choose : Packing → Option ℕ
  unfolding first_fit sort_by before
  choose p =
      first_fit weight_of cap_per_chunk p.total (sort_by (before weight_of desc) p.counts.found)

  -- The loop ends when no ready node fits, the empty set included. Should the fuel be used up before, the
  -- packing so far is returned; it never is, by `build_chunk_desc-IsMaximal`.
  unfoldable pub pack : ℕ → Packing → Packing
  unfolding choose admit
  pack zero p = p
  pack (suc fuel) p = elim (choose p) [ none ↦ p | some u ↦ pack fuel (admit u p) ]

  unfoldable pub packing : List ℕ → List ℕ → Packing
  unfolding add_all
  packing cands indeg = record {
    counts = record { indeg = indeg; found = add_all cands [] };
    chunk = [];
    total = 0;
    in_chunk = [];
  }

  -- Every round admits another node of the graph, so `length adj` rounds are enough.
  unfoldable pub build_chunk_desc : List ℕ → List ℕ → List ℕ
  unfolding pack packing
  build_chunk_desc cands indeg =
      if cap_per_chunk == 0 then [] else (pack (length adj) (packing cands indeg)).chunk
