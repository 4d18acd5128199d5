-- ===== src/Scheduler/Graph/Degrees.antt =====
-- What the counts of indegrees count.
use insightify_core.Prelude.{
  ℕ, zero, suc, ◌+◌, ◌<◌, ◌≡◌, refl, true, false, List, [], ◌∷◌, ◌∙◌, inl, inr, ==_iff, length, set,
  replicate, length-set, length-replicate, get_or-set_self, get_or-set_ne, get_or-replicate, ◌==◌,
  if◌then◌else◌, Bool-cases, arith,
}
use insightify_core.Scheduler.Sets.{has}
use insightify_core.Scheduler.Graph.{
  Adjacency, targets_of, at, count_row, count_rows, compute_indegrees,
}

-- How often `v` stands in a row.
abbrev pub occurrences : ℕ → List ℕ → ℕ
occurrences v [] = 0
occurrences v (w ∷ ws) = if v == w then suc (occurrences v ws) else occurrences v ws

-- The edges into `v` from the rows `u, u + 1, …`, those of the nodes in `closed` left out.
abbrev pub open_from : ℕ → Adjacency → List ℕ → ℕ → ℕ
open_from u [] closed v = 0
open_from u (vs ∷ adj) closed v =
    (if has u closed then 0 else occurrences v vs) + open_from (suc u) adj closed v

-- The edges into `v` from nodes outside `closed`.
abbrev pub open_degree : Adjacency → List ℕ → ℕ → ℕ
open_degree = open_from 0

pub occurrences-zero : (v : ℕ) (vs : List ℕ) → occurrences v vs ≡ 0 → has v vs ≡ false
unfolding has
occurrences-zero v [] h = refl
occurrences-zero v (w ∷ ws) h = ground (arith, occurrences-zero v ws)

pub occurrences-pos : (v : ℕ) (vs : List ℕ) → 0 < occurrences v vs → has v vs ≡ true
unfolding has
occurrences-pos v [] h = elim h [ ]
occurrences-pos v (w ∷ ws) h = ground (arith, occurrences-pos v ws)

pub at-set :
    (xs : List ℕ) (w v c : ℕ) → v < length xs → at (set xs w c) v ≡ (if v == w then c else at xs v)
at-set xs w v c h = elim (Bool-cases (v == w)) [
  | inl e ↦ let same = (==_iff v w).0 e in rw e (rw same (get_or-set_self xs w c 0 (rw same at h)))
  | inr e ↦ rw e (get_or-set_ne xs w v c 0 (λ same. ground arith))
]

length-count_row : (vs indeg : List ℕ) → length (count_row vs indeg) ≡ length indeg
unfolding count_row
length-count_row [] indeg = refl
length-count_row (v ∷ vs) indeg =
    length-count_row vs (set indeg v (at indeg v + 1)) ∙ length-set indeg v (at indeg v + 1)

length-count_rows :
    (adj : Adjacency) (indeg : List ℕ) → length (count_rows adj indeg) ≡ length indeg
unfolding count_rows
length-count_rows [] indeg = refl
length-count_rows (vs ∷ adj) indeg =
    length-count_rows adj (count_row vs indeg) ∙ length-count_row vs indeg

at-count_row :
    (vs indeg : List ℕ) (v : ℕ)
    → v < length indeg
    → at (count_row vs indeg) v ≡ at indeg v + occurrences v vs
unfolding count_row
at-count_row [] indeg v h = omega arith
at-count_row (w ∷ vs) indeg v h =
    let c = at indeg w + 1 in
    let ih = at-count_row vs (set indeg w c) v (omega (arith, length-set indeg w c)) in
    ground (arith, ih, at-set indeg w v c h)

at-count_rows :
    (adj : Adjacency) (u : ℕ) (indeg : List ℕ) (v : ℕ)
    → v < length indeg
    → at (count_rows adj indeg) v ≡ at indeg v + open_from u adj [] v
unfolding count_rows has
at-count_rows [] u indeg v h = omega arith
at-count_rows (vs ∷ adj) u indeg v h = omega (
  arith,
  at-count_rows adj (suc u) (count_row vs indeg) v (omega (arith, length-count_row vs indeg)),
  at-count_row vs indeg v h,
)

pub length-compute_indegrees : (adj : Adjacency) → length (compute_indegrees adj) ≡ length adj
unfolding compute_indegrees
length-compute_indegrees adj =
    length-count_rows adj (replicate (length adj) 0) ∙ length-replicate (length adj) 0

-- The indegree of a node is the number of edges into it.
pub at-compute_indegrees :
    (adj : Adjacency) (v : ℕ) → v < length adj → at (compute_indegrees adj) v ≡ open_degree adj [] v
unfolding compute_indegrees
at-compute_indegrees adj v h = omega (
  arith,
  at-count_rows adj 0 (replicate (length adj) 0) v
      (omega (arith, length-replicate {0} {A = ℕ} (length adj) 0)),
  get_or-replicate {0} {A = ℕ} (length adj) v 0,
)

-- Of the nodes above the rows read, none counts.
open_from-above :
    (k u : ℕ) (adj : Adjacency) (closed : List ℕ) (v : ℕ)
    → u < k
    → open_from k adj (u ∷ closed) v ≡ open_from k adj closed v
unfolding has
open_from-above k u [] closed v h = refl
open_from-above k u (vs ∷ adj) closed v h =
    ground (arith, open_from-above (suc k) u adj closed v (omega arith))

open_from-close :
    (k u j : ℕ) (adj : Adjacency) (closed : List ℕ) (v : ℕ)
    → u ≡ k + j
    → j < length adj
    → has u closed ≡ false
    → open_from k adj (u ∷ closed) v + occurrences v (targets_of adj j) ≡ open_from k adj closed v
unfolding has
open_from-close k u j [] closed v e h new = elim h [ ]
open_from-close k u zero (vs ∷ adj) closed v e h new =
    ground (arith, open_from-above (suc k) u adj closed v (omega arith))
open_from-close k u (suc j) (vs ∷ adj) closed v e h new =
    ground (arith, open_from-close (suc k) u j adj closed v (omega arith) (omega arith) new)

-- When a node is closed, the edges out of it leave the counts.
pub open_degree-close :
    (adj : Adjacency) (closed : List ℕ) (u v : ℕ)
    → u < length adj
    → has u closed ≡ false
    → open_degree adj (u ∷ closed) v + occurrences v (targets_of adj u) ≡ open_degree adj closed v
open_degree-close adj closed u v h new = open_from-close 0 u u adj closed v (omega arith) h new

-- Only the members of the closed set matter.
open_from-ext :
    (k : ℕ) (adj : Adjacency) (c d : List ℕ) (v : ℕ)
    → ((u : ℕ) → has u c ≡ has u d)
    → open_from k adj c v ≡ open_from k adj d v
open_from-ext k [] c d v h = refl
open_from-ext k (vs ∷ adj) c d v h = rw (h k, open_from-ext (suc k) adj c d v h) refl

pub open_degree-ext :
    (adj : Adjacency) (c d : List ℕ) (v : ℕ)
    → ((u : ℕ) → has u c ≡ has u d)
    → open_degree adj c v ≡ open_degree adj d v
open_degree-ext adj c d v h = open_from-ext 0 adj c d v h

occurrences-ne-zero : (v : ℕ) (vs : List ℕ) → has v vs ≡ true → 0 < occurrences v vs
unfolding has
occurrences-ne-zero v [] h = cc
occurrences-ne-zero v (w ∷ ws) h = ground (arith, occurrences-ne-zero v ws)

open_from-zero :
    (k u j : ℕ) (adj : Adjacency) (closed : List ℕ) (v : ℕ)
    → u ≡ k + j
    → open_from k adj closed v ≡ 0
    → has v (targets_of adj j) ≡ true
    → has u closed ≡ true
unfolding has
open_from-zero k u j [] closed v e h m = cc
open_from-zero k u zero (vs ∷ adj) closed v e h m =
    let same : u ≡ k = omega arith in rw same (ground (arith, occurrences-ne-zero v vs m))
open_from-zero k u (suc j) (vs ∷ adj) closed v e h m =
    open_from-zero (suc k) u j adj closed v (omega arith) (omega arith) m

-- A node without open edges has all its predecessors closed.
pub open_degree-zero :
    (adj : Adjacency) (closed : List ℕ) (u v : ℕ)
    → open_degree adj closed v ≡ 0
    → has v (targets_of adj u) ≡ true
    → has u closed ≡ true
open_degree-zero adj closed u v h m = open_from-zero 0 u u adj closed v (omega arith) h m
