-- ===== src/Scheduler/Chunk/Order.antt =====
-- The words for what `buildChunkDesc` is given and what it returns.
use insightify_core.Prelude.{
  ℕ, ◌<◌, ◌≡◌, refl, ◌⊎◌, true, false, List, [], ◌∷◌, ◌++◌, length, arith,
}
use insightify_core.Scheduler.Sets.{has, Distinct, has-append}
use insightify_core.Scheduler.Graph.{Adjacency, targets_of}
use insightify_core.Scheduler.Graph.Degrees.{open_degree}
use insightify_core.Scheduler.Chunk.{Plan}

-- Every node of the list comes after its predecessors, those in `closed` aside.
abbrev pub InOrder : Adjacency → List ℕ → List ℕ → Type 0
InOrder adj closed [] = Unit
InOrder adj closed (u ∷ us) =
    ((p : ℕ) → has u (targets_of adj p) ≡ true → has p closed ≡ true) × InOrder adj (u ∷ closed) us

-- `closed` is looked at for its members alone.
pub InOrder-ext :
    (adj : Adjacency) (us c d : List ℕ)
    → ((u : ℕ) → has u c ≡ has u d)
    → InOrder adj c us
    → InOrder adj d us
InOrder-ext adj [] c d same h = tt
InOrder-ext adj (u ∷ us) c d same h = (
  λ p e. rw (← same p) (h.0 p e),
  InOrder-ext adj us (u ∷ c) (u ∷ d) (λ x. unfold has in rw (same x) refl) h.1,
)

pub InOrder-snoc :
    (adj : Adjacency) (us closed : List ℕ) (v : ℕ)
    → InOrder adj closed us
    → ((p : ℕ) → has v (targets_of adj p) ≡ true → has p (us ++ closed) ≡ true)
    → InOrder adj closed (us ++ (v ∷ []))
InOrder-snoc adj [] closed v o h = (h, tt)
InOrder-snoc adj (u ∷ us) closed v o h = (
  o.0,
  InOrder-snoc adj us (u ∷ closed) v o.1 (λ p e.
      unfold has in ground (arith, h p e, has-append p us closed, has-append p us (u ∷ closed))),
)

-- What the scheduler knows when it builds a chunk: the edges stay in the graph, and the nodes in
-- flight (`busy`) have their predecessors in flight or completed.
pub record IsReadyToPack (adj : Adjacency) (completed busy : List ℕ) : Type 0 where
  pub in_range : (u v : ℕ) → has v (targets_of adj u) ≡ true → v < length adj
  pub busy_closed :
      (u v : ℕ)
      → has v (targets_of adj u) ≡ true
      → has v busy ≡ true
      → (has u completed ≡ true) ⊎ (has u busy ≡ true)

-- A node that may be admitted, once the nodes of `closed` are done.
pub record IsFree (plan : Plan) (completed busy chunk closed : List ℕ) (x : ℕ) : Type 0 where
  pub below : x < length plan.adj
  pub unpacked : has x chunk ≡ false
  pub uncompleted : has x completed ≡ false
  pub unbusy : has x busy ≡ false
  pub needed : has x plan.need ≡ true
  pub ready : open_degree plan.adj closed x ≡ 0

-- What the candidates are.
pub record IsCandidate (plan : Plan) (completed busy : List ℕ) (x : ℕ) : Type 0 where
  pub below : x < length plan.adj
  pub uncompleted : has x completed ≡ false
  pub unbusy : has x busy ≡ false
  pub needed : has x plan.need ≡ true
  pub ready : open_degree plan.adj completed x ≡ 0

-- A chunk holds no node twice, none that is completed or in flight and none that is not needed, and
-- every node of it comes after its predecessors, those completed before aside.
pub record IsChunk (plan : Plan) (completed busy chunk : List ℕ) : Type 0 where
  pub distinct : Distinct chunk
  pub in_order : InOrder plan.adj completed chunk
  pub admitted :
      (x : ℕ)
      → has x chunk ≡ true
      → (x < length plan.adj)
        × (has x completed ≡ false)
        × (has x busy ≡ false)
        × (has x plan.need ≡ true)
