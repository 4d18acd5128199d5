-- ===== src/Scheduler/Chunk/Built.antt =====
-- The chunk that `buildChunkDesc` returns.
use insightify_core.Prelude.{
  ℕ, ◌<◌, ◌≡◌, refl, inl, inr, true, ◌||◌, List, [], ◌∷◌, length, Bool-cases, ◌==◌, arith,
}
use insightify_core.Scheduler.Sets.{has, add, has-add}
use insightify_core.Scheduler.Graph.{at}
use insightify_core.Scheduler.Graph.Degrees.{open_degree}
use insightify_core.Scheduler.Chunk.{Plan, pack, packing, add_all, build_chunk_desc}
use insightify_core.Scheduler.Chunk.Capacity.{choose-has, pack-rule}
use insightify_core.Scheduler.Chunk.Order.{IsReadyToPack, IsCandidate, IsChunk}
use insightify_core.Scheduler.Chunk.Members.{IsPacked, admit-IsPacked}

pub has-add_all : (x : ℕ) (us s : List ℕ) → has x (add_all us s) ≡ (has x us || has x s)
unfolding has add_all
has-add_all x [] s = refl
has-add_all x (u ∷ us) s = ground (arith, has-add_all x us (add u s), has-add x u s)

module _ (plan : Plan) (completed busy : List ℕ) (h : IsReadyToPack plan.adj completed busy) where
  open plan use {cap_per_chunk, adj}

  module _ (cands indeg : List ℕ) (size : length indeg ≡ length adj)
      (degrees : (v : ℕ) → v < length adj → at indeg v ≡ open_degree adj completed v)
      (good : (x : ℕ) → has x cands ≡ true → IsCandidate plan completed busy x) where
    pub packing-IsPacked : IsPacked plan completed busy h (packing plan completed cands indeg)
    unfolding packing has
    packing-IsPacked = record {
      size = size;
      members = λ x. refl;
      free = λ x e.
          let c = good x (ground (arith, has-add_all x cands [])) in
          record {
            below = c.below;
            unpacked = refl;
            uncompleted = c.uncompleted;
            unbusy = c.unbusy;
            needed = c.needed;
            ready = c.ready;
          };
      degrees = degrees;
      in_order = tt;
      distinct = tt;
      admitted = λ x e. cc;
    }

    -- The chunk that `pack` has after any number of rounds.
    pub pack-IsPacked :
        (fuel : ℕ)
        → IsPacked plan completed busy h
            (pack plan completed fuel (packing plan completed cands indeg))
    pack-IsPacked fuel =
        pack-rule plan completed (IsPacked plan completed busy h)
          (λ p u e k. admit-IsPacked plan completed busy h p u k (choose-has plan completed p u e))
          fuel (packing plan completed cands indeg) packing-IsPacked

    -- From such candidates, with counts of the edges from nodes that are not completed, the chunk
    -- holds no node twice, none that is completed or in flight and none that is not needed, and each
    -- of its nodes comes after its predecessors that are not completed.
    pub build_chunk_desc-IsChunk :
        IsChunk plan completed busy (build_chunk_desc plan completed cands indeg)
    unfolding build_chunk_desc
    build_chunk_desc-IsChunk = elim (Bool-cases (cap_per_chunk == 0)) [
      | inl e ↦
          rw (e, build_chunk_desc)
            (record { distinct = tt; in_order = tt; admitted = λ x h. unfold has in cc })
      | inr e ↦
          let k = pack-IsPacked (length adj) in
          rw (e, build_chunk_desc)
            (record { distinct = k.distinct; in_order = k.in_order; admitted = k.admitted })
    ]
