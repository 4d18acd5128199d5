-- ===== src/Scheduler/Chunk/Members.antt =====
-- One round of `buildChunkDesc` keeps track of which nodes may still be admitted.
use insightify_core.Prelude.{
  ℕ, ◌+◌, ◌≤◌, ◌<◌, ◌≡◌, ◌∙◌, ◌⊎◌, inl, inr, true, false, List, [], ◌∷◌, ◌++◌, length, Bool-cases,
  ◌==◌, ==_iff, arith,
}
use insightify_core.Scheduler.Sets.{
  has, add, remove, Distinct, has-add, has-remove, has-append, has-snoc, snoc-Distinct,
}
use insightify_core.Scheduler.Graph.{targets_of, at, Counts}
use insightify_core.Scheduler.Graph.Degrees.{
  open_degree, open_degree-close, open_degree-ext, open_degree-zero, occurrences,
}
use insightify_core.Scheduler.Graph.Relax.{at-relax, length-relax, relax-rule}
use insightify_core.Scheduler.Chunk.{Plan, Packing, look_ahead, admit}
use insightify_core.Scheduler.Chunk.Order.{InOrder, InOrder-snoc, IsReadyToPack, IsFree}

module _ (plan : Plan) (completed busy : List ℕ) (h : IsReadyToPack plan.adj completed busy) where
  open plan use {weight_of, cap_per_chunk, desc, adj, need}
  open h use {in_range, busy_closed}

  -- The nodes that are done when the chunk is.
  abbrev pub done_after : Packing → List ℕ
  done_after p = p.chunk ++ completed

  pub record IsPacked (p : Packing) : Type 0 where
    pub size : length p.counts.indeg ≡ length adj
    pub members : (x : ℕ) → has x p.in_chunk ≡ has x p.chunk
    pub free :
        (x : ℕ) → has x p.counts.found ≡ true → IsFree plan completed busy p.chunk (done_after p) x
    pub degrees : (v : ℕ) → v < length adj → at p.counts.indeg v ≡ open_degree adj (done_after p) v
    pub in_order : InOrder adj completed p.chunk
    pub distinct : Distinct p.chunk
    pub admitted :
        (x : ℕ)
        → has x p.chunk ≡ true
        → (x < length adj) × (has x completed ≡ false) × (has x busy ≡ false) × (has x need ≡ true)

  -- Where a node of the new ready set comes from.
  has-look_ahead :
      (in_chunk : List ℕ) (v x : ℕ) (found : List ℕ)
      → has x (look_ahead plan completed in_chunk v found) ≡ true
      → (has x found ≡ true)
        ⊎ ((x ≡ v) × (has v completed ≡ false) × (has v need ≡ true) × (has v in_chunk ≡ false))
  unfolding look_ahead has
  has-look_ahead in_chunk v x found e = ground arith

  module _ (p : Packing) (u : ℕ) (k : IsPacked p) (m : has u p.counts.found ≡ true) where
    abbrev pub next : Packing
    next = admit plan completed u p

    has-next : (x : ℕ) → has x (done_after next) ≡ has x (u ∷ done_after p)
    unfolding admit has
    has-next x = ground (
      arith,
      has-append x (p.chunk ++ (u ∷ [])) completed,
      has-append x p.chunk completed,
      has-snoc x u p.chunk,
    )

    not-done : has u (done_after p) ≡ false
    not-done =
        let f = k.free u m in
        ground (arith, has-append u p.chunk completed, f.unpacked, f.uncompleted)

    -- The counts of the next packing: the edges out of `u` are gone.
    next-degree :
        (v : ℕ)
        → open_degree adj (done_after next) v + occurrences v (targets_of adj u)
          ≡ open_degree adj (done_after p) v
    next-degree v =
        rw (open_degree-ext adj (done_after next) (u ∷ done_after p) v has-next)
          (open_degree-close adj (done_after p) u v (k.free u m).below not-done)

    -- The counts when the row of `u` has been walked.
    pub walked :
        (v : ℕ)
        → v < length adj
        → at p.counts.indeg v
          ≡ open_degree adj (done_after next) v + occurrences v (targets_of adj u)
    walked v b = omega (arith, k.degrees v b, next-degree v)

    next-degrees :
        (v : ℕ) → v < length adj → at next.counts.indeg v ≡ open_degree adj (done_after next) v
    unfolding admit
    next-degrees v b =
        let rest : Counts = record { indeg = p.counts.indeg; found = remove u p.counts.found } in
        omega (
          arith,
          walked v b,
          k.size,
          at-relax (look_ahead plan completed (add u p.in_chunk)) (targets_of adj u) rest v
              (omega (arith, k.size)),
        )

    -- A node that was free and is not `u` is free still.
    still-IsFree :
        (x : ℕ)
        → has x (remove u p.counts.found) ≡ true
        → IsFree plan completed busy next.chunk (done_after next) x
    unfolding admit
    still-IsFree x e =
        let other : x == u ≡ false = ground (arith, has-remove x u p.counts.found) in
        let f = k.free x (ground (arith, has-remove x u p.counts.found)) in
        record {
          below = f.below;
          unpacked = rw (has-snoc x u p.chunk, f.unpacked) other;
          uncompleted = f.uncompleted;
          unbusy = f.unbusy;
          needed = f.needed;
          ready = omega (arith, f.ready, next-degree x);
        }

    -- A dependent that the lookahead promotes is free.
    newly-IsFree :
        (x : ℕ)
        → has x (targets_of adj u) ≡ true
        → at p.counts.indeg x ≤ occurrences x (targets_of adj u)
        → has x completed ≡ false
        → has x need ≡ true
        → has x (add u p.in_chunk) ≡ false
        → IsFree plan completed busy next.chunk (done_after next) x
    unfolding admit
    newly-IsFree x edge last new wanted outside =
        let f = k.free u m in
        record {
          below = in_range u x edge;
          unpacked = ground (arith, has-snoc x u p.chunk, has-add x u p.in_chunk, k.members x);
          uncompleted = new;
          unbusy = ground (arith, busy_closed u x edge, f.uncompleted, f.unbusy);
          needed = wanted;
          ready = omega (arith, walked x (in_range u x edge), last);
        }

    next-IsFree :
        (x : ℕ)
        → has x next.counts.found ≡ true
        → IsFree plan completed busy next.chunk (done_after next) x
    unfolding admit
    next-IsFree =
        relax-rule
          (λ found.
            (x : ℕ)
            → has x found ≡ true
            → IsFree plan completed busy next.chunk (done_after next) x)
          (look_ahead plan completed (add u p.in_chunk)) (targets_of adj u)
          (record { indeg = p.counts.indeg; found = remove u p.counts.found })
          (λ v found edge _ last ih x e. elim (has-look_ahead (add u p.in_chunk) v x found e) [
            | inl old ↦ ih x old
            | inr (same, new, wanted, outside) ↦
                rw same (newly-IsFree v edge last new wanted outside)
          ])
          still-IsFree

    pub admit-IsPacked : IsPacked next
    unfolding admit
    admit-IsPacked = record {
      size =
          length-relax (look_ahead plan completed (add u p.in_chunk)) (targets_of adj u) _ ∙ k.size;
      members = λ x. ground (arith, has-add x u p.in_chunk, has-snoc x u p.chunk, k.members x);
      free = next-IsFree;
      degrees = next-degrees;
      in_order =
          InOrder-snoc adj p.chunk completed u k.in_order
            (λ q e. open_degree-zero adj (done_after p) q u (k.free u m).ready e);
      distinct = snoc-Distinct u p.chunk k.distinct (k.free u m).unpacked;
      admitted = λ x e. elim (Bool-cases (has x p.chunk)) [
        | inl old ↦ k.admitted x old
        | inr fresh ↦
            let same : x ≡ u = (==_iff x u).0 (ground (arith, has-snoc x u p.chunk)) in
            let f = k.free u m in rw same (f.below, f.uncompleted, f.unbusy, f.needed)
      ];
    }
