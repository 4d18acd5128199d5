-- ===== src/Scheduler/Chunk/Maximal.antt =====
-- How the loop of `buildChunkDesc` ends, and what is left out then.
use insightify_core.Prelude.{
  ℕ, zero, suc, ◌+◌, ◌≤◌, ◌<◌, ◌≡◌, refl, ◌∙◌, ◌⊎◌, inl, inr, true, false, none, some, List, [],
  ◌∷◌, ◌++◌, ==_iff, length, Bool-cases, Option-cases, ◌==◌, arith,
}
use mathlib.Core.Logic.{⊎_elim}
use insightify_core.Scheduler.Sets.{
  has, add, remove, has-add, has-remove, has-snoc, unseen, unseen-add, unseen-le,
}
use insightify_core.Scheduler.Graph.{targets_of, at}
use insightify_core.Scheduler.Graph.Degrees.{open_degree}
use insightify_core.Scheduler.Graph.Relax.{relax-rule, relax-promotes}
use insightify_core.Scheduler.Chunk.{
  Plan, Packing, sum_weights, look_ahead, admit, choose, pack, packing, build_chunk_desc,
}
use insightify_core.Scheduler.Chunk.Capacity.{
  choose-has, choose-eq-none, pack-rule, packed-IsWeighed, InRangeOfInt,
}
use insightify_core.Scheduler.Chunk.Order.{IsReadyToPack, IsCandidate}
use insightify_core.Scheduler.Chunk.Members.{IsPacked, admit-IsPacked, done_after, walked}
use insightify_core.Scheduler.Chunk.Built.{has-add_all, packing-IsPacked}

module _ (plan : Plan) (completed busy : List ℕ) (h : IsReadyToPack plan.adj completed busy) where
  open plan use {weight_of, cap_per_chunk, adj, need}

  -- A node that is chosen is not yet in the chunk.
  outside :
      (p : Packing)
      → IsPacked plan completed busy h p
      → (u : ℕ) → choose plan completed p ≡ some u
      → unseen (length adj) (add u p.in_chunk) + 1 ≡ unseen (length adj) p.in_chunk
  outside p k u e =
      let f = k.free u (choose-has plan completed p u e) in
      unseen-add (length adj) u p.in_chunk f.below (k.members u ∙ f.unpacked)

  -- With as many rounds as nodes outside the chunk, the last one finds no node to admit.
  pack_ends :
      (fuel : ℕ) (p : Packing)
      → IsPacked plan completed busy h p
      → unseen (length adj) p.in_chunk ≤ fuel
      → choose plan completed (pack plan completed fuel p) ≡ none
  unfolding pack
  pack_ends zero p k enough = elim (Option-cases (choose plan completed p)) [
    | inl e ↦ e
    | inr (u, e) ↦ absurd (omega (arith, outside p k u e))
  ]
  pack_ends (suc fuel) p k enough = elim (Option-cases (choose plan completed p)) [
    | inl e ↦ rw (e, pack) e
    | inr (u, e) ↦
        rw (e, pack)
          (pack_ends fuel (admit plan completed u p)
            (admit-IsPacked plan completed busy h p u k (choose-has plan completed p u e))
            (unfold admit in omega (arith, outside p k u e)))
  ]

  module _ (x : ℕ) where
    -- A ready node stays ready until it is in the chunk.
    abbrev Kept : Packing → Type 0
    Kept p = (has x p.chunk ≡ true) ⊎ (has x p.counts.found ≡ true)

    look_ahead-keeps :
        (in_chunk : List ℕ) (v : ℕ) (found : List ℕ)
        → has x found ≡ true
        → has x (look_ahead plan completed in_chunk v found) ≡ true
    unfolding look_ahead has
    look_ahead-keeps in_chunk v found m = ground arith

    admit-Kept : (p : Packing) (u : ℕ) → Kept p → Kept (admit plan completed u p)
    unfolding admit
    admit-Kept p u (inl m) = inl (rw (has-snoc x u p.chunk, m) refl)
    admit-Kept p u (inr m) = elim (Bool-cases (x == u)) [
      | inl e ↦ inl (ground (arith, has-snoc x u p.chunk))
      | inr e ↦ inr (
          relax-rule (λ found. has x found ≡ true) (look_ahead plan completed (add u p.in_chunk))
            (targets_of adj u) (record { indeg = p.counts.indeg; found = remove u p.counts.found })
            (λ v found _ _ _. look_ahead-keeps (add u p.in_chunk) v found)
            (ground (arith, has-remove x u p.counts.found)))
    ]

    -- A node whose last open predecessor is put into the chunk is ready, or in the chunk.
    module _ (below : x < length adj) (uncompleted : has x completed ≡ false)
        (needed : has x need ≡ true) where
      abbrev Freed : Packing → Type 0
      Freed p = open_degree adj (done_after plan completed busy h p) x ≡ 0 → Kept p

      look_ahead-Freed :
          (p : Packing) (u : ℕ) (found : List ℕ)
          → IsPacked plan completed busy h p
          → (has x (p.chunk ++ (u ∷ [])) ≡ true)
            ⊎ (has x (look_ahead plan completed (add u p.in_chunk) x found) ≡ true)
      unfolding look_ahead has
      look_ahead-Freed p u found k = ground (
        arith,
        has-add x u p.in_chunk,
        has-snoc x u p.chunk,
        k.members x,
        uncompleted,
        needed,
        ==_iff x x,
      )

      admit-Freed :
          (p : Packing) (u : ℕ)
          → choose plan completed p ≡ some u
          → IsPacked plan completed busy h p
          → Freed p
          → Freed (admit plan completed u p)
      unfolding admit
      admit-Freed p u e k before now =
          let m = choose-has plan completed p u e in
          let walk = walked plan completed busy h p u k m x below in
          elim (Bool-cases (open_degree adj (done_after plan completed busy h p) x == 0)) [
            | inl z ↦ admit-Kept p u (before (ground arith))
            | inr z ↦
                relax-promotes
                  (λ found. (has x (p.chunk ++ (u ∷ [])) ≡ true) ⊎ (has x found ≡ true))
                  (look_ahead plan completed (add u p.in_chunk)) x
                  (λ v found q.
                    ⊎_elim inl (λ m. inr (look_ahead-keeps (add u p.in_chunk) v found m)) q)
                  (λ found. look_ahead-Freed p u found k) (targets_of adj u)
                  (record { indeg = p.counts.indeg; found = remove u p.counts.found })
                  (ground (arith, k.degrees x below)) (omega (arith, walk, now))
          ]

  -- With more fuel, a packing that has ended stays as it is.
  more_fuel :
      (less more : ℕ) (p : Packing)
      → less ≤ more
      → choose plan completed (pack plan completed less p) ≡ none
      → pack plan completed more p ≡ pack plan completed less p
  unfolding pack
  more_fuel zero zero p h e = refl
  more_fuel zero (suc more) p h e = rw (e, pack) refl
  more_fuel (suc less) zero p h e = absurd (omega arith)
  more_fuel (suc less) (suc more) p h e = elim (Option-cases (choose plan completed p)) [
    | inl n ↦ rw (n, pack) refl
    | inr (u, n) ↦
        rw (n, pack)
          (more_fuel less more (admit plan completed u p) (omega arith) (rw (n, pack) at e))
  ]

  module _ (cands indeg : List ℕ) (size : length indeg ≡ length adj)
      (degrees : (v : ℕ) → v < length adj → at indeg v ≡ open_degree adj completed v)
      (good : (y : ℕ) → has y cands ≡ true → IsCandidate plan completed busy y) where
    abbrev last : Packing
    last = pack plan completed (length adj) (packing plan completed cands indeg)

    last_ends : choose plan completed last ≡ none
    last_ends =
        pack_ends (length adj) (packing plan completed cands indeg)
          (packing-IsPacked plan completed busy h cands indeg size degrees good) (unseen-le _ _)

    last-Kept : (x : ℕ) → has x cands ≡ true → Kept x last
    unfolding packing
    last-Kept x m =
        pack-rule plan completed (Kept x) (λ p u _. admit-Kept x p u) (length adj)
          (packing plan completed cands indeg) (inr (ground (arith, has-add_all x cands [])))

    last-Freed :
        (x : ℕ)
        → x < length adj
        → has x completed ≡ false
        → has x need ≡ true
        → 0 < open_degree adj completed x
        → open_degree adj (last.chunk ++ completed) x ≡ 0
        → Kept x last
    unfolding packing
    last-Freed x below uncompleted needed was_open =
        (pack-rule plan completed
          (λ p. IsPacked plan completed busy h p × Freed x below uncompleted needed p)
          (λ p u e k. (
            admit-IsPacked plan completed busy h p u k.0 (choose-has plan completed p u e),
            admit-Freed x below uncompleted needed p u e k.0 k.1,
          ))
          (length adj) (packing plan completed cands indeg)
          (
            packing-IsPacked plan completed busy h cands indeg size degrees good,
            λ zero_open. absurd (omega (arith, was_open, zero_open)),
          )).1

    -- Once every predecessor of `x` is completed or in `chunk`, `x` may be packed: it is a candidate, or a needed
    -- node that waits for nodes of `chunk` alone.
    pub data MayJoin (chunk : List ℕ) (x : ℕ) : Type 0 where
      given : has x cands ≡ true → MayJoin chunk x
      freed :
          x < length adj
          → has x completed ≡ false
          → has x need ≡ true
          → 0 < open_degree adj completed x
          → open_degree adj (chunk ++ completed) x ≡ 0
          → MayJoin chunk x

    -- What the loop of `buildChunkDesc` has when it ends: no ready node fits, more rounds change nothing, and
    -- every node that may join the chunk and is not in it would make it exceed the capacity.
    pub record IsMaximal (last : Packing) : Type 0 where
      pub ended : choose plan completed last ≡ none
      pub settled :
          (fuel : ℕ)
          → length adj ≤ fuel
          → pack plan completed fuel (packing plan completed cands indeg) ≡ last
      pub full :
          (x : ℕ)
          → MayJoin last.chunk x
          → has x last.chunk ≡ false
          → cap_per_chunk < sum_weights weight_of last.chunk + weight_of x

    -- The packing loop ends by itself within `length adj` rounds: then no ready node fits, and more rounds would
    -- change nothing. The chunk is what it has then, and every node that is not in it, candidate or freed by
    -- the chunk, would make it exceed the capacity. No weight is negative, and the capacity and any weight add
    -- up to less than 2 ^ 63.
    pub build_chunk_desc-IsMaximal :
        InRangeOfInt weight_of cap_per_chunk
        → 0 < cap_per_chunk
        → (last : Packing) × (build_chunk_desc plan completed cands indeg ≡ last.chunk)
          × IsMaximal last
    unfolding build_chunk_desc
    build_chunk_desc-IsMaximal small positive =
        let weighed = packed-IsWeighed plan completed small cands indeg (length adj) in
        let out : (x : ℕ)
            → Kept x last
            → has x last.chunk ≡ false
            → cap_per_chunk < sum_weights weight_of last.chunk + weight_of x =
          λ x kept absent.
            ⊎_elim (λ m. absurd (cc (m, absent)))
              (λ f. omega (
                arith,
                weighed.sum,
                choose-eq-none plan completed small last x weighed last_ends f,
              ))
              kept in
        (
          last,
          rw (not_zero positive) refl,
          record {
            ended = last_ends;
            settled = λ fuel enough. more_fuel (length adj) fuel _ enough last_ends;
            full = λ x may absent. elim may [
              | given m ↦ out x (last-Kept x m) absent
              | freed below uncompleted needed was_open now ↦
                  out x (last-Freed x below uncompleted needed was_open now) absent
            ];
          },
        )
      where
        not_zero : 0 < cap_per_chunk → (cap_per_chunk == 0) ≡ false
        not_zero h = ground arith
