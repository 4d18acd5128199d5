-- ===== src/Scheduler/Chunk/Capacity.antt =====
-- The weight of a chunk, and the rule of the loop that builds one.
use insightify_core.Prelude.{
  ℕ, zero, suc, ◌+◌, ◌%◌, ltb, ◌≤◌, ◌<◌, ◌≡◌, refl, inl, inr, Bool, true, ◌||◌, none, some, List,
  [], ◌∷◌, ◌++◌, length, Bool-cases, Option-cases, ◌==◌, arith,
}
use insightify_core.Scheduler.Sets.{has}
use insightify_core.Scheduler.Chunk.{
  add_int, less_int, before, insert_by, sort_by, Plan, Packing, sum_weights, first_fit, admit,
  choose, pack, packing, build_chunk_desc,
}

has-insert_by :
    (less : ℕ → ℕ → Bool) (x i : ℕ) (xs : List ℕ)
    → has x (insert_by less i xs) ≡ (x == i || has x xs)
unfolding has insert_by
has-insert_by less x i [] = refl
has-insert_by less x i (j ∷ xs) = ground (arith, has-insert_by less x i xs)

has-sort_by : (less : ℕ → ℕ → Bool) (x : ℕ) (xs : List ℕ) → has x (sort_by less xs) ≡ has x xs
unfolding has sort_by
has-sort_by less x [] = refl
has-sort_by less x (i ∷ xs) =
    ground (arith, has-sort_by less x xs, has-insert_by less x i (sort_by less xs))

-- No sum of a weight and of a total within the capacity is out of the range of `int`; no weight is negative.
abbrev pub InRangeOfInt : (ℕ → ℕ) → ℕ → Type 0
InRangeOfInt weight_of cap = (u : ℕ) → cap + weight_of u < 0x8000000000000000

add_int_lem :
    (cap total w : ℕ)
    → total ≤ cap
    → cap + w < 0x8000000000000000
    → (add_int total w ≡ total + w) × (less_int cap (add_int total w) ≡ ltb cap (total + w))
unfolding add_int less_int
add_int_lem cap total w h b =
    let sum : (total + w) % 0x10000000000000000 ≡ total + w = omega (arith, h, b) in
    let left : (cap + 0x8000000000000000) % 0x10000000000000000 ≡ cap + 0x8000000000000000 =
      omega (arith, h, b) in
    let right : (total + w + 0x8000000000000000) % 0x10000000000000000
        ≡ total + w + 0x8000000000000000 =
      omega (arith, h, b) in
    (sum, rw (sum, left, right) (ground arith))

first_fit-has :
    (weight_of : ℕ → ℕ) (cap total : ℕ) (order : List ℕ) (u : ℕ)
    → first_fit weight_of cap total order ≡ some u
    → has u order ≡ true
unfolding has first_fit
first_fit-has weight_of cap total [] u h = cc
first_fit-has weight_of cap total (x ∷ order) u h =
    ground (arith, first_fit-has weight_of cap total order u)

module _ (weight_of : ℕ → ℕ) (cap total : ℕ) (small : InRangeOfInt weight_of cap)
    (within : total ≤ cap) where
  first_fit-eq-some :
      (order : List ℕ) (u : ℕ)
      → first_fit weight_of cap total order ≡ some u
      → total + weight_of u ≤ cap
  unfolding first_fit
  first_fit-eq-some [] u h = cc
  first_fit-eq-some (x ∷ order) u h =
      ground
        (arith, first_fit-eq-some order u, (add_int_lem cap total (weight_of x) within (small x)).1)

  first_fit-eq-none :
      (order : List ℕ) (u : ℕ)
      → first_fit weight_of cap total order ≡ none
      → has u order ≡ true
      → cap < total + weight_of u
  unfolding has first_fit
  first_fit-eq-none [] u h m = cc
  first_fit-eq-none (x ∷ order) u h m =
      ground
        (arith, first_fit-eq-none order u, (add_int_lem cap total (weight_of x) within (small x)).1)

sum_weights-snoc :
    (weight_of : ℕ → ℕ) (us : List ℕ) (u : ℕ)
    → sum_weights weight_of (us ++ (u ∷ [])) ≡ sum_weights weight_of us + weight_of u
unfolding sum_weights
sum_weights-snoc weight_of [] u = omega arith
sum_weights-snoc weight_of (x ∷ us) u = omega (arith, sum_weights-snoc weight_of us u)

module _ (plan : Plan) (completed : List ℕ) where
  open plan use {weight_of, cap_per_chunk, desc, adj, need}

  -- A chosen node is ready.
  pub choose-has :
      (p : Packing) (u : ℕ) → choose plan completed p ≡ some u → has u p.counts.found ≡ true
  unfolding choose
  choose-has p u h =
      let order = sort_by (before weight_of desc) p.counts.found in
      rw (← has-sort_by (before weight_of desc) u p.counts.found)
        (first_fit-has weight_of cap_per_chunk p.total order u h)

  -- What each admission keeps holds of the packing in the end.
  pub pack-rule {ℓ} :
      (P : Packing → Type ℓ)
      → ((p : Packing) (u : ℕ)
          → choose plan completed p ≡ some u
          → P p
          → P (admit plan completed u p))
      → (fuel : ℕ) (p : Packing) → P p
      → P (pack plan completed fuel p)
  unfolding pack
  pack-rule P keep zero p h = h
  pack-rule P keep (suc fuel) p h = elim (Option-cases (choose plan completed p)) [
    | inl e ↦ rw (e, pack) h
    | inr (u, e) ↦ rw (e, pack) (pack-rule P keep fuel (admit plan completed u p) (keep p u e h))
  ]

  pub record IsWeighed (p : Packing) : Type 0 where
    pub sum : p.total ≡ sum_weights weight_of p.chunk
    pub fits : p.total ≤ cap_per_chunk

  module _ (small : InRangeOfInt weight_of cap_per_chunk) where
    -- If none is chosen, none that is ready fits.
    pub choose-eq-none :
        (p : Packing) (u : ℕ)
        → IsWeighed p
        → choose plan completed p ≡ none
        → has u p.counts.found ≡ true
        → cap_per_chunk < p.total + weight_of u
    unfolding choose
    choose-eq-none p u k h m =
        first_fit-eq-none weight_of cap_per_chunk p.total small k.fits
          (sort_by (before weight_of desc) p.counts.found) u h
          (rw (has-sort_by (before weight_of desc) u p.counts.found) m)

    admit-IsWeighed :
        (p : Packing) (u : ℕ)
        → choose plan completed p ≡ some u
        → IsWeighed p
        → IsWeighed (admit plan completed u p)
    unfolding admit choose
    admit-IsWeighed p u e h =
        let total = (add_int_lem cap_per_chunk p.total (weight_of u) h.fits (small u)).0 in
        let fits =
          first_fit-eq-some weight_of cap_per_chunk p.total small h.fits
            (sort_by (before weight_of desc) p.counts.found) u e in
        record {
          sum = omega (arith, total, sum_weights-snoc weight_of p.chunk u, h.sum);
          fits = omega (arith, total, fits);
        }

    pub packed-IsWeighed :
        (cands indeg : List ℕ) (fuel : ℕ)
        → IsWeighed (pack plan completed fuel (packing plan completed cands indeg))
    unfolding sum_weights packing
    packed-IsWeighed cands indeg fuel =
        pack-rule IsWeighed admit-IsWeighed fuel (packing plan completed cands indeg)
          (record { sum = refl; fits = omega arith })

    -- A chunk never weighs more than the capacity, if no weight is negative and the capacity and any weight add
    -- up to less than 2 ^ 63.
    pub sum_weights-build_chunk_desc :
        (cands indeg : List ℕ)
        → sum_weights weight_of (build_chunk_desc plan completed cands indeg) ≤ cap_per_chunk
    unfolding build_chunk_desc sum_weights
    sum_weights-build_chunk_desc cands indeg =
        let w = packed-IsWeighed cands indeg (length adj) in
        elim (Bool-cases (cap_per_chunk == 0)) [
          | inl e ↦ rw (e, build_chunk_desc) (omega arith)
          | inr e ↦ rw (e, build_chunk_desc) (omega (arith, w.sum, w.fits))
        ]
