-- ===== src/Scheduler/Graph/Relax.antt =====
-- The rules of the loop `relax`.
use insightify_core.Prelude.{
  ℕ, zero, suc, ◌-◌, ◌≤◌, ◌<◌, ◌≡◌, refl, true, ◌&&◌, List, [], ◌∷◌, ◌∙◌, inl, inr, ==_iff, length,
  set, length-set, ◌==◌, if◌then◌else◌, Bool-cases, arith,
}
use insightify_core.Scheduler.Sets.{has}
use insightify_core.Scheduler.Graph.{at, Counts, relax}
use insightify_core.Scheduler.Graph.Degrees.{occurrences, at-set}

lt-length_of_at : (xs : List ℕ) (v : ℕ) → 0 < at xs v → v < length xs
lt-length_of_at [] v h = absurd (omega arith)
lt-length_of_at (x ∷ xs) zero h = omega arith
lt-length_of_at (x ∷ xs) (suc v) h = omega (arith, lt-length_of_at xs v h)

-- One round of the loop.
abbrev relaxed : (ℕ → List ℕ → List ℕ) → ℕ → Counts → Counts
relaxed promote v s = record {
  indeg = set s.indeg v (at s.indeg v - 1);
  found = if at s.indeg v == 1 then promote v s.found else s.found;
}

pub length-relax :
    (promote : ℕ → List ℕ → List ℕ) (vs : List ℕ) (s : Counts)
    → length (relax promote vs s).indeg ≡ length s.indeg
unfolding relax
length-relax promote [] s = refl
length-relax promote (v ∷ vs) s =
    length-relax promote vs (relaxed promote v s) ∙ length-set s.indeg v (at s.indeg v - 1)

-- The loop takes from each count the edges that it walks.
pub at-relax :
    (promote : ℕ → List ℕ → List ℕ) (vs : List ℕ) (s : Counts) (v : ℕ)
    → v < length s.indeg
    → at (relax promote vs s).indeg v ≡ at s.indeg v - occurrences v vs
unfolding relax
at-relax promote [] s v h = omega arith
at-relax promote (w ∷ vs) s v h =
    let c = at s.indeg w - 1 in
    ground (
      arith,
      at-relax promote vs (relaxed promote w s) v (omega (arith, length-set s.indeg w c)),
      at-set s.indeg w v c h,
    )

-- What holds of the collected set and is kept by promoting a node of the row whose edges are then
-- all gone, holds in the end.
pub relax-rule {ℓ} :
    (P : List ℕ → Type ℓ) (promote : ℕ → List ℕ → List ℕ) (vs : List ℕ) (s : Counts)
    → ((v : ℕ) (found : List ℕ)
        → has v vs ≡ true
        → 0 < at s.indeg v
        → at s.indeg v ≤ occurrences v vs
        → P found
        → P (promote v found))
    → P s.found
    → P (relax promote vs s).found
unfolding relax has
relax-rule P promote [] s keep h = h
relax-rule P promote (w ∷ vs) s keep h =
    relax-rule P promote vs (relaxed promote w s)
      (λ v found m pos most.
        let bound = lt-length_of_at (relaxed promote w s).indeg v pos in
        let put =
          at-set s.indeg w v (at s.indeg w - 1)
            (omega (arith, length-set s.indeg w (at s.indeg w - 1))) in
        keep v found (ground arith) (ground (arith, put)) (ground (arith, put)))
      (elim (Bool-cases (at s.indeg w == 1)) [
        | inl e ↦ rw e (keep w s.found (ground arith) (ground arith) (ground arith) h)
        | inr e ↦ rw e h
      ])

-- A node whose edges are all walked is promoted, so what its promotion establishes and the others
-- keep holds in the end.
pub relax-promotes {ℓ} :
    (Q : List ℕ → Type ℓ) (promote : ℕ → List ℕ → List ℕ) (v : ℕ)
    → ((w : ℕ) (found : List ℕ) → Q found → Q (promote w found))
    → ((found : List ℕ) → Q (promote v found))
    → (vs : List ℕ) (s : Counts) → 0 < at s.indeg v
    → at s.indeg v ≤ occurrences v vs
    → Q (relax promote vs s).found
unfolding relax
relax-promotes Q promote v keep start [] s pos most = absurd (omega arith)
relax-promotes Q promote v keep start (w ∷ vs) s pos most =
    let bound = lt-length_of_at s.indeg v pos in
    let put = at-set s.indeg w v (at s.indeg w - 1) bound in
    elim (Bool-cases (v == w && at s.indeg w == 1)) [
      | inl e ↦
          relax-rule Q promote vs (relaxed promote w s) (λ x found _ _ _. keep x found)
            (rw (← (==_iff v w).0 (ground arith)) (rw (last e) (start s.found)))
      | inr e ↦
          relax-promotes Q promote v keep start vs (relaxed promote w s) (ground (arith, put))
            (ground (arith, put))
    ]
  where
    last : (v == w && at s.indeg w == 1) ≡ true → (at s.indeg v == 1) ≡ true
    last e = let same = (==_iff v w).0 (ground arith) in rw same (ground arith)
