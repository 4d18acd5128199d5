-- ===== src/Scheduler/Run/Start.antt =====
-- What the checks before the first launch give.
use insightify_core.Prelude.{
  ℕ, zero, suc, ◌+◌, ◌<◌, ◌≡◌, subst, inl, inr, true, ◌&&◌, List, [], ◌∷◌, length, Bool-cases, ◌==◌,
  arith,
}
use insightify_core.Scheduler.Sets.{has}
use insightify_core.Scheduler.Graph.{Adjacency, targets_of, at}
use insightify_core.Scheduler.Run.{initial_ready, all_below, rows_below}

pub all_below-has : (n : ℕ) (vs : List ℕ) (v : ℕ) → all_below n vs ≡ true → has v vs ≡ true → v < n
unfolding has all_below
all_below-has n [] v h m = cc
all_below-has n (w ∷ vs) v h m = ground (arith, all_below-has n vs v)

pub rows_below-has :
    (n : ℕ) (adj : Adjacency) (u v : ℕ)
    → rows_below n adj ≡ true
    → has v (targets_of adj u) ≡ true
    → v < n
unfolding has rows_below
rows_below-has n [] u v h m = cc
rows_below-has n (vs ∷ adj) zero v h m = ground (arith, all_below-has n vs v)
rows_below-has n (vs ∷ adj) (suc u) v h m = ground (arith, rows_below-has n adj u v)

pub has-initial_ready :
    (need : List ℕ) (k x : ℕ) (cs : List ℕ)
    → has x (initial_ready need k cs) ≡ true
    → (j : ℕ) × (x ≡ k + j) × (j < length cs) × (at cs j ≡ 0) × (has x need ≡ true)
unfolding has initial_ready
has-initial_ready need k x [] m = absurd (cc m)
has-initial_ready need k x (c ∷ cs) m = elim (Bool-cases (x == k && c == 0 && has k need)) [
  | inl e ↦ (
    0,
    ground arith,
    omega arith,
    ground arith,
    subst (λ y. has y need ≡ true) (k_is_x e) (ground arith),
  )
  | inr e ↦
      let (j, place, inside, zero_count, wanted) =
        has-initial_ready need (suc k) x cs (ground arith) in
      (suc j, omega arith, omega arith, zero_count, wanted)
]
  where
    k_is_x : (x == k && c == 0 && has k need) ≡ true → k ≡ x
    k_is_x e = ground arith
