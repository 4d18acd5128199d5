-- ===== src/Scheduler/Sets.antt =====
-- `IntSet` and `map[int]struct{}`: the members in the order in which the map is walked.
use insightify_core.Prelude.{
  ℕ, zero, suc, ◌+◌, ◌≤◌, ◌<◌, ◌≡◌, refl, inl, inr, Bool, true, false, ◌&&◌, ◌||◌, List, [], ◌∷◌,
  ◌++◌, ◌==◌, if◌then◌else◌, Bool-cases, arith,
}

unfoldable pub has : ℕ → List ℕ → Bool
has x [] = false
has x (y ∷ s) = x == y || has x s

unfoldable pub add : ℕ → List ℕ → List ℕ
add x s = if has x s then s else x ∷ s

unfoldable pub remove : ℕ → List ℕ → List ℕ
remove x [] = []
remove x (y ∷ s) = let rest = remove x s in if x == y then rest else y ∷ rest

unfoldable pub is_subset : List ℕ → List ℕ → Bool
is_subset a [] = true
is_subset a (x ∷ b) = has x a && is_subset a b

-- No member twice.
abbrev pub Distinct : List ℕ → Type 0
Distinct [] = Unit
Distinct (x ∷ s) = (has x s ≡ false) × Distinct s

pub has-add : (x y : ℕ) (s : List ℕ) → has x (add y s) ≡ (x == y || has x s)
unfolding add has
has-add x y s = elim (Bool-cases (has y s)) [ inl e ↦ rw e (ground arith) | inr e ↦ rw e refl ]

pub has-remove : (x y : ℕ) (s : List ℕ) → has x (remove y s) ≡ (if x == y then false else has x s)
unfolding has remove
has-remove x y [] = ground arith
has-remove x y (z ∷ s) = ground (arith, has-remove x y s)

pub has-append : (x : ℕ) (s t : List ℕ) → has x (s ++ t) ≡ (has x s || has x t)
unfolding has
has-append x [] t = refl
has-append x (y ∷ s) t = ground (arith, has-append x s t)

pub add-Distinct : (x : ℕ) (s : List ℕ) → Distinct s → Distinct (add x s)
unfolding add
add-Distinct x s d = ground arith

pub remove-Distinct : (x : ℕ) (s : List ℕ) → Distinct s → Distinct (remove x s)
unfolding remove
remove-Distinct x [] d = tt
remove-Distinct x (y ∷ s) d = ground (arith, remove-Distinct x s d.1, has-remove y x s)

pub is_subset-has : (a b : List ℕ) (x : ℕ) → is_subset a b ≡ true → has x b ≡ true → has x a ≡ true
unfolding is_subset has
is_subset-has a [] x h m = cc
is_subset-has a (y ∷ b) x h m = ground (arith, is_subset-has a b x)

-- How many of the numbers below `n` are not in the set.
pub unseen : ℕ → List ℕ → ℕ
unseen zero s = 0
unseen (suc n) s = (if has n s then 0 else 1) + unseen n s

unseen-add_above : (n u : ℕ) (s : List ℕ) → n ≤ u → unseen n (add u s) ≡ unseen n s
unfolding unseen
unseen-add_above zero u s h = refl
unseen-add_above (suc n) u s h = ground (arith, has-add n u s, unseen-add_above n u s (omega arith))

pub unseen-add :
    (n u : ℕ) (s : List ℕ) → u < n → has u s ≡ false → unseen n (add u s) + 1 ≡ unseen n s
unfolding unseen
unseen-add zero u s h new = elim h [ ]
unseen-add (suc n) u s h new = elim (Bool-cases (n == u)) [
  | inl e ↦ ground (arith, has-add n u s, unseen-add_above n u s (ground arith))
  | inr e ↦ ground (arith, has-add n u s, unseen-add n u s (ground arith) new)
]

pub unseen-le : (n : ℕ) (s : List ℕ) → unseen n s ≤ n
unfolding unseen
unseen-le zero s = omega arith
unseen-le (suc n) s = ground (arith, unseen-le n s)

-- A member that is added.
pub has-snoc : (x u : ℕ) (s : List ℕ) → has x (s ++ (u ∷ [])) ≡ (has x s || x == u)
unfolding has
has-snoc x u [] = ground arith
has-snoc x u (y ∷ s) = ground (arith, has-snoc x u s)

pub snoc-Distinct : (u : ℕ) (s : List ℕ) → Distinct s → has u s ≡ false → Distinct (s ++ (u ∷ []))
unfolding has
snoc-Distinct u [] d h = (refl, tt)
snoc-Distinct u (y ∷ s) d h = ground (arith, snoc-Distinct u s d.1, has-snoc y u s)
