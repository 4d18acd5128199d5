-- ===== src/Llm/Credits/Progress.antt =====
-- The loops of callers of `TakeCredit` end, however they interleave.
use insightify_core.Prelude.{
  ℕ, zero, suc, ◌+◌, ◌-◌, ◌*◌, ◌≤◌, ◌<◌, ◌≡◌, refl, ap, subst, ◌⊎◌, inl, inr, Bool, true, false,
  List, [], ◌∷◌, ◌==◌, if◌then◌else◌, arith, length, Bool-cases,
}
use native.Mathlib.Nat.{suc-mul}
use insightify_core.Llm.Credits.{Caller, loading, swapping, returned, Credits, advance, advance_at}
use insightify_core.Llm.Credits.Interleaving.{askers}

-- The caller at an index has not returned.
unfoldable pub is_running : ℕ → List Caller → Bool
is_running i [] = false
is_running zero (returned b ∷ cs) = false
is_running zero (c ∷ cs) = true
is_running (suc i) (c ∷ cs) = is_running i cs

-- How many operations of an interleaving are those of callers that have not returned.
unfoldable pub operations : List ℕ → Credits → ℕ
unfolding is_running advance_at
operations [] s = 0
operations (i ∷ is) s =
    (if is_running i s.callers then 1 else 0)
    + operations is
        (record { n = (advance_at i s.callers s.n).1; callers = (advance_at i s.callers s.n).0 })

-- The operations that a caller has before it, if no other succeeds.
ahead : Caller → ℕ → ℕ
ahead loading n = 2
ahead (swapping m) n = if n == m then 1 else 3
ahead (returned b) n = 0

all_ahead : List Caller → ℕ → ℕ
unfolding ahead
all_ahead [] n = 0
all_ahead (c ∷ cs) n = ahead c n + all_ahead cs n

-- A value that is loaded is positive, and the counter has only fallen since.
IsStale : ℕ → Caller → Type 0
IsStale n loading = Unit
IsStale n (swapping m) = (0 < m) × (n ≤ m)
IsStale n (returned b) = Unit

AreStale : ℕ → List Caller → Type 0
AreStale n [] = Unit
AreStale n (c ∷ cs) = IsStale n c × AreStale n cs

IsStale-less : (c : Caller) (m n : ℕ) → m ≤ n → IsStale n c → IsStale m c
unfolding IsStale
IsStale-less loading m n le h = tt
IsStale-less (swapping k) m n le h = (h.0, omega (arith, h.1))
IsStale-less (returned b) m n le h = tt

AreStale-less : (cs : List Caller) (m n : ℕ) → m ≤ n → AreStale n cs → AreStale m cs
unfolding AreStale
AreStale-less [] m n le h = tt
AreStale-less (c ∷ cs) m n le h = (IsStale-less c m n le h.0, AreStale-less cs m n le h.1)

-- Where another caller succeeds, each has at most two operations more.
ahead_less : (c : Caller) (m n : ℕ) → ahead c m ≤ ahead c n + 2
unfolding ahead
ahead_less loading m n = omega arith
ahead_less (swapping k) m n = ground arith
ahead_less (returned b) m n = omega arith

all_ahead_less : (cs : List Caller) (m n : ℕ) → all_ahead cs m ≤ all_ahead cs n + 2 * length cs
unfolding all_ahead
all_ahead_less [] m n = omega arith
all_ahead_less (c ∷ cs) m n = omega (arith, ahead_less c m n, all_ahead_less cs m n)

-- The value after an operation is the one before or, if the caller succeeds, the one below.
record IsStep (cs : List Caller) (n : ℕ) (running : Bool) (out : List Caller × ℕ) : Type 0 where
  stale : AreStale out.1 out.0
  long : length out.0 ≡ length cs
  less : out.1 ≤ n
  falls :
      ((out.1 ≡ n) × (all_ahead out.0 n + (if running then 1 else 0) ≤ all_ahead cs n))
      ⊎ ((suc out.1 ≡ n)
          × (all_ahead out.0 out.1 + (if running then 1 else 0) ≤ all_ahead cs n + 2 * length cs))

advance_at-IsStep :
    (i : ℕ) (cs : List Caller) (n : ℕ)
    → AreStale n cs
    → IsStep cs n (is_running i cs) (advance_at i cs n)
unfolding advance_at advance is_running AreStale IsStale all_ahead ahead
advance_at-IsStep i [] n h = record {
  stale = tt;
  long = refl;
  less = omega arith;
  falls = inl (refl, omega arith);
}
advance_at-IsStep zero (loading ∷ cs) n h = elim (Bool-cases (n == 0)) [
  | inl e ↦ rw e (record {
    stale = (tt, h.1);
    long = refl;
    less = omega arith;
    falls = inl (refl, omega arith);
  })
  | inr e ↦ rw e (record {
    stale = ((ground arith, omega arith), h.1);
    long = refl;
    less = omega arith;
    falls = inl (refl, ground arith);
  })
]
advance_at-IsStep zero (swapping m ∷ cs) n h = elim (Bool-cases (n == m)) [
  | inl e ↦ rw e (record {
    stale = (tt, AreStale-less cs (m - 1) n (ground arith) h.1);
    long = refl;
    less = ground arith;
    falls = inr (ground (arith, h.0.0), ground (arith, all_ahead_less cs (m - 1) n));
  })
  | inr e ↦ rw e (record {
    stale = (tt, h.1);
    long = refl;
    less = omega arith;
    falls = inl (refl, ground arith);
  })
]
advance_at-IsStep zero (returned b ∷ cs) n h = record {
  stale = h;
  long = refl;
  less = omega arith;
  falls = inl (refl, omega arith);
}
advance_at-IsStep (suc i) (c ∷ cs) n h =
    let s = advance_at-IsStep i cs n h.1 in
    record {
      stale = (IsStale-less c (advance_at i cs n).1 n s.less h.0, s.stale);
      long = ap suc s.long;
      less = s.less;
      falls = elim s.falls [
        | inl (same, le) ↦ inl (same, omega (arith, le))
        | inr (same, le) ↦ inr (same, omega (arith, le, ahead_less c (advance_at i cs n).1 n))
      ];
    }

operations-le :
    (is : List ℕ) (s : Credits)
    → AreStale s.n s.callers
    → operations is s ≤ all_ahead s.callers s.n + s.n * (2 * length s.callers)
unfolding operations
operations-le [] s h = omega arith
operations-le (i ∷ is) s h =
    let step = advance_at-IsStep i s.callers s.n h in
    let cs = (advance_at i s.callers s.n).0 in
    let n = (advance_at i s.callers s.n).1 in
    let rest : operations is (record { n = n; callers = cs })
        ≤ all_ahead cs n + n * (2 * length s.callers) =
      subst (λ k. operations is (record { n = n; callers = cs }) ≤ all_ahead cs n + n * (2 * k))
        step.long (operations-le is (record { n = n; callers = cs }) step.stale) in
    elim step.falls [
      | inl (same, le) ↦
          let same_total = ap (λ m. all_ahead cs m + m * (2 * length s.callers)) same in
          omega (arith, le, rest, same_total)
      | inr (same, le) ↦
          let fewer = ap (λ m. m * (2 * length s.callers)) same in
          omega (arith, le, rest, fewer, suc-mul n (2 * length s.callers))
    ]

askers_ahead :
    (n k : ℕ) → AreStale n (askers k) × (all_ahead (askers k) n ≡ 2 * k) × (length (askers k) ≡ k)
unfolding askers AreStale IsStale all_ahead ahead
askers_ahead n zero = (tt, refl, refl)
askers_ahead n (suc k) =
    let (stale, ahead_of, long) = askers_ahead n k in
    ((tt, stale), omega (arith, ahead_of), ap suc long)

-- `k` callers of `TakeCredit` on a counter of `n` make no more than `2 k (n + 1)` atomic operations in all
-- before they have returned, however they interleave: no loop of theirs goes on for ever.
pub operations-askers :
    (n k : ℕ) (is : List ℕ)
    → operations is (record { n = n; callers = askers k }) ≤ 2 * k + n * (2 * k)
operations-askers n k is =
    let (stale, ahead_of, long) = askers_ahead n k in
    let bound = operations-le is (record { n = n; callers = askers k }) stale in
    omega (arith, bound, ahead_of, ap (λ m. n * (2 * m)) long)
