-- ===== src/Llm/Credits.antt =====
-- Credits (internal/llm/middleware/rate_limit.go): `NewBroker` with `Reserve`, and `TakeCredit` as callers run it side by
-- side.
pub mod Interleaving
pub mod Progress
pub mod Leases
use insightify_core.Prelude.{
  ℤ, pos, negsuc, ℕ, zero, suc, ◌+◌, ◌-◌, ◌%◌, ◌≤◌, ◌≡◌, refl, ap, ◌∙◌, Bool, true, false, Option,
  none, some, List, [], ◌∷◌, ltb, leb, ◌==◌, if◌then◌else◌, arith, length,
}
use insightify_core.Llm.Limits.{Result, ok, err, waiting, World, M, continue}

-- One caller of `TakeCredit`: before `LoadInt32`, before `CompareAndSwapInt32` with the value that it has
-- loaded, and after it has returned.
pub data Caller : Type 0 where
  loading : Caller
  swapping : ℕ → Caller
  returned : Bool → Caller

-- The value of the counter, and the callers.
pub record Credits : Type 0 where
  pub n : ℕ
  pub callers : List Caller

-- `int32(n)`, where a negative value gives no credit.
unfoldable pub int32_credits : ℕ → ℕ
int32_credits n = let m = n % 0x100000000 in if ltb m 0x80000000 then m else 0

-- `WithCredits`: the counter in the new context, if there is one.
unfoldable pub with_credits : ℤ → Option ℕ
unfolding int32_credits
with_credits (pos zero) = none
with_credits (pos (suc n)) = some (int32_credits (suc n))
with_credits (negsuc n) = none

-- One atomic operation of a caller.
unfoldable pub advance : Caller → ℕ → Caller × ℕ
advance loading n = if n == 0 then (returned false, n) else (swapping n, n)
advance (swapping cur) n = if n == cur then (returned true, cur - 1) else (loading, n)
advance (returned b) n = (returned b, n)

-- The operation of the caller at an index.
unfoldable pub advance_at : ℕ → List Caller → ℕ → List Caller × ℕ
unfolding advance
advance_at i [] n = ([], n)
advance_at zero (c ∷ cs) n = let (c', n') = advance c n in (c' ∷ cs, n')
advance_at (suc i) (c ∷ cs) n = let (cs', n') = advance_at i cs n in (c ∷ cs', n')

-- An interleaving: which caller goes next.
unfoldable pub advance_all : List ℕ → Credits → Credits
unfolding advance_at
advance_all [] s = s
advance_all (i ∷ is) s =
    let (callers, n) = advance_at i s.callers s.n in
    advance_all is (record { n = n; callers = callers })

-- The loop of `Reserve`, over the interface of a limiter.
unfoldable pub acquire_each : {S : Type 0} → M S (Unit {0}) → ℕ → M S (Unit {0})
acquire_each limiter zero w = (ok tt, w)
acquire_each limiter (suc n) w = continue (λ u. acquire_each limiter n) (limiter w)

-- `Reserve` of a broker, and the context of the lease: the counter in it.
unfoldable pub reserve_permits : {S : Type 0} → Option (M S (Unit {0})) → ℤ → M S (Option ℕ)
unfolding acquire_each with_credits
reserve_permits none n w = (ok none, w)
reserve_permits (some limiter) (pos n) w =
    continue (λ u w'. (ok (with_credits (pos n)), w')) (acquire_each limiter n w)
reserve_permits (some limiter) (negsuc n) w = (ok none, w)

-- How many callers have been given a credit.
unfoldable pub taken : List Caller → ℕ
taken [] = 0
taken (loading ∷ cs) = taken cs
taken (swapping n ∷ cs) = taken cs
taken (returned true ∷ cs) = suc (taken cs)
taken (returned false ∷ cs) = taken cs
