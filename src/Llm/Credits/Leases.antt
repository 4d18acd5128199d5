-- ===== src/Llm/Credits/Leases.antt =====
-- What a lease of the broker of internal/llm/middleware/rate_limit.go costs, and the credits that it gives.
use insightify_core.Prelude.{
  ℕ, zero, suc, pos, ◌+◌, ◌≤◌, ◌<◌, ◌≡◌, refl, ap, fun_ext, subst, sym, ◌∙◌, Option, some, arith,
}
use insightify_core.Llm.Limits.{Result, ok, err, waiting, World, continue, acquire, acquire_n}
use insightify_core.Llm.Limits.Waiting.{supply, price}
use insightify_core.Llm.Limits.Paying.{IsPaid, acquire_n-IsPaid}
use insightify_core.Llm.Credits.{with_credits, acquire_each, reserve_permits}

with_credits_lem : (n : ℕ) → 0 < n → n < 0x80000000 → with_credits (pos n) ≡ some n
unfolding with_credits
with_credits_lem zero h lt = elim h [ ]
with_credits_lem (suc n) h lt = ground arith

module _ {S : Type 0} where
  acquire_each-acquire_n :
      (i n : ℕ) → acquire_each {S = S} (acquire (some i)) n ≡ acquire_n (some i) n
  unfolding acquire_each acquire_n
  acquire_each-acquire_n i zero = refl
  acquire_each-acquire_n i (suc n) =
      fun_ext λ w. ap (λ m. continue (λ u. m) (acquire (some i) w)) (acquire_each-acquire_n i n)

  leased :
      (i n : ℕ) (w : World S) (out : Result (Unit {0}) × World S) (c d : Option ℕ)
      → IsPaid (price (some i) n) (price (some i) n) w out
      → (continue (λ u w'. (ok d, w')) out).0 ≡ ok c
      → (c ≡ d) × (supply i (continue (λ u w'. (ok d, w')) out).1 + n ≤ supply i w)
  leased i n w (ok u, w') c d h e = (cc e, ground (arith, h.supplied i))
  leased i n w (err x, w') c d h e = cc e
  leased i n w (waiting, w') c d h e = cc e

  -- A lease of `n` permits, where `n` is positive and below 2 ^ 31, is given only after `n` tokens have been taken
  -- from the limiter, whatever happens while it waits, and its context has exactly `n` credits.
  pub supply-reserve_permits :
      (i n : ℕ) (w : World S) (c : Option ℕ)
      → 0 < n
      → n < 0x80000000
      → (reserve_permits (some (acquire (some i))) (pos n) w).0 ≡ ok c
      → (c ≡ some n)
        × (supply i (reserve_permits (some (acquire (some i))) (pos n) w).1 + n ≤ supply i w)
  unfolding reserve_permits
  supply-reserve_permits i n w c positive small given =
      let paid =
        subst (λ m. IsPaid (price (some i) n) (price (some i) n) w (m w))
          (sym (acquire_each-acquire_n i n)) (acquire_n-IsPaid (some i) n w) in
      let (same, cost) =
        leased i n w (acquire_each (acquire (some i)) n w) c (with_credits (pos n)) paid given in
      (same ∙ with_credits_lem n positive small, cost)
