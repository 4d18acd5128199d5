-- ===== src/Llm/Limits/Rates.antt =====
-- How many requests the limits let through.
use insightify_core.Prelude.{
  ℕ, suc, ◌+◌, ◌-◌, ◌*◌, ◌≤◌, ◌≡◌, refl, fun_ext, ap, subst, sym, ◌∙◌, ◌⊎◌, inl, inr, Option, none,
  some, List, [], ◌∷◌, leb, Bool-cases, arith,
}
use native.Mathlib.Nat.{mul-le-mul_right, suc-mul, add-mul, le-mul_of_pos_right}
use insightify_core.Llm.Limits.{
  Result, ok, err, waiting, World, M, Client, continue, acquire_n, pass_limit, rate_limited,
  multi_limited, token_day_limited, estimate,
}
use insightify_core.Llm.Limits.Waiting.{supply, credits_of, price}
use insightify_core.Llm.Limits.Paying.{IsPaid, continue-IsPaid, pass_limit-IsPaid, acquire_n-IsPaid}

-- Requests one after the other, whatever their results are.
unfoldable pub run_all : {S R A : Type 0} → Client S R A → List R → World S → World S
run_all client [] w = w
run_all client (r ∷ rs) w = run_all client rs (client r w).1

continue_assoc :
    {S A B C : Type 0} (f : A → M S B) (g : B → M S C) (out : Result A × World S)
    → continue (λ a w. continue g (f a w)) out ≡ continue g (continue f out)
continue_assoc f g (ok a, w) = refl
continue_assoc f g (err e, w) = refl
continue_assoc f g (waiting, w) = refl

each_pays : (m n b x : ℕ) → 1 ≤ b → n * b ≤ m * b + x → n ≤ m + x
each_pays m n b x pos h = elim (Bool-cases (leb n m)) [
  | inl e ↦ ground arith
  | inr e ↦
      let d = n - m in
      let more : n ≡ m + d = ground arith in
      let paid = subst (λ k. k * b ≤ m * b + x) more h in
      omega (arith, more, paid, add-mul m d b, le-mul_of_pos_right {m = b} d pos)
]

-- The price of a request with all three limits.
abbrev price_of_all : Option ℕ → Option ℕ → Option ℕ → ℕ → ℕ → ℕ
price_of_all rpm rpd tpm n k = price rpm 1 k + price rpd 1 k + price tpm n k

module _ {S R A : Type 0} (count : S → ℕ) (next : Client S R A) where
  -- The client behind the limits is counted, and adds neither tokens nor credits.
  pub record IsCounted : Type 0 where
    pub counted : (r : R) (w : World S) → count (next r w).1.outside ≤ suc (count w.outside)
    pub credits : (r : R) (w : World S) → credits_of (next r w).1.credits ≤ credits_of w.credits
    pub supplied : (r : R) (w : World S) (k : ℕ) → supply k (next r w).1 ≤ supply k w

  -- The requests let through, at a price each, and what is left, are within what there was.
  pub record IsWithin (tokens both : ℕ → ℕ) (w w' : World S) : Type 0 where
    pub supplied :
        (k : ℕ)
        → count w'.outside * tokens k + supply k w' ≤ count w.outside * tokens k + supply k w
    pub paid :
        (k : ℕ)
        → count w'.outside * both k + supply k w' + credits_of w'.credits
          ≤ count w.outside * both k + supply k w + credits_of w.credits

  stopped-IsWithin :
      {t b : ℕ → ℕ} (w w' : World S)
      → w'.outside ≡ w.outside
      → ((k : ℕ) → supply k w' + 0 ≤ supply k w)
      → ((k : ℕ) → supply k w' + credits_of w'.credits + 0 ≤ supply k w + credits_of w.credits)
      → IsWithin t b w w'
  stopped-IsWithin {t} {b} w w' same supplied paid = record {
    supplied = λ k. omega (arith, supplied k, ap (λ o. count o * t k) same);
    paid = λ k. omega (arith, paid k, ap (λ o. count o * b k) same);
  }

  scale : (n m t : ℕ) → n ≤ suc m → n * t ≤ m * t + t
  scale n m t h = omega (arith, mul-le-mul_right t h, suc-mul m t)

  module _ (t b : ℕ → ℕ) (counted : IsCounted) where
    -- What a middleware does before it calls the client ends in `out`.
    continue-IsWithin :
        (r : R) (w : World S) (out : Result (Unit {0}) × World S)
        → IsPaid t b w out
        → IsWithin t b w (continue (λ u. next r) out).1
    continue-IsWithin r w (ok u, w') h =
        let once : count (next r w').1.outside ≤ suc (count w.outside) =
          subst (λ o. count (next r w').1.outside ≤ suc (count o)) h.outside
            (counted.counted r w') in
        record {
          supplied =
              λ k. omega (arith, scale _ _ (t k) once, h.supplied k, counted.supplied r w' k);
          paid = λ k. omega (
            arith,
            scale _ _ (b k) once,
            h.paid k,
            counted.supplied r w' k,
            counted.credits r w',
          );
        }
    continue-IsWithin r w (err e, w') h = stopped-IsWithin w w' h.outside h.supplied h.paid
    continue-IsWithin r w (waiting, w') h = stopped-IsWithin w w' h.outside h.supplied h.paid

    run_all-IsWithin :
        (client : Client S R A)
        → ((r : R) (w : World S) → IsWithin t b w (client r w).1)
        → (rs : List R) (w : World S) → IsWithin t b w (run_all client rs w)
    unfolding run_all
    run_all-IsWithin client one [] w = record {
      supplied = λ k. omega arith;
      paid = λ k. omega arith;
    }
    run_all-IsWithin client one (r ∷ rs) w =
        let here = one r w in
        let rest = run_all-IsWithin client one rs (client r w).1 in
        record {
          supplied = λ k. omega (arith, here.supplied k, rest.supplied k);
          paid = λ k. omega (arith, here.paid k, rest.paid k);
        }

  multi_limited_step :
      (rpm rpd tpm : Option ℕ) (tpr : ℕ)
      → IsCounted
      → (r : R) (w : World S)
      → IsWithin
          (λ k. 0 + 0 + price tpm (estimate tpr) k)
          (price_of_all rpm rpd tpm (estimate tpr))
          w
          (multi_limited rpm rpd tpm tpr next r w).1
  unfolding multi_limited
  multi_limited_step rpm rpd tpm tpr counted r w =
      let n = estimate tpr in
      let two =
        continue-IsPaid (λ u. pass_limit rpd) _ _ _ _ w (pass_limit rpm w) (pass_limit-IsPaid rpm w)
          (λ u. pass_limit-IsPaid rpd _) in
      let three =
        continue-IsPaid (λ u. acquire_n tpm n) _ _ _ _ w _ two (λ u. acquire_n-IsPaid tpm n _) in
      subst (λ out. IsWithin (λ k. 0 + 0 + price tpm n k) (price_of_all rpm rpd tpm n) w out.1)
        (sym (
          continue_assoc (λ u. pass_limit rpd) (λ u v. continue (λ u'. next r) (acquire_n tpm n v))
            (pass_limit rpm w)
          ∙ continue_assoc (λ u. acquire_n tpm n) (λ u. next r) _))
        (continue-IsWithin (λ k. 0 + 0 + price tpm n k) (price_of_all rpm rpd tpm n) counted r w _
          three)

  -- Whatever happens while requests wait: of a sequence of requests, no more pass the limits on requests per
  -- minute and per day than there are tokens at the start, ticks to come and reserved credits; and those
  -- that pass the limit on tokens cost no more than its tokens and ticks.
  pub multi_limited-run_all :
      (rpm rpd tpm : Option ℕ) (tpr : ℕ)
      → IsCounted
      → (rs : List R) (w : World S)
      → ((i : ℕ)
          → (rpm ≡ some i) ⊎ (rpd ≡ some i)
          → count (run_all (multi_limited rpm rpd tpm tpr next) rs w).outside
            ≤ count w.outside + supply i w + credits_of w.credits)
        × ((i : ℕ)
            → tpm ≡ some i
            → count (run_all (multi_limited rpm rpd tpm tpr next) rs w).outside * estimate tpr
              ≤ count w.outside * estimate tpr + supply i w)
  multi_limited-run_all rpm rpd tpm tpr counted rs w =
      let after = run_all (multi_limited rpm rpd tpm tpr next) rs w in
      let within =
        run_all-IsWithin _ _ counted (multi_limited rpm rpd tpm tpr next)
          (multi_limited_step rpm rpd tpm tpr counted) rs w in
      (
        λ i h.
            let one : 1 ≤ price_of_all rpm rpd tpm (estimate tpr) i = ground (arith, h) in
            omega (
              arith,
              each_pays (count w.outside) (count after.outside)
                  (price_of_all rpm rpd tpm (estimate tpr) i) (supply i w + credits_of w.credits)
                  one (omega (arith, within.paid i)),
            ),
        λ i h.
            let same : price tpm (estimate tpr) i ≡ estimate tpr = ground (arith, h) in
            subst (λ n. count after.outside * n ≤ count w.outside * n + supply i w) same
              (omega (arith, within.supplied i)),
      )

-- `RateLimit` and `TokenDayLimit` do what `MultiLimitConstTokens` does with that one limit.
limited-multi_limited :
    {S R A : Type 0} (rl : Option ℕ) (tpr : ℕ) (next : Client S R A)
    → (rate_limited rl next ≡ multi_limited rl none none tpr next)
      × (token_day_limited rl tpr next ≡ multi_limited none none rl tpr next)
unfolding rate_limited token_day_limited multi_limited
limited-multi_limited rl tpr next = (
  fun_ext λ r. fun_ext λ w. unfold pass_limit acquire_n in refl,
  fun_ext λ r. fun_ext λ w. unfold pass_limit in refl,
)

-- Whatever happens while requests wait: of a sequence of requests, no more pass `RateLimit` than its limiter
-- has tokens at the start and ticks to come and the context has credits; and those that pass
-- `TokenDayLimit`, which takes no credits, cost no more than its limiter's tokens and ticks.
pub limited-run_all :
    {S R A : Type 0} (count : S → ℕ) (next : Client S R A) (i tpr : ℕ)
    → IsCounted count next
    → (rs : List R) (w : World S)
    → (count (run_all (rate_limited (some i) next) rs w).outside
        ≤ count w.outside + supply i w + credits_of w.credits)
      × (count (run_all (token_day_limited (some i) tpr next) rs w).outside * estimate tpr
          ≤ count w.outside * estimate tpr + supply i w)
limited-run_all count next i tpr counted rs w =
    let (rate, day) = limited-multi_limited (some i) tpr next in
    (
      rw rate
          ((multi_limited-run_all count next (some i) none none tpr counted rs w).0 i (inl refl)),
      rw day ((multi_limited-run_all count next none none (some i) tpr counted rs w).1 i refl),
    )
