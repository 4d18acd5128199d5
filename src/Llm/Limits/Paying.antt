-- ===== src/Llm/Limits/Paying.antt =====
-- What the parts of a call pay: tokens, and credits in their place.
use insightify_core.Prelude.{
  ℕ, zero, suc, ◌+◌, ◌≤◌, ◌≡◌, refl, ◌∙◌, Option, none, some, if◌then◌else◌, Bool-cases, inl, inr,
  arith,
}
use insightify_core.Llm.Limits.{
  Result, ok, err, waiting, World, M, continue, take_credit, acquire, acquire_n, pass_limit,
}
use insightify_core.Llm.Limits.Waiting.{supply, credits_of, cost_of, price, select_loop-IsFair}

cost_of_add : {A : Type 0} (r : Result A) (m n : ℕ) → cost_of r (m + n) ≤ m + cost_of r n
cost_of_add (ok a) m n = omega arith
cost_of_add (err e) m n = omega arith
cost_of_add waiting m n = omega arith

cost_of-le : {A : Type 0} (r : Result A) (m n : ℕ) → m ≤ n → cost_of r m ≤ cost_of r n
cost_of-le (ok a) m n h = omega arith
cost_of-le (err e) m n h = omega arith
cost_of-le waiting m n h = omega arith

module _ {S : Type 0} where
  -- What a part of a call costs if it succeeds: so many tokens of each limiter, or so many tokens and credits
  -- together.
  pub record IsPaid {A : Type 0} (tokens both : ℕ → ℕ) (w : World S) (out : Result A × World S)
      : Type 0 where
    pub outside : out.1.outside ≡ w.outside
    pub credits : credits_of out.1.credits ≤ credits_of w.credits
    pub supplied : (k : ℕ) → supply k out.1 + cost_of out.0 (tokens k) ≤ supply k w
    pub paid :
        (k : ℕ)
        → supply k out.1 + credits_of out.1.credits + cost_of out.0 (both k)
          ≤ supply k w + credits_of w.credits

  acquire-IsPaid :
      (i : ℕ) (w : World S) → IsPaid (price (some i) 1) (price (some i) 1) w (acquire (some i) w)
  unfolding acquire
  acquire-IsPaid i w =
      let fair = select_loop-IsFair i w.script w in
      record {
        outside = fair.outside;
        credits = fair.credits;
        supplied = λ k. unfold supply in fair.supplied k;
        paid = λ k. unfold supply in omega (arith, fair.supplied k, fair.credits);
      }

  done-IsPaid : {A : Type 0} (a : A) (w : World S) → IsPaid (λ k. 0) (λ k. 0) w (ok a, w)
  done-IsPaid a w = record {
    outside = refl;
    credits = omega arith;
    supplied = λ k. omega arith;
    paid = λ k. omega arith;
  }

  module _ {A B : Type 0} (f : A → M S B) (t b u c : ℕ → ℕ) (w : World S) where
    -- One part after another: the prices add up.
    pub continue-IsPaid :
        (out : Result A × World S)
        → IsPaid t b w out
        → ((a : A) → IsPaid u c out.1 (f a out.1))
        → IsPaid (λ k. t k + u k) (λ k. b k + c k) w (continue f out)
    continue-IsPaid (ok a, w') first second =
        let next = second a in
        record {
          outside = next.outside ∙ first.outside;
          credits = omega (arith, next.credits, first.credits);
          supplied = λ k.
              omega (arith, first.supplied k, next.supplied k, cost_of_add (f a w').0 (t k) (u k));
          paid = λ k. omega (arith, first.paid k, next.paid k, cost_of_add (f a w').0 (b k) (c k));
        }
    continue-IsPaid (err e, w') first second = record {
      outside = first.outside;
      credits = first.credits;
      supplied = first.supplied;
      paid = first.paid;
    }
    continue-IsPaid (waiting, w') first second = record {
      outside = first.outside;
      credits = first.credits;
      supplied = first.supplied;
      paid = first.paid;
    }

  pub cheaper-IsPaid :
      {A : Type 0} (t b u c : ℕ → ℕ) (w : World S) (out : Result A × World S)
      → ((k : ℕ) → u k ≤ t k)
      → ((k : ℕ) → c k ≤ b k)
      → IsPaid t b w out
      → IsPaid u c w out
  cheaper-IsPaid t b u c w out less less' h = record {
    outside = h.outside;
    credits = h.credits;
    supplied = λ k. omega (arith, h.supplied k, cost_of-le out.0 (u k) (t k) (less k));
    paid = λ k. omega (arith, h.paid k, cost_of-le out.0 (c k) (b k) (less' k));
  }

  take_credit_lem :
      (w : World S)
      → ((take_credit w).1.outside ≡ w.outside)
        × (credits_of (take_credit w).1.credits + (if (take_credit w).0 then 1 else 0)
            ≡ credits_of w.credits)
        × ((k : ℕ) → supply k (take_credit w).1 ≡ supply k w)
  unfolding take_credit supply
  take_credit_lem w = (ground arith, ground arith, λ k. ground arith)

  pub pass_limit-IsPaid :
      (rl : Option ℕ) (w : World S) → IsPaid (λ k. 0) (price rl 1) w (pass_limit rl w)
  unfolding pass_limit
  pass_limit-IsPaid none w = done-IsPaid tt w
  pass_limit-IsPaid (some i) w =
      let (outside, credits, supplied) = take_credit_lem w in
      elim (Bool-cases (take_credit w).0) [
        | inl e ↦ rw e (record {
          outside = outside;
          credits = omega (arith, credits);
          supplied = λ k. omega (arith, supplied k);
          paid = λ k. ground (arith, supplied k, credits, e);
        })
        | inr e ↦
            let h = acquire-IsPaid i (take_credit w).1 in
            rw e (
              unfold acquire in
              record {
                outside = h.outside ∙ outside;
                credits = omega (arith, h.credits, credits);
                supplied = λ k. omega (
                  arith,
                  supplied k,
                  h.supplied k,
                  cost_of-le (acquire (some i) (take_credit w).1).0 0 (price (some i) 1 k)
                      (omega arith),
                );
                paid = λ k. omega (arith, supplied k, credits, h.paid k);
              })
      ]

  acquire_n-IsPaid-some :
      (i n : ℕ) (w : World S)
      → IsPaid (price (some i) n) (price (some i) n) w (acquire_n (some i) n w)
  unfolding acquire_n
  acquire_n-IsPaid-some i zero w =
      cheaper-IsPaid _ _ (price (some i) 0) (price (some i) 0) w _ (λ k. ground arith)
        (λ k. ground arith) (done-IsPaid tt w)
  acquire_n-IsPaid-some i (suc n) w =
      let p = price (some i) 1 in
      let q = price (some i) n in
      cheaper-IsPaid _ _ (price (some i) (suc n)) (price (some i) (suc n)) w _ (λ k. ground arith)
        (λ k. ground arith)
        (continue-IsPaid (λ u. acquire_n (some i) n) p p q q w (acquire (some i) w)
          (acquire-IsPaid i w) (λ u. acquire_n-IsPaid-some i n (acquire (some i) w).1))

  pub acquire_n-IsPaid :
      (rl : Option ℕ) (n : ℕ) (w : World S) → IsPaid (price rl n) (price rl n) w (acquire_n rl n w)
  unfolding acquire_n
  acquire_n-IsPaid none n w = done-IsPaid tt w
  acquire_n-IsPaid (some i) n w = acquire_n-IsPaid-some i n w
