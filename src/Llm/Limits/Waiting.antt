-- ===== src/Llm/Limits/Waiting.antt =====
-- What a call may take while it waits: the tokens there are and those that the tickers add.
use insightify_core.Prelude.{
  ℕ, suc, ◌+◌, ◌≤◌, ◌≡◌, refl, ◌∙◌, true, Option, none, some, List, [], ◌∷◌, ◌==◌, if◌then◌else◌,
  Bool-cases, inl, inr, arith,
}
use insightify_core.Llm.Limits.{
  Case, done, stop, token, Event, tick, taken, stopped, cancelled, spent, choose, Result, ok, err,
  waiting, World, refill, with_limiter, take_token, take_credit, happen, is_ready, selected,
  select_loop,
}

-- How often the ticker of a limiter fires.
unfoldable pub ticks : ℕ → List Event → ℕ
ticks i [] = 0
ticks i (tick j ∷ es) = if i == j then suc (ticks i es) else ticks i es
ticks i (e ∷ es) = ticks i es

abbrev pub credits_of : Option ℕ → ℕ
credits_of none = 0
credits_of (some c) = c

-- A price is paid by success alone.
abbrev pub cost_of : {A : Type 0} → Result A → ℕ → ℕ
cost_of (ok a) n = n
cost_of (err e) n = 0
cost_of waiting n = 0

-- The price of `n` tokens of a limiter, which may be nil.
abbrev pub price : Option ℕ → ℕ → ℕ → ℕ
price none n k = 0
price (some i) n k = if i == k then n else 0

module _ {S : Type 0} where
  -- The tokens that a limiter has and will be given.
  unfoldable pub supply : ℕ → World S → ℕ
  unfolding ticks
  supply i w = (w.limiter i).tokens + ticks i w.script

  happen_tokens :
      (e : Event) (es : List Event) (w : World S) (k : ℕ)
      → ((happen e w).limiter k).tokens + ticks k es ≤ (w.limiter k).tokens + ticks k (e ∷ es)
  unfolding happen ticks with_limiter take_token refill take_credit
  happen_tokens (tick i) es w k = ground arith
  happen_tokens (taken i) es w k = ground arith
  happen_tokens (stopped i) es w k = ground arith
  happen_tokens cancelled es w k = omega arith
  happen_tokens spent es w k = ground arith
  happen_tokens (choose c) es w k = omega arith

  happen_credits :
      (e : Event) (w : World S) → credits_of (happen e w).credits ≤ credits_of w.credits
  unfolding happen with_limiter take_token take_credit
  happen_credits (tick i) w = omega arith
  happen_credits (taken i) w = omega arith
  happen_credits (stopped i) w = omega arith
  happen_credits cancelled w = omega arith
  happen_credits spent w = ground arith
  happen_credits (choose c) w = omega arith

  happen_outside : (e : Event) (w : World S) → (happen e w).outside ≡ w.outside
  unfolding happen with_limiter take_token take_credit
  happen_outside (tick i) w = refl
  happen_outside (taken i) w = refl
  happen_outside (stopped i) w = refl
  happen_outside cancelled w = refl
  happen_outside spent w = ground arith
  happen_outside (choose c) w = refl

  -- A wait for a token of the limiter `i` from the events `es` on.
  pub record IsFair (i : ℕ) (es : List Event) (w : World S) (out : Result (Unit {0}) × World S)
      : Type 0 where
    pub outside : out.1.outside ≡ w.outside
    pub credits : credits_of out.1.credits ≤ credits_of w.credits
    pub supplied :
        (k : ℕ)
        → supply k out.1 + cost_of out.0 (price (some i) 1 k) ≤ (w.limiter k).tokens + ticks k es

  happen-IsFair :
      (i : ℕ) (e : Event) (es : List Event) (w : World S) (out : Result (Unit {0}) × World S)
      → IsFair i es (happen e w) out
      → IsFair i (e ∷ es) w out
  happen-IsFair i e es w out h = record {
    outside = h.outside ∙ happen_outside e w;
    credits = omega (arith, h.credits, happen_credits e w);
    supplied = λ k. omega (arith, h.supplied k, happen_tokens e es w k);
  }

  selected-IsFair :
      (i : ℕ) (c : Case) (es : List Event) (w : World S)
      → is_ready i c w ≡ true
      → IsFair i (choose c ∷ es) w (selected i c (record w { script = es }))
  unfolding selected is_ready take_token with_limiter supply ticks
  selected-IsFair i done es w ready = record {
    outside = refl;
    credits = omega arith;
    supplied = λ k. ground arith;
  }
  selected-IsFair i stop es w ready = record {
    outside = refl;
    credits = omega arith;
    supplied = λ k. ground arith;
  }
  selected-IsFair i token es w ready = record {
    outside = refl;
    credits = omega arith;
    supplied = λ k. ground arith;
  }

  pub select_loop-IsFair :
      (i : ℕ) (es : List Event) (w : World S) → IsFair i es w (select_loop i es w)
  unfolding select_loop
  select_loop-IsFair i [] w = record {
    outside = refl;
    credits = omega arith;
    supplied = λ k. unfold supply ticks in ground arith;
  }
  select_loop-IsFair i (choose c ∷ es) w = elim (Bool-cases (is_ready i c w)) [
    | inl e ↦ rw e (selected-IsFair i c es w e)
    | inr e ↦ rw e (unfold happen in happen-IsFair i (choose c) es w _ (select_loop-IsFair i es w))
  ]
  select_loop-IsFair i (tick j ∷ es) w =
      happen-IsFair i (tick j) es w _ (select_loop-IsFair i es (happen (tick j) w))
  select_loop-IsFair i (taken j ∷ es) w =
      happen-IsFair i (taken j) es w _ (select_loop-IsFair i es (happen (taken j) w))
  select_loop-IsFair i (stopped j ∷ es) w =
      happen-IsFair i (stopped j) es w _ (select_loop-IsFair i es (happen (stopped j) w))
  select_loop-IsFair i (cancelled ∷ es) w =
      happen-IsFair i cancelled es w _ (select_loop-IsFair i es (happen cancelled w))
  select_loop-IsFair i (spent ∷ es) w =
      happen-IsFair i spent es w _ (select_loop-IsFair i es (happen spent w))
