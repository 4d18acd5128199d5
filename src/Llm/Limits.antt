-- ===== src/Llm/Limits.antt =====
-- The limits on the rate of calls (internal/llm/middleware/rate_limit.go and chain.go): token buckets, credits, and
-- the clients that wait for both.
pub mod Waiting
pub mod Paying
pub mod Rates
use insightify_core.Prelude.{
  ℤ, pos, negsuc, ℕ, zero, suc, ◌+◌, ◌-◌, ◌≡◌, Bool, true, false, not, ◌&&◌, Option, none, some,
  List, [], ◌∷◌, ltb, ◌==◌, if◌then◌else◌,
}

-- `rpsLimiter`: the number of tokens in the channel, its capacity, and whether `stopCh` is closed. A limiter
-- is known by a number; a pointer may be nil.
pub record Limiter : Type 0 where
  pub tokens : ℕ
  pub burst : ℕ
  pub is_stopped : Bool

-- The cases of the `select` in `Acquire`.
pub data Case : Type 0 where
  done stop token : Case

-- What happens while a call waits: the ticker of a limiter fires, another caller takes a token or, with the
-- same context, a credit, a limiter is stopped, the context is cancelled; and the case that the call's own
-- `select` takes, if that case is ready.
pub data Event : Type 0 where
  tick taken stopped : ℕ → Event
  cancelled spent : Event
  choose : Case → Event

pub data Error : Type 0 where
  context_error context_canceled : Error

pub data Result {ℓ} (A : Type ℓ) : Type ℓ where
  ok : A → Result A
  err : Error → Result A
  waiting : Result A

-- What a call sees: the limiters, its context with the credits that are reserved in it, and what will happen
-- while it waits. `outside` is what the limits do not look into.
pub record World (S : Type 0) : Type 0 where
  pub limiter : ℕ → Limiter
  pub is_cancelled : Bool
  pub credits : Option ℕ
  pub script : List Event
  pub outside : S

abbrev pub M : Type 0 → Type 0 → Type 0
M S A = World S → Result A × World S

abbrev pub continue : {S A B : Type 0} → (A → M S B) → Result A × World S → Result B × World S
continue f (ok a, w) = f a w
continue f (err e, w) = (err e, w)
continue f (waiting, w) = (waiting, w)

infixl 5 ◌>>=◌ ◌>>◌
abbrev pub ◌>>=◌ : {S A B : Type 0} → M S A → (A → M S B) → M S B
◌>>=◌ m f w = continue f (m w)

abbrev pub ◌>>◌ : {S B : Type 0} → M S (Unit {0}) → M S B → M S B
m >> k = m >>= λ _. k

-- `newRPSLimiter`, which is nil unless the rate is positive.
unfoldable pub new_rps_limiter : Bool → ℤ → Option Limiter
new_rps_limiter false burst = none
new_rps_limiter true (pos zero) = some (record { tokens = 1; burst = 1; is_stopped = false })
new_rps_limiter true (pos (suc n)) =
    some (record { tokens = suc n; burst = suc n; is_stopped = false })
new_rps_limiter true (negsuc n) = some (record { tokens = 1; burst = 1; is_stopped = false })

-- A tick of the goroutine that refills, which ends when the limiter is stopped.
unfoldable pub refill : Limiter → Limiter
refill l =
    if not l.is_stopped && ltb l.tokens l.burst then record l { tokens = suc l.tokens } else l

module _ {S : Type 0} where
  unfoldable pub with_limiter : ℕ → Limiter → World S → World S
  with_limiter i l w = record w { limiter = λ j. if i == j then l else w.limiter j }

  unfoldable pub take_token : ℕ → World S → World S
  unfolding with_limiter
  take_token i w = with_limiter i (record (w.limiter i) { tokens = (w.limiter i).tokens - 1 }) w

  -- `TakeCredit`, as one step.
  unfoldable pub take_credit : World S → Bool × World S
  take_credit w = elim w.credits [
    | none ↦ (false, w)
    | some c ↦ if c == 0 then (false, w) else (true, record w { credits = some (c - 1) })
  ]

  unfoldable pub happen : Event → World S → World S
  unfolding with_limiter take_token refill take_credit
  happen (tick i) w = with_limiter i (refill (w.limiter i)) w
  happen (taken i) w = take_token i w
  happen (stopped i) w = with_limiter i (record (w.limiter i) { is_stopped = true }) w
  happen cancelled w = record w { is_cancelled = true }
  happen spent w = (take_credit w).1
  happen (choose c) w = w

  unfoldable pub is_ready : ℕ → Case → World S → Bool
  is_ready i done w = w.is_cancelled
  is_ready i stop w = (w.limiter i).is_stopped
  is_ready i token w = not ((w.limiter i).tokens == 0)

  unfoldable pub selected : ℕ → Case → World S → Result (Unit {0}) × World S
  unfolding take_token
  selected i done w = (err context_error, w)
  selected i stop w = (err context_canceled, w)
  selected i token w = (ok tt, take_token i w)

  -- The `select` of `Acquire`: events happen until it takes a case.
  unfoldable pub select_loop : ℕ → List Event → World S → Result (Unit {0}) × World S
  unfolding happen is_ready selected
  select_loop i [] w = (waiting, record w { script = [] })
  select_loop i (choose c ∷ es) w =
      let rest = select_loop i es w in
      if is_ready i c w then selected i c (record w { script = es }) else rest
  select_loop i (e ∷ es) w = select_loop i es (happen e w)

  unfoldable pub acquire : Option ℕ → M S (Unit {0})
  unfolding select_loop
  acquire none w = (ok tt, w)
  acquire (some i) w = select_loop i w.script w

  unfoldable pub acquire_n : Option ℕ → ℕ → M S (Unit {0})
  unfolding acquire
  acquire_n none n w = (ok tt, w)
  acquire_n (some i) zero w = (ok tt, w)
  acquire_n (some i) (suc n) w = (acquire (some i) >> acquire_n (some i) n) w

  -- One request against one limit, as each `GenerateJSON` does it.
  unfoldable pub pass_limit : Option ℕ → M S (Unit {0})
  unfolding take_credit acquire
  pass_limit none w = (ok tt, w)
  pass_limit (some i) w =
      let (had_credit, w') = take_credit w in
      if had_credit then (ok tt, w') else acquire (some i) w'

-- A client: its methods `GenerateJSON` and `GenerateJSONStream`, with the arguments in the request.
abbrev pub Client : Type 0 → Type 0 → Type 0 → Type 0
Client S R A = R → M S A

-- At least 1.
unfoldable pub estimate : ℕ → ℕ
estimate tpr = if tpr == 0 then 1 else tpr

module _ {S R A : Type 0} where
  -- `rateLimited`.
  unfoldable pub rate_limited : Option ℕ → Client S R A → Client S R A
  unfolding pass_limit
  rate_limited rl next r = pass_limit rl >> next r

  -- `multiLimited`.
  unfoldable pub multi_limited : Option ℕ → Option ℕ → Option ℕ → ℕ → Client S R A → Client S R A
  unfolding pass_limit acquire_n estimate
  multi_limited rpm rpd tpm tpr next r = do
    pass_limit rpm
    pass_limit rpd
    acquire_n tpm (estimate tpr)
    next r

  -- `tokenDayLimited`.
  unfoldable pub token_day_limited : Option ℕ → ℕ → Client S R A → Client S R A
  unfolding acquire_n estimate
  token_day_limited tpd tpr next r = do acquire_n tpd (estimate tpr); next r

-- `Wrap`: the first middleware is the outermost.
unfoldable pub wrap : {C : Type 0} → C → List (C → C) → C
wrap inner [] = inner
wrap inner (m ∷ ms) = m (wrap inner ms)
