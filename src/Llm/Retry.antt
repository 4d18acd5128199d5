-- ===== src/Llm/Retry.antt =====
-- `Retry` of internal/llm/middleware/retry.go. `GenerateJSON` and `GenerateJSONStream` are the same loop around one
-- attempt, which is a parameter, as are the test of the context and the sleep.
pub mod Rounds
use insightify_core.Prelude.{
  ℤ, pos, negsuc, ℕ, zero, suc, ◌+◌, ◌*◌, ◌%◌, ◌^◌, ◌-◌, ◌<◌, ◌≤◌, ◌≡◌, refl, ap, Bool, true, false,
  Option, none, some, Option-cases, ltb, ◌⊎◌, inl, inr, if◌then◌else◌, Bool-cases, arith,
}

-- An error of the client is a `PermanentError`, or wraps one, or is another.
pub data Error (E : Type 0) : Type 0 where
  permanent transient : E → Error E
  context_error : Error E

pub data Result (A E : Type 0) : Type 0 where
  ok : A → Result A E
  err : Error E → Result A E

-- What one attempt with the wrapped client returns, whether the context is done, and `time.Sleep`.
pub record Attempts (S A E : Type 0) : Type 0 where
  pub attempt : S → Result A E × S
  pub is_done : S → Bool
  pub sleep : ℕ → S → S

unfoldable pub max_attempts : ℤ → ℕ
max_attempts (pos zero) = 1
max_attempts (pos (suc n)) = suc n
max_attempts (negsuc n) = 1

-- 300 milliseconds.
unfoldable pub base_delay : ℤ → ℕ
base_delay (pos zero) = 300000000
base_delay (pos (suc n)) = suc n
base_delay (negsuc n) = 300000000

-- `base * time.Duration(1<<i)` in 64 bits; to sleep for a negative time is not to sleep.
unfoldable pub delay : ℕ → ℕ → ℕ
delay base i =
    let d = (base * 2 ^ i) % 0x10000000000000000 in if ltb d 0x8000000000000000 then d else 0

-- What a round returns, if it is the last: a success, a permanent error, or the error of the context, which is
-- looked at after any other error.
unfoldable pub verdict : {A E : Type 0} → Result A E → Bool → Option (Result A E)
verdict (ok a) cancelled = some (ok a)
verdict (err (permanent e)) cancelled = some (err (permanent e))
verdict (err (transient e)) cancelled = if cancelled then some (err context_error) else none
verdict (err context_error) cancelled = if cancelled then some (err context_error) else none

module _ {S A E : Type 0} (client : Attempts S A E) (base : ℕ) where
  open client use {attempt, is_done, sleep}

  -- The loop from the round `i` on, with so many rounds after it.
  unfoldable pub retry_loop : ℕ → ℕ → S → Result A E × S
  unfolding delay verdict
  retry_loop zero i s =
      let (r, s') = attempt s in
      elim (verdict r (is_done s')) [ some out ↦ (out, s') | none ↦ (r, sleep (delay base i) s') ]
  retry_loop (suc left) i s =
      let (r, s') = attempt s in
      elim (verdict r (is_done s')) [
        | some out ↦ (out, s')
        | none ↦ retry_loop left (suc i) (sleep (delay base i) s')
      ]

-- `GenerateJSON` of the client that `Retry` makes.
unfoldable pub generate_json : {S A E : Type 0} → Attempts S A E → ℤ → ℤ → S → Result A E × S
unfolding retry_loop base_delay max_attempts
generate_json client max base s = retry_loop client (base_delay base) (max_attempts max - 1) 0 s
