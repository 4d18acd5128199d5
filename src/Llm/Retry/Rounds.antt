-- ===== src/Llm/Retry/Rounds.antt =====
-- The attempts that `Retry` of internal/llm/middleware/retry.go makes.
use insightify_core.Prelude.{
  ℤ, pos, negsuc, ℕ, zero, suc, ◌-◌, ◌<◌, ◌≡◌, refl, sym, ap, subst, true, false, none, some, ◌⊎◌,
  inl, inr, Option-cases, arith,
}
use insightify_core.Llm.Retry.{
  permanent, transient, context_error, Result, ok, err, Attempts, max_attempts, base_delay, delay,
  verdict, retry_loop, generate_json,
}

from_first :
    (P : ℕ → Type 0) (n : ℕ) → P 0 → ((j : ℕ) → j < n → P (suc j)) → (j : ℕ) → j < suc n → P j
from_first P n first later zero h = first
from_first P n first later (suc j) h = later j (omega arith)

module _ {S A E : Type 0} (client : Attempts S A E) (base : ℕ) where
  open client use {attempt, is_done, sleep}

  -- The state before the round `i + k`.
  unfoldable pub state_at : ℕ → ℕ → S → S
  state_at zero i s = s
  state_at (suc k) i s = state_at k (suc i) (sleep (delay base i) (attempt s).1)

  -- After the error of a round there is another: it is not permanent, and the context is not done.
  abbrev pub GoesOn : Result A E × S → Type 0
  GoesOn (ok a, s) = ⊥
  GoesOn (err (permanent e), s) = ⊥
  GoesOn (err (transient e), s) = is_done s ≡ false
  GoesOn (err context_error, s) = is_done s ≡ false

  -- A round ends the loop with `out`.
  abbrev pub Ends : Result A E × S → Result A E → Type 0
  Ends (ok a, s) out = out ≡ ok a
  Ends (err (permanent e), s) out = out ≡ err (permanent e)
  Ends (err (transient e), s) out = (is_done s ≡ true) × (out ≡ err context_error)
  Ends (err context_error, s) out = (is_done s ≡ true) × (out ≡ err context_error)

  verdict-some :
      (p : Result A E × S) (out : Result A E) → verdict p.0 (is_done p.1) ≡ some out → Ends p out
  unfolding verdict
  verdict-some (ok a, s) out h = cc
  verdict-some (err (permanent e), s) out h = cc
  verdict-some (err (transient e), s) out h = ground arith
  verdict-some (err context_error, s) out h = ground arith

  verdict-none : (p : Result A E × S) → verdict p.0 (is_done p.1) ≡ none → GoesOn p
  unfolding verdict
  verdict-none (ok a, s) h = cc
  verdict-none (err (permanent e), s) h = cc
  verdict-none (err (transient e), s) h = ground arith
  verdict-none (err context_error, s) h = ground arith

  -- What `rounds` rounds from the round `i` on return: `last` is the last one that is made.
  pub record IsRetried (rounds i : ℕ) (s : S) (out : Result A E × S) : Type 0 where
    pub last : ℕ
    pub within : last < rounds
    pub earlier : (j : ℕ) → j < last → GoesOn (attempt (state_at j i s))
    pub ends :
        (Ends (attempt (state_at last i s)) out.0 × (out.1 ≡ (attempt (state_at last i s)).1))
        ⊎ ((suc last ≡ rounds)
            × GoesOn (attempt (state_at last i s))
            × (out.0 ≡ (attempt (state_at last i s)).0)
            × (out.1 ≡ state_at rounds i s))

  retry_loop-IsRetried :
      (left i : ℕ) (s : S) → IsRetried (suc left) i s (retry_loop client base left i s)
  unfolding retry_loop state_at
  retry_loop-IsRetried zero i s =
      elim (Option-cases (verdict (attempt s).0 (is_done (attempt s).1))) [
        | inl e ↦
            rw (e, retry_loop)
              (record {
                last = 0;
                within = omega arith;
                earlier = λ j h. elim h [ ];
                ends = inr (refl, verdict-none (attempt s) e, refl, refl);
              })
        | inr (o, e) ↦
            rw (e, retry_loop)
              (record {
                last = 0;
                within = omega arith;
                earlier = λ j h. elim h [ ];
                ends = inl (verdict-some (attempt s) o e, refl);
              })
      ]
  retry_loop-IsRetried (suc left) i s =
      elim (Option-cases (verdict (attempt s).0 (is_done (attempt s).1))) [
        | inl e ↦
            let rest = retry_loop-IsRetried left (suc i) (sleep (delay base i) (attempt s).1) in
            rw (e, retry_loop)
              (record {
                last = suc rest.last;
                within = omega (arith, rest.within);
                earlier =
                    from_first (λ j. GoesOn (attempt (state_at j i s))) rest.last
                      (verdict-none (attempt s) e) rest.earlier;
                ends = elim rest.ends [
                  | inl h ↦ inl h
                  | inr (n, g, r, t) ↦ inr (ap suc n, g, r, t)
                ];
              })
        | inr (o, e) ↦
            rw (e, retry_loop)
              (record {
                last = 0;
                within = omega arith;
                earlier = λ j h. elim h [ ];
                ends = inl (verdict-some (attempt s) o e, refl);
              })
      ]

max_attempts_pos : (n : ℤ) → max_attempts n ≡ suc (max_attempts n - 1)
unfolding max_attempts
max_attempts_pos (pos zero) = omega arith
max_attempts_pos (pos (suc n)) = omega arith
max_attempts_pos (negsuc n) = omega arith

-- `GenerateJSON` makes at least one attempt and at most as many as given, with sleeps of doubling length
-- between, until one succeeds, one fails for good, or the context is done after one has failed; it returns
-- what this last one does, or the error of the context. If there is no such attempt all are made, each
-- followed by its sleep, and the result is the last error.
pub generate_json-IsRetried :
    {S A E : Type 0} (client : Attempts S A E) (max base : ℤ) (s : S)
    → IsRetried client (base_delay base) (max_attempts max) 0 s (generate_json client max base s)
unfolding generate_json
generate_json-IsRetried client max base s =
    subst (λ n. IsRetried client (base_delay base) n 0 s (generate_json client max base s))
      (sym (max_attempts_pos max))
      (retry_loop-IsRetried client (base_delay base) (max_attempts max - 1) 0 s)
