-- ===== src/Tests/Models.antt =====
-- The middleware for language models on a few calls.
use insightify_core.Prelude.{
  pos, ℕ, suc, ◌+◌, ◌*◌, ◌≤◌, ◌≡◌, refl, ◌⊎◌, Bool, true, false, Option, none, some, List, [], ◌∷◌,
  ◌==◌, if◌then◌else◌, ltb, arith,
}
use insightify_core.Prelude.Text.{Text, codes, text_eq}
use insightify_core.Llm.Limits.{
  tick, cancelled, choose, token, ok, World, Client, estimate, rate_limited, token_day_limited,
  multi_limited, acquire,
}
use insightify_core.Llm.Limits.Waiting.{supply, credits_of}
use insightify_core.Llm.Limits.Rates.{run_all, IsCounted, multi_limited-run_all, limited-run_all}
use insightify_core.Llm.Credits.{advance_all, taken, reserve_permits}
use insightify_core.Llm.Credits.Leases.{supply-reserve_permits}
use insightify_core.Llm.Credits.Interleaving.{askers, refused, advance_all-taken}
use insightify_core.Llm.Credits.Progress.{operations, operations-askers}
use insightify_core.Llm.Retry
use insightify_core.Llm.Retry.{
  Attempts, transient, permanent, base_delay, max_attempts, generate_json,
}
use insightify_core.Llm.Retry.Rounds.{IsRetried, generate_json-IsRetried}
use insightify_core.Llm.Usage.{Call}
use insightify_core.Llm.Usage.Tallies.{
  record_all, tally, totals, day_of, stat_of, is_of_day, is_of_model, record_all-tally,
}

program : Unit {0}
unfolding run_all multi_limited rate_limited acquire estimate supply advance_all taken generate_json
    record_all text_eq tally day_of stat_of askers reserve_permits
program = tt

-- A client that counts its calls.
abbrev counting : Client ℕ ℕ ℕ
counting r w = (ok r, record w { outside = suc w.outside })

counting-IsCounted : IsCounted (λ n. n) counting
unfolding supply
counting-IsCounted = record {
  counted = λ r w. omega arith;
  credits = λ r w. omega arith;
  supplied = λ r w k. omega arith;
}

-- Limiter 0 is for requests, limiter 1 for tokens. There is one credit.
abbrev start : World ℕ
start = record {
  limiter = λ i. record { tokens = if i == 0 then 1 else 4; burst = 4; is_stopped = false };
  is_cancelled = false;
  credits = some 1;
  script =
      choose token
      ∷ choose token
      ∷ choose token
      ∷ tick 0
      ∷ choose token
      ∷ choose token
      ∷ choose token
      ∷ cancelled
      ∷ [];
  outside = 0;
}

abbrev requests : List ℕ
requests = 7 ∷ 8 ∷ 9 ∷ []

-- A credit and a token, and then the fourth token pays half of the third request.
two_pass : (run_all (multi_limited (some 0) none (some 1) 2 counting) requests start).outside ≡ 2
unfolding program
two_pass = refl

multi_limited-run_all_example :
    ((i : ℕ)
      → (◌≡◌ {A = Option ℕ} (some 0) (some i)) ⊎ (none ≡ some i)
      → (run_all (multi_limited (some 0) none (some 1) 2 counting) requests start).outside
        ≤ start.outside + supply i start + credits_of start.credits)
    × ((i : ℕ)
        → ◌≡◌ {A = Option ℕ} (some 1) (some i)
        → (run_all (multi_limited (some 0) none (some 1) 2 counting) requests start).outside
            * estimate 2
          ≤ start.outside * estimate 2 + supply i start)
multi_limited-run_all_example =
    multi_limited-run_all (λ n. n) counting (some 0) none (some 1) 2 counting-IsCounted requests
      start

limited-run_all_example :
    ((run_all (rate_limited (some 1) counting) requests start).outside
      ≤ start.outside + supply 1 start + credits_of start.credits)
    × ((run_all (token_day_limited (some 1) 2 counting) requests start).outside * estimate 2
        ≤ start.outside * estimate 2 + supply 1 start)
limited-run_all_example = limited-run_all (λ n. n) counting 1 2 counting-IsCounted requests start

-- Three callers and two credits: the second loses its first swap.
abbrev order : List ℕ
order = 0 ∷ 1 ∷ 0 ∷ 1 ∷ 1 ∷ 1 ∷ 2 ∷ []

two_taken : taken (advance_all order (record { n = 2; callers = askers 3 })).callers ≡ 2
unfolding program
two_taken = refl

advance_all-taken_example :
    let s = advance_all order (record { n = 2; callers = askers 3 }) in
    (taken s.callers + s.n ≡ 2) × ((refused s.callers ≡ 0) ⊎ (taken s.callers ≡ 2))
advance_all-taken_example = advance_all-taken 2 3 order

operations-askers_example :
    operations order (record { n = 2; callers = askers 3 }) ≤ 2 * 3 + 2 * (2 * 3)
operations-askers_example = operations-askers 2 3 order

abbrev two_credits : Option ℕ
two_credits = some 2

two_leased : (reserve_permits (some (acquire (some 1))) (pos 2) start).0 ≡ ok two_credits
unfolding program
two_leased = refl

supply-reserve_permits_example :
    (two_credits ≡ some 2)
    × (supply 1 (reserve_permits (some (acquire (some 1))) (pos 2) start).1 + 2 ≤ supply 1 start)
supply-reserve_permits_example =
    supply-reserve_permits 1 2 start two_credits (omega arith) (omega arith) two_leased

-- The state counts the attempts and adds up the sleeps. The third attempt succeeds.
abbrev flaky : Attempts (ℕ × ℕ) ℕ ℕ
flaky = record {
  attempt = λ s. (if ltb s.0 2 then Retry.err (transient s.0) else Retry.ok 5, (s.0 + 1, s.1));
  is_done = λ s. false;
  sleep = λ d s. (s.0, s.1 + d);
}

third_succeeds : generate_json flaky (pos 4) (pos 10) (0, 0) ≡ (Retry.ok 5, (3, 30))
unfolding program
third_succeeds = refl

-- It sleeps after the last attempt too.
gives_up : generate_json flaky (pos 2) (pos 10) (0, 0) ≡ (Retry.err (transient 1), (2, 30))
unfolding program
gives_up = refl

generate_json_example :
    IsRetried flaky
      (base_delay (pos 10))
      (max_attempts (pos 4))
      0
      (0, 0)
      (generate_json flaky (pos 4) (pos 10) (0, 0))
generate_json_example = generate_json-IsRetried flaky (pos 4) (pos 10) (0, 0)

abbrev call : Text → Text → ℕ → Bool → Call
call day model tokens has_err = record {
  model = model;
  tokens = tokens;
  has_err = has_err;
  day = day;
  at_time = codes "noon";
}

abbrev three_calls : List Call
three_calls =
    call (codes "d1") (codes "a") 10 false
    ∷ call (codes "d1") (codes "b") 5 true
    ∷ call (codes "d2") (codes "a") 1 false
    ∷ []

day_counted :
    totals (day_of (codes "d1") (record_all three_calls none))
    ≡ record { requests = 2; tokens = 15; errors = 1 }
unfolding program
day_counted = refl

record_all-tally_example :
    (totals (day_of (codes "d1") (record_all three_calls none))
      ≡ tally (is_of_day (codes "d1")) three_calls (totals (day_of (codes "d1") none)))
    × (stat_of (codes "a") (day_of (codes "d1") (record_all three_calls none))
        ≡ tally
            (is_of_model (codes "d1") (codes "a"))
            three_calls
            (stat_of (codes "a") (day_of (codes "d1") none)))
record_all-tally_example = record_all-tally (codes "d1") (codes "a") three_calls none
