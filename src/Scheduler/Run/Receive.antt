-- ===== src/Scheduler/Run/Receive.antt =====
-- A finished chunk is taken from those in flight.
use mathlib.Core.Option.{some-injective}
use insightify_core.Prelude.{
  subst, ℕ, zero, suc, ◌≡◌, refl, inl, inr, ◌||◌, none, some, List, [], ◌∷◌, length, Option-cases,
  arith,
}
use insightify_core.Scheduler.Sets.{has, Distinct, has-append}
use insightify_core.Scheduler.Chunk.{Plan}
use insightify_core.Scheduler.Launch.{State}
use insightify_core.Scheduler.Launch.InFlight.{
  All, flat, Apart, IsClosed, Distinct-append, append-Distinct,
}
use insightify_core.Scheduler.Launch.Sound.{IsSound}
use insightify_core.Scheduler.Run.{take_chunk}

-- The chunk at a place, taken out of the list.
pub record Takes (chunk : List ℕ) (others cs : List (List ℕ)) : Type 1 where
  pub one_less : length cs ≡ suc (length others)
  pub members : (x : ℕ) → has x (flat cs) ≡ (has x chunk || has x (flat others))
  pub distinct :
      Distinct (flat cs) → Distinct chunk × Distinct (flat others) × Apart chunk (flat others)
  pub all : (P : List ℕ → Type 0) → All P cs → All P others

Takes-skip : (c d : List ℕ) (cs ds : List (List ℕ)) → Takes d ds cs → Takes d (c ∷ ds) (c ∷ cs)
Takes-skip c d cs ds t = record {
  one_less = omega (arith, t.one_less);
  members = λ x. ground (arith, has-append x c (flat cs), has-append x c (flat ds), t.members x);
  distinct = λ all.
      let (dc, dcs, apart) = Distinct-append c (flat cs) all in
      let (dd, dds, off) = t.distinct dcs in
      (
        dd,
        append-Distinct c (flat ds) dc dds (λ x m. ground (arith, apart x m, t.members x)),
        λ x m. ground (arith, has-append x c (flat ds), off x m, apart x, t.members x),
      );
  all = λ P h. (h.0, t.all P h.1);
}

pub take_chunk-Takes :
    (k : ℕ) (cs : List (List ℕ)) (r : List ℕ × List (List ℕ))
    → take_chunk k cs ≡ some r
    → Takes r.0 r.1 cs
unfolding take_chunk
take_chunk-Takes zero [] r e = absurd (cc e)
take_chunk-Takes (suc k) [] r e = absurd (cc e)
take_chunk-Takes zero (c ∷ cs) r e =
    subst (λ q. Takes q.0 q.1 (c ∷ cs)) (some-injective (c, cs) r e)
      (record {
        one_less = refl;
        members = λ x. has-append x c (flat cs);
        distinct = Distinct-append c (flat cs);
        all = λ P h. h.1;
      })
take_chunk-Takes (suc k) (c ∷ cs) r e = elim (Option-cases (take_chunk k cs)) [
  | inl none_left ↦ absurd (nothing none_left)
  | inr ((d, ds), found) ↦
      subst (λ q. Takes q.0 q.1 (c ∷ cs))
        (some-injective (d, c ∷ ds) r (rw (found, take_chunk) at e))
        (Takes-skip c d cs ds (take_chunk-Takes k cs (d, ds) found))
]
  where
    nothing : take_chunk k cs ≡ none → ⊥
    nothing h = let f = rw (h, take_chunk) at e in cc

-- The state in which the taken chunk is still to be marked is sound.
pub landed-IsSound :
    (plan : Plan) (n_parallel : ℕ) (s : State) (chunk : List ℕ) (others : List (List ℕ))
    → IsSound plan n_parallel [] s
    → Takes chunk others s.inflight
    → IsSound plan n_parallel chunk (record s { inflight = others })
unfolding has
landed-IsSound plan n_parallel s chunk others h t =
    let (dc, dothers, apart) = t.distinct h.flying in
    record {
      size = h.size;
      degrees = h.degrees;
      ready = λ x m. elim (h.ready x m) [
        | inl d ↦ inl (ground arith)
        | inr k ↦ inr (record {
          below = k.below;
          uncompleted = k.uncompleted;
          unbusy = ground (arith, k.unbusy, t.members x);
          needed = k.needed;
          ready = k.ready;
        })
      ];
      closed = t.all (IsClosed plan.adj s.completed) h.closed;
      flying = dothers;
      landing = dc;
      apart = apart;
      undone = λ x m. ground (arith, h.undone x m, t.members x, has-append x chunk (flat others));
      within = λ x m. h.within x (ground (arith, t.members x));
      bounded = omega (arith, h.bounded, t.one_less);
      once = h.once;
      all_launched =
          λ x. ground (arith, h.all_launched x, t.members x, has-append x chunk (flat others));
      fit = h.fit;
    }
