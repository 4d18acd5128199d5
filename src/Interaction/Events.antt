-- ===== src/Interaction/Events.antt =====
-- The events of a subscription.
use insightify_core.Prelude.{
  ℕ, suc, ◌≤◌, ◌<◌, ◌≡◌, refl, List, [], ◌∷◌, ◌++◌, length, length-append, ltb, ◌⊎◌, inl, inr, true,
  Bool-cases, arith,
}
use insightify_core.Interaction.Service.{push_event}

-- On a channel with room for an event that holds no more than it may, the new event comes last, the
-- channel holds no more than it may, and what was there stays, less the oldest if the channel was full.
pub push_event_lem :
    {E : Type 0} (capacity : ℕ) (e : E) (out : List E)
    → 0 < capacity
    → length out ≤ capacity
    → (kept : List E) × (push_event capacity e out ≡ kept ++ (e ∷ []))
      × (length (push_event capacity e out) ≤ capacity)
      × ((kept ≡ out) ⊎ ((oldest : E) × (out ≡ oldest ∷ kept) × (length out ≡ capacity)))
unfolding push_event
push_event_lem capacity e [] room within = elim (Bool-cases (ltb 0 capacity)) [
  | inl b ↦ rw b ([], refl, omega arith, inl refl)
  | inr b ↦ absurd (ground arith)
]
push_event_lem capacity e (x ∷ out) room within =
    elim (Bool-cases (ltb (suc (length out)) capacity)) [
      | inl b ↦ rw b (x ∷ out, refl, ground (arith, length-append (x ∷ out) (e ∷ [])), inl refl)
      | inr b ↦
          let last : ltb (length out) capacity ≡ true = ground arith in
          rw (b, last)
            (out, refl, omega (arith, length-append out (e ∷ [])), inr (x, refl, ground arith))
    ]
