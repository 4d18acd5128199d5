-- ===== src/Act/Routing.antt =====
-- The routing of user input and the two allow lists (route.go, policy.go).
use mathlib.Core.Logic.{⊎_elim}
use mathlib.Core.List.{Memᴰ}
use mathlib.Core.List.Memᴰ
use insightify_core.Prelude.{
  ℕ, ◌≡◌, refl, ◌↔◌, ◌⊎◌, inl, inr, Bool, true, false, List, [], ◌∷◌, List-cases, Bool-cases, arith,
}
use insightify_core.Prelude.Text.{
  Text, text_eq, text_eq_iff, is_space, trim_space, trim_space-map, trim_space_idem,
}
use insightify_core.Act.{
  to_lower, is_node_create_actor_allowed, any_worker, is_worker_allowed, matches_any,
  suggest_keywords, search_keywords, route_hits, route_input, should_fallback,
}

route_hits_fallback :
    (a b : Bool) → (should_fallback (route_hits a b).confidence ≡ true) ↔ ((a ≡ true) × (b ≡ true))
unfolding route_hits should_fallback
route_hits_fallback true true = (λ _. (refl, refl), λ _. refl)
route_hits_fallback true false = (λ h. cc, λ h. cc)
route_hits_fallback false true = (λ h. cc, λ h. cc)
route_hits_fallback false false = (λ h. cc, λ h. cc)

module _ (lower : ℕ → ℕ) where
  -- How a key is compared.
  abbrev pub folded : Text → Text
  folded s = trim_space (to_lower lower s)

  -- Some listed worker has the key `k`.
  abbrev pub Lists : Text → List Text → Type 0
  Lists k allowed = (a : Text) × Memᴰ a allowed × (folded a ≡ k)

  Lists-cons :
      (k a : Text) (allowed : List Text) → Lists k (a ∷ allowed) → (folded a ≡ k) ⊎ Lists k allowed
  Lists-cons k a allowed (b, Memᴰ.head e, same) = inl (rw (← e) same)
  Lists-cons k a allowed (b, Memᴰ.tail m, same) = inr (b, m, same)

  any_worker_iff :
      (k : Text) (allowed : List Text) → (any_worker lower k allowed ≡ true) ↔ Lists k allowed
  unfolding any_worker
  any_worker_iff k [] = (λ h. cc, λ p. absurd (Memᴰ.not-nil p.1))
  any_worker_iff k (a ∷ allowed) = (
    λ h. elim (Bool-cases (text_eq (folded a) k)) [
      | inl e ↦ (a, Memᴰ.head refl, (text_eq_iff (folded a) k).0 e)
      | inr e ↦
          let (b, m, same) = (any_worker_iff k allowed).0 (ground arith) in (b, Memᴰ.tail m, same)
    ],
    λ p. elim (Lists-cons k a allowed p) [
      | inl same ↦ ground (arith, text_eq_iff (folded a) k)
      | inr found ↦ ground (arith, (any_worker_iff k allowed).1 found)
    ],
  )

  -- A worker is allowed exactly when the list is empty or holds its key up to case and the spaces
  -- around it.
  pub is_worker_allowed_iff :
      (key : Text) (allowed : List Text)
      → (is_worker_allowed lower key allowed ≡ true) ↔ ((allowed ≡ []) ⊎ Lists (folded key) allowed)
  unfolding is_worker_allowed
  is_worker_allowed_iff key [] = (λ _. inl refl, λ _. refl)
  is_worker_allowed_iff key (a ∷ allowed) =
      let found = any_worker_iff (folded key) (a ∷ allowed) in
      (λ h. inr (found.0 h), ⊎_elim (λ e. cc) found.1)

  -- Routing falls back to the autonomous executor exactly when the input is blank, or when it holds
  -- both a keyword of suggestions and one of searches.
  pub route_input_falls_back :
      (goal : Text)
      → let g = to_lower lower (trim_space goal) in
        (should_fallback (route_input lower goal).confidence ≡ true) ↔ (
          (trim_space goal ≡ [])
          ⊎ ((matches_any g suggest_keywords ≡ true) × (matches_any g search_keywords ≡ true)))
  unfolding route_input should_fallback
  route_input_falls_back goal = elim (List-cases (trim_space goal)) [
    | inl e ↦ rw (e, route_input) (λ _. inl refl, λ _. refl)
    | inr (c, r, e) ↦
        let hits =
          route_hits_fallback (matches_any (to_lower lower (c ∷ r)) suggest_keywords)
            (matches_any (to_lower lower (c ∷ r)) search_keywords) in
        rw (e, route_input) (λ h. inr (hits.0 h), λ h. ⊎_elim (λ n. cc) hits.1 h)
  ]

  module _ (lower_idem : (c : ℕ) → lower (lower c) ≡ lower c)
      (lower-is_space : (c : ℕ) → is_space (lower c) ≡ is_space c) where
    to_lower_idem : (s : Text) → to_lower lower (to_lower lower s) ≡ to_lower lower s
    to_lower_idem [] = refl
    to_lower_idem (c ∷ s) = cc (lower_idem c, to_lower_idem s)

    folded_idem : (s : Text) → folded (folded s) ≡ folded s
    folded_idem s = rw (
      ← trim_space-map lower lower-is_space (to_lower lower s),
      to_lower_idem s,
      trim_space_idem (to_lower lower s),
    )

    -- Case and the spaces around an actor or a worker key do not decide what it may do.
    pub allowed-folded :
        (s : Text) (allowed : List Text)
        → (is_node_create_actor_allowed lower (folded s) ≡ is_node_create_actor_allowed lower s)
          × (is_worker_allowed lower (folded s) allowed ≡ is_worker_allowed lower s allowed)
    unfolding is_node_create_actor_allowed is_worker_allowed
    allowed-folded s allowed = rw (folded_idem s) (refl, refl)
