-- ===== src/Llm/Credits/Interleaving.antt =====
-- What any interleaving of callers of `TakeCredit` does.
use insightify_core.Prelude.{
  ℕ, zero, suc, ◌+◌, ◌-◌, ◌≤◌, ◌≡◌, refl, ap, ◌∙◌, ◌⊎◌, inl, inr, true, false, List, [], ◌∷◌, arith,
  length,
}
use insightify_core.Llm.Credits.{
  Caller, loading, swapping, returned, Credits, advance, advance_at, advance_all, taken,
}

-- A caller was refused only if there is nothing left, and has loaded no zero.
abbrev pub IsHonest : ℕ → List Caller → Type 0
IsHonest n [] = Unit
IsHonest n (loading ∷ cs) = IsHonest n cs
IsHonest n (swapping zero ∷ cs) = ⊥
IsHonest n (swapping (suc m) ∷ cs) = IsHonest n cs
IsHonest n (returned true ∷ cs) = IsHonest n cs
IsHonest n (returned false ∷ cs) = (n ≡ 0) × IsHonest n cs

IsHonest-less : (n : ℕ) (cs : List Caller) (m : ℕ) → m ≤ n → IsHonest n cs → IsHonest m cs
IsHonest-less n [] m le h = tt
IsHonest-less n (loading ∷ cs) m le h = IsHonest-less n cs m le h
IsHonest-less n (swapping zero ∷ cs) m le h = h
IsHonest-less n (swapping (suc k) ∷ cs) m le h = IsHonest-less n cs m le h
IsHonest-less n (returned true ∷ cs) m le h = IsHonest-less n cs m le h
IsHonest-less n (returned false ∷ cs) m le h = (omega (arith, h.0), IsHonest-less n cs m le h.1)

advance_at_lem :
    (i : ℕ) (cs : List Caller) (n : ℕ)
    → IsHonest n cs
    → (taken (advance_at i cs n).0 + (advance_at i cs n).1 ≡ taken cs + n)
      × ((advance_at i cs n).1 ≤ n)
      × IsHonest (advance_at i cs n).1 (advance_at i cs n).0
      × (length (advance_at i cs n).0 ≡ length cs)
unfolding advance_at taken advance
advance_at_lem i [] n h = (refl, omega arith, tt, refl)
advance_at_lem zero (loading ∷ cs) n h = ground (arith, IsHonest-less n cs n)
advance_at_lem zero (swapping zero ∷ cs) n h = absurd h
advance_at_lem zero (swapping (suc m) ∷ cs) n h = ground (arith, IsHonest-less n cs (n - 1))
advance_at_lem zero (returned true ∷ cs) n h = (refl, omega arith, h, refl)
advance_at_lem zero (returned false ∷ cs) n h = (refl, omega arith, h, refl)
advance_at_lem (suc i) (loading ∷ cs) n h =
    let (same, less, honest, long) = advance_at_lem i cs n h in (same, less, honest, ap suc long)
advance_at_lem (suc i) (swapping zero ∷ cs) n h = absurd h
advance_at_lem (suc i) (swapping (suc m) ∷ cs) n h =
    let (same, less, honest, long) = advance_at_lem i cs n h in (same, less, honest, ap suc long)
advance_at_lem (suc i) (returned true ∷ cs) n h =
    let (same, less, honest, long) = advance_at_lem i cs n h in
    (omega (arith, same), less, honest, ap suc long)
advance_at_lem (suc i) (returned false ∷ cs) n h =
    let (same, less, honest, long) = advance_at_lem i cs n h.1 in
    (same, less, (omega arith, honest), ap suc long)

-- Those who ask, before they start.
unfoldable pub askers : ℕ → List Caller
askers zero = []
askers (suc k) = loading ∷ askers k

abbrev pub refused : List Caller → ℕ
refused [] = 0
refused (loading ∷ cs) = refused cs
refused (swapping n ∷ cs) = refused cs
refused (returned true ∷ cs) = refused cs
refused (returned false ∷ cs) = suc (refused cs)

askers_lem : (n k : ℕ) → IsHonest n (askers k) × (taken (askers k) ≡ 0) × (length (askers k) ≡ k)
unfolding askers taken
askers_lem n zero = (tt, refl, refl)
askers_lem n (suc k) = let (h, t, l) = askers_lem n k in (h, t, ap suc l)

IsHonest-refused : (n : ℕ) (cs : List Caller) → IsHonest n cs → (refused cs ≡ 0) ⊎ (n ≡ 0)
IsHonest-refused n [] h = inl refl
IsHonest-refused n (loading ∷ cs) h = IsHonest-refused n cs h
IsHonest-refused n (swapping zero ∷ cs) h = absurd h
IsHonest-refused n (swapping (suc m) ∷ cs) h = IsHonest-refused n cs h
IsHonest-refused n (returned true ∷ cs) h = IsHonest-refused n cs h
IsHonest-refused n (returned false ∷ cs) h = inr h.0

advance_all-IsHonest :
    (is : List ℕ) (s : Credits)
    → IsHonest s.n s.callers
    → (taken (advance_all is s).callers + (advance_all is s).n ≡ taken s.callers + s.n)
      × IsHonest (advance_all is s).n (advance_all is s).callers
unfolding advance_all
advance_all-IsHonest [] s h = (refl, h)
advance_all-IsHonest (i ∷ is) s h =
    let (same, less, honest, long) = advance_at_lem i s.callers s.n h in
    let rest =
      advance_all-IsHonest is
        (record { n = (advance_at i s.callers s.n).1; callers = (advance_at i s.callers s.n).0 })
        honest in
    (rest.0 ∙ same, rest.1)

-- However callers of `TakeCredit` on a counter of `n` interleave, at any moment those that were given a
-- credit and the credits left make up `n`, and once a caller has been refused all `n` are given.
pub advance_all-taken :
    (n k : ℕ) (is : List ℕ)
    → let s = advance_all is (record { n = n; callers = askers k }) in
      (taken s.callers + s.n ≡ n) × ((refused s.callers ≡ 0) ⊎ (taken s.callers ≡ n))
advance_all-taken n k is =
    let (honest, none_taken, long) = askers_lem n k in
    let s = advance_all is (record { n = n; callers = askers k }) in
    let (same, after) = advance_all-IsHonest is (record { n = n; callers = askers k }) honest in
    let total : taken s.callers + s.n ≡ n = omega (arith, same, none_taken) in
    (
      total,
      elim (IsHonest-refused s.n s.callers after) [
        | inl e ↦ inl e
        | inr e ↦ inr (omega (arith, total, e))
      ],
    )
