-- ===== src/Scheduler/Launch/InFlight.antt =====
-- Lists of chunks.
use insightify_core.Prelude.{
  ℕ, ◌≡◌, refl, ◌⊎◌, inl, inr, true, false, ◌||◌, List, [], ◌∷◌, ◌++◌, Bool-cases, ◌==◌, ==_iff,
  arith,
}
use insightify_core.Scheduler.Sets.{has, Distinct, has-append}
use insightify_core.Scheduler.Graph.{Adjacency, targets_of}
use insightify_core.Scheduler.Chunk.Order.{InOrder}

abbrev pub All {ℓ κ} : {A : Type ℓ} → (A → Type κ) → List A → Type κ
All P [] = Unit
All P (x ∷ xs) = P x × All P xs

pub All-snoc {ℓ κ} :
    {A : Type ℓ} (P : A → Type κ) (xs : List A) (x : A) → All P xs → P x → All P (xs ++ (x ∷ []))
All-snoc P [] x h p = (p, tt)
All-snoc P (y ∷ xs) x h p = (h.0, All-snoc P xs x h.1 p)

pub All-map {ℓ κ} :
    {A : Type ℓ} (P Q : A → Type κ) (xs : List A) → ((x : A) → P x → Q x) → All P xs → All Q xs
All-map P Q [] f h = tt
All-map P Q (x ∷ xs) f h = (f x h.0, All-map P Q xs f h.1)

abbrev pub flat : List (List ℕ) → List ℕ
flat [] = []
flat (c ∷ cs) = c ++ flat cs

pub has-flat-snoc :
    (x : ℕ) (cs : List (List ℕ)) (c : List ℕ)
    → has x (flat (cs ++ (c ∷ []))) ≡ (has x (flat cs) || has x c)
unfolding has
has-flat-snoc x [] c = ground (arith, has-append x c [])
has-flat-snoc x (d ∷ cs) c =
    ground (
      arith,
      has-append x d (flat (cs ++ (c ∷ []))),
      has-append x d (flat cs),
      has-flat-snoc x cs c,
    )

-- Two lists without a common member.
abbrev pub Apart : List ℕ → List ℕ → Type 0
Apart s t = (x : ℕ) → has x s ≡ true → has x t ≡ false

pub append-Distinct : (s t : List ℕ) → Distinct s → Distinct t → Apart s t → Distinct (s ++ t)
unfolding has
append-Distinct [] t d e apart = e
append-Distinct (x ∷ s) t d e apart = (
  ground (arith, has-append x s t, apart x),
  append-Distinct s t d.1 e (λ y m. apart y (ground arith)),
)

pub Distinct-append : (s t : List ℕ) → Distinct (s ++ t) → Distinct s × Distinct t × Apart s t
unfolding has
Distinct-append [] t d = (tt, d, λ x m. cc)
Distinct-append (y ∷ s) t d =
    let (ds, dt, apart) = Distinct-append s t d.1 in
    (
      (ground (arith, has-append y s t), ds),
      dt,
      λ x m. elim (Bool-cases (x == y)) [
        | inl e ↦ ground (arith, has-append y s t)
        | inr e ↦ apart x (ground arith)
      ],
    )

pub flat-snoc-Distinct :
    (cs : List (List ℕ)) (c : List ℕ)
    → Distinct (flat cs)
    → Distinct c
    → Apart c (flat cs)
    → Distinct (flat (cs ++ (c ∷ [])))
unfolding has
flat-snoc-Distinct [] c d e apart = append-Distinct c [] e tt (λ x m. refl)
flat-snoc-Distinct (b ∷ cs) c d e apart =
    let (db, dcs, off) = Distinct-append b (flat cs) d in
    append-Distinct b (flat (cs ++ (c ∷ []))) db
      (flat-snoc-Distinct cs c dcs e (λ x m. ground (arith, apart x m, has-append x b (flat cs))))
      (λ x m. ground (arith, off x m, has-flat-snoc x cs c, apart x, has-append x b (flat cs)))

-- The predecessors of a chunk's nodes are in it, or in `closed`.
abbrev pub IsClosed : Adjacency → List ℕ → List ℕ → Type 0
IsClosed adj closed chunk =
    (u v : ℕ)
    → has v (targets_of adj u) ≡ true
    → has v chunk ≡ true
    → (has u closed ≡ true) ⊎ (has u chunk ≡ true)

pub flat-IsClosed :
    (adj : Adjacency) (closed : List ℕ) (cs : List (List ℕ))
    → All (IsClosed adj closed) cs
    → IsClosed adj closed (flat cs)
flat-IsClosed adj closed [] h u v e m = unfold has in cc
flat-IsClosed adj closed (c ∷ cs) h u v e m = ground (
  arith,
  has-append v c (flat cs),
  has-append u c (flat cs),
  h.0 u v e,
  flat-IsClosed adj closed cs h.1 u v e,
)

-- A chunk in dependency order is closed.
pub InOrder-IsClosed :
    (adj : Adjacency) (us closed : List ℕ) → InOrder adj closed us → IsClosed adj closed us
unfolding has
InOrder-IsClosed adj [] closed o u v e m = cc
InOrder-IsClosed adj (w ∷ us) closed o u v e m = elim (Bool-cases (v == w)) [
  | inl same ↦ inl (o.0 u (rw ((==_iff v w).0 same) at e))
  | inr other ↦ ground (arith, InOrder-IsClosed adj us (w ∷ closed) o.1 u v e)
]
