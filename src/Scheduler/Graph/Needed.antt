-- ===== src/Scheduler/Graph/Needed.antt =====
-- `computeNeededNodes` returns the targets and their ancestors.
use insightify_core.Prelude.{
  ℕ, zero, suc, ◌+◌, ◌<◌, ◌≡◌, refl, ◌∙◌, inl, inr, true, ◌&&◌, ◌||◌, List, [], ◌∷◌, ◌++◌, length,
  length-set, length-replicate, set, replicate, get_or-set_self, get_or-set_ne, get_or-replicate,
  ◌==◌, ==_iff, if◌then◌else◌, Bool-cases, arith,
}
use insightify_core.Scheduler.Sets.{has, has-snoc}
use insightify_core.Scheduler.Graph.{
  Adjacency, targets_of, reverse_row, reverse_rows, build_reverse_graph,
}

-- A walk along the edges.
pub data Reaches (adj : Adjacency) (t : ℕ) : ℕ → Type 0 where
  here : Reaches adj t t
  step : {u v : ℕ} → has v (targets_of adj u) ≡ true → Reaches adj t v → Reaches adj t u

targets_of-set :
    (rev : Adjacency) (w t : ℕ) (r : List ℕ)
    → t < length rev
    → targets_of (set rev w r) t ≡ (if t == w then r else targets_of rev t)
targets_of-set rev w t r h = elim (Bool-cases (t == w)) [
  | inl e ↦
      let same = (==_iff t w).0 e in rw e (rw same (get_or-set_self rev w r [] (rw same at h)))
  | inr e ↦ rw e (get_or-set_ne rev w t r [] (λ same. ground arith))
]

length-reverse_row :
    (u : ℕ) (vs : List ℕ) (rev : Adjacency) → length (reverse_row u vs rev) ≡ length rev
unfolding reverse_row
length-reverse_row u [] rev = refl
length-reverse_row u (v ∷ vs) rev =
    length-reverse_row u vs (set rev v (targets_of rev v ++ (u ∷ [])))
    ∙ length-set rev v (targets_of rev v ++ (u ∷ []))

has-reverse_row :
    (u p t : ℕ) (vs : List ℕ) (rev : Adjacency)
    → t < length rev
    → has p (targets_of (reverse_row u vs rev) t)
      ≡ (has p (targets_of rev t) || (p == u && has t vs))
unfolding has reverse_row
has-reverse_row u p t [] rev h = ground arith
has-reverse_row u p t (v ∷ vs) rev h =
    let r = targets_of rev v ++ (u ∷ []) in
    let ih = has-reverse_row u p t vs (set rev v r) (omega (arith, length-set rev v r)) in
    let put = targets_of-set rev v t r h in
    elim (Bool-cases (t == v)) [
      | inl e ↦ rw (ih, put, e, has-snoc p u (targets_of rev v), (==_iff t v).0 e) (ground arith)
      | inr e ↦ rw (ih, put, e) (ground arith)
    ]

has-reverse_rows_above :
    (k p t : ℕ) (adj rev : Adjacency)
    → t < length rev
    → p < k
    → has p (targets_of (reverse_rows k adj rev) t) ≡ has p (targets_of rev t)
unfolding reverse_rows
has-reverse_rows_above k p t [] rev h lt = refl
has-reverse_rows_above k p t (vs ∷ adj) rev h lt = ground (
  arith,
  has-reverse_rows_above (suc k) p t adj (reverse_row k vs rev)
      (omega (arith, length-reverse_row k vs rev)) (omega arith),
  has-reverse_row k p t vs rev h,
)

has-reverse_rows :
    (k p j t : ℕ) (adj rev : Adjacency)
    → t < length rev
    → p ≡ k + j
    → has p (targets_of (reverse_rows k adj rev) t)
      ≡ (has p (targets_of rev t) || has t (targets_of adj j))
unfolding has reverse_rows
has-reverse_rows k p j t [] rev h e = ground arith
has-reverse_rows k p zero t (vs ∷ adj) rev h e = ground (
  arith,
  has-reverse_rows_above (suc k) p t adj (reverse_row k vs rev)
      (omega (arith, length-reverse_row k vs rev)) (omega arith),
  has-reverse_row k p t vs rev h,
)
has-reverse_rows k p (suc j) t (vs ∷ adj) rev h e = ground (
  arith,
  has-reverse_rows (suc k) p j t adj (reverse_row k vs rev)
      (omega (arith, length-reverse_row k vs rev)) (omega arith),
  has-reverse_row k p t vs rev h,
)

-- The row of `t` in the reverse graph holds the nodes whose row holds `t`.
pub has-build_reverse_graph :
    (adj : Adjacency) (p t : ℕ)
    → t < length adj
    → has p (targets_of (build_reverse_graph adj) t) ≡ has t (targets_of adj p)
unfolding build_reverse_graph has
has-build_reverse_graph adj p t h =
    has-reverse_rows 0 p p t adj (replicate (length adj) [])
      (omega (arith, length-replicate {0} {A = List ℕ} (length adj) [])) (omega arith)
    ∙ rw (get_or-replicate {0} {A = List ℕ} (length adj) t []) refl
