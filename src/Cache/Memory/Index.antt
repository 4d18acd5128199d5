-- ===== src/Cache/Memory/Index.antt =====
-- The list of entries, and the map that leads to its elements.
use insightify_core.Prelude.{
  ap, ℕ, suc, ◌+◌, ◌<◌, ◌≡◌, refl, true, Option, none, some, List, [], ◌∷◌, ◌==◌, ==_iff, length,
  if◌then◌else◌, arith,
}
use insightify_core.Cache.Memory.{Comparable, Entry, element_at, take_out, find_item, delete_item}

abbrev pub handle_of : {K V : Type 0} → Option (Entry K V) → Option ℕ
handle_of none = none
handle_of (some e) = some e.handle

abbrev pub sizes : {K V : Type 0} → List (Entry K V) → ℕ
sizes [] = 0
sizes (e ∷ es) = e.size + sizes es

module _ {K V : Type 0} where
  pub element_at-take_out :
      (h k : ℕ) (es : List (Entry K V))
      → element_at h es ≡ none
      → element_at h (take_out k es) ≡ none
  unfolding element_at take_out
  element_at-take_out h k [] m = refl
  element_at-take_out h k (e ∷ es) m = ground (arith, element_at-take_out h k es)

  pub element_at_same :
      (h k : ℕ) (es : List (Entry K V)) → (h == k) ≡ true → element_at h es ≡ element_at k es
  element_at_same h k es e = ap (λ i. element_at i es) ((==_iff h k).0 e)

  pub sizes-take_out :
      (h : ℕ) (es : List (Entry K V)) (e : Entry K V)
      → element_at h es ≡ some e
      → (sizes (take_out h es) + e.size ≡ sizes es) × (length (take_out h es) + 1 ≡ length es)
  unfolding take_out element_at
  sizes-take_out h [] e m = cc
  sizes-take_out h (d ∷ es) e m = ground (arith, sizes-take_out h es e)

module _ {K V : Type 0} (keys : Comparable K) where
  open keys use {same, same_iff}

  -- The entry of a key, found without the map.
  unfoldable pub lookup : K → List (Entry K V) → Option (Entry K V)
  lookup k [] = none
  lookup k (e ∷ es) = if same k e.key then some e else lookup k es

  pub lookup_same : (k j : K) (es : List (Entry K V)) → same k j ≡ true → lookup k es ≡ lookup j es
  lookup_same k j es h = ap (λ i. lookup i es) ((same_iff k j).0 h)

  -- No handle twice, no key twice, and no handle that is still to be given out.
  unfoldable pub IsKeyed : ℕ → List (Entry K V) → Type 0
  IsKeyed next [] = Unit
  IsKeyed next (e ∷ es) =
      (element_at e.handle es ≡ none)
      × (lookup e.key es ≡ none)
      × (e.handle < next)
      × IsKeyed next es

  -- An entry found by its key is the one that its handle leads to.
  pub lookup-element_at :
      (next : ℕ) (k : K) (es : List (Entry K V)) (e : Entry K V)
      → IsKeyed next es
      → lookup k es ≡ some e
      → (element_at e.handle es ≡ some e) × (k ≡ e.key)
  unfolding lookup element_at IsKeyed
  lookup-element_at next k [] e u h = cc
  lookup-element_at next k (d ∷ es) e u h =
      ground (arith, lookup-element_at next k es e u.3, same_iff k d.key, ==_iff d.handle e.handle)

  pub element_at-lookup :
      (next h : ℕ) (es : List (Entry K V)) (e : Entry K V)
      → IsKeyed next es
      → element_at h es ≡ some e
      → (lookup e.key es ≡ some e) × (e.handle ≡ h)
  unfolding lookup element_at IsKeyed
  element_at-lookup next h [] e u m = cc
  element_at-lookup next h (d ∷ es) e u m = ground (
    arith,
    element_at-lookup next h es e u.3,
    same_iff e.key d.key,
    ==_iff d.handle h,
    lookup_same e.key d.key es,
  )

  pub element_at-new :
      (next : ℕ) (es : List (Entry K V)) → IsKeyed next es → element_at next es ≡ none
  unfolding element_at IsKeyed
  element_at-new next [] u = refl
  element_at-new next (e ∷ es) u = ground (arith, element_at-new next es u.3)

  pub lookup-take_out-none :
      (k : K) (h : ℕ) (es : List (Entry K V)) → lookup k es ≡ none → lookup k (take_out h es) ≡ none
  unfolding lookup take_out
  lookup-take_out-none k h [] m = refl
  lookup-take_out-none k h (e ∷ es) m = ground (arith, lookup-take_out-none k h es)

  pub take_out-IsKeyed :
      (next h : ℕ) (es : List (Entry K V)) → IsKeyed next es → IsKeyed next (take_out h es)
  unfolding take_out IsKeyed
  take_out-IsKeyed next h [] u = tt
  take_out-IsKeyed next h (e ∷ es) u = ground (
    arith,
    take_out-IsKeyed next h es u.3,
    element_at-take_out e.handle h es u.0,
    lookup-take_out-none e.key h es u.1,
  )

  -- What is found when an entry is taken out.
  pub lookup-take_out :
      (next h : ℕ) (k : K) (es : List (Entry K V)) (e : Entry K V)
      → IsKeyed next es
      → element_at h es ≡ some e
      → lookup k (take_out h es) ≡ (if same k e.key then none else lookup k es)
  unfolding lookup take_out element_at IsKeyed
  lookup-take_out next h k [] e u m = cc
  lookup-take_out next h k (d ∷ es) e u m = ground (
    arith,
    lookup-take_out next h k es e u.3,
    same_iff k d.key,
    same_iff k e.key,
    same_iff e.key d.key,
    ==_iff d.handle h,
    element_at-lookup next h es e u.3,
    lookup_same k d.key es,
    lookup_same k e.key es,
  )

  pub element_at-taken :
      (next h : ℕ) (es : List (Entry K V)) → IsKeyed next es → element_at h (take_out h es) ≡ none
  unfolding take_out element_at IsKeyed
  element_at-taken next h [] u = refl
  element_at-taken next h (d ∷ es) u =
      ground
        (arith, element_at-taken next h es u.3, ==_iff d.handle h, element_at_same d.handle h es)

  pub element_at-below :
      (next h : ℕ) (es : List (Entry K V)) (e : Entry K V)
      → IsKeyed next es
      → element_at h es ≡ some e
      → h < next
  unfolding element_at IsKeyed
  element_at-below next h [] e u m = cc
  element_at-below next h (d ∷ es) e u m =
      ground (arith, element_at-below next h es e u.3, ==_iff d.handle h)

  pub IsKeyed-suc : (next : ℕ) (es : List (Entry K V)) → IsKeyed next es → IsKeyed (suc next) es
  unfolding IsKeyed
  IsKeyed-suc next [] u = tt
  IsKeyed-suc next (e ∷ es) u = (u.0, u.1, omega arith, IsKeyed-suc next es u.3)

pub find_item-delete_item :
    {K : Type 0} (keys : Comparable K) (k j : K) (items : List (K × ℕ))
    → find_item keys k (delete_item keys j items)
      ≡ (if keys.same k j then none else find_item keys k items)
unfolding find_item delete_item
find_item-delete_item keys k j [] = ground arith
find_item-delete_item keys k j ((i, h) ∷ items) = ground (
  arith,
  find_item-delete_item keys k j items,
  keys.same_iff k i,
  keys.same_iff k j,
  keys.same_iff j i,
)
