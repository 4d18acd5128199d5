-- ===== src/Cache/Memory/Storing.antt =====
-- What a cache gives back after `Set`.
use insightify_core.Prelude.{
  ℤ, ℕ, ◌+◌, ◌-◌, ◌<◌, ◌≡◌, refl, sym, ◌∙◌, ap, true, false, not, ◌&&◌, Option, none, some, List,
  [], ◌∷◌, ◌++◌, ltb, if◌then◌else◌, Option-cases, ◌⊎◌, inl, inr, subst, arith,
}
use insightify_core.Cache.Memory.{
  bytes_fit, Comparable, Entry, LruTtl, element_at, take_out, move_to_front, evict_locked,
  set_locked,
}
use insightify_core.Cache.Memory.Index.{lookup, lookup-element_at, lookup-take_out, sizes-take_out}
use insightify_core.Cache.Memory.Consistency.{
  IsConsistent, find_element-lookup, moved-IsConsistent, added-IsConsistent,
}
use insightify_core.Cache.Memory.Eviction.{allowed, evict_locked_lem, IsLongest}
use insightify_core.Cache.Memory.Runs.{smaller_fits}
use insightify_core.Cache.Memory.Retrieval.{fresh, peek}

module _ {K V : Type 0} (keys : Comparable K) where
  open keys use {same, same_iff}

  abbrev head_or : Entry K V → List (Entry K V) → Entry K V
  head_or e [] = e
  head_or e (x ∷ es) = x

  abbrev tail : List (Entry K V) → List (Entry K V)
  tail [] = []
  tail (x ∷ es) = es

  fits_alone : (m : ℕ) (b : ℤ) (e : Entry K V) → 0 < m → allowed m b (e ∷ []) ≡ bytes_fit b e.size
  fits_alone m b e some_room =
      let plain : e.size + 0 ≡ e.size = omega arith in rw plain (ground arith)

  -- What is left of a list whose front is `e`.
  longest_front :
      (m : ℕ) (b : ℤ) (e : Entry K V) (es kept : List (Entry K V))
      → 0 < m
      → IsLongest keys m b (e ∷ es) kept
      → ((bytes_fit b e.size ≡ false) × (kept ≡ []))
        ⊎ ((bytes_fit b e.size ≡ true)
            × ((r : List (Entry K V)) × (s : List (Entry K V)) × (kept ≡ e ∷ r) × (es ≡ r ++ s)))
  longest_front m b e es [] some_room l = elim l.longest [
    | inl n ↦ absurd (cc (l.begins, n))
    | inr (d, rest, whole, over) ↦
        let front : e ≡ d = ap (head_or e) (l.begins ∙ whole) in
        inl (
          sym (fits_alone m b e some_room)
              ∙ subst (λ y. allowed m b (y ∷ []) ≡ false) (sym front) over,
          refl,
        )
  ]
  longest_front m b e es (x ∷ r) some_room l =
      let front : e ≡ x = ap (head_or e) l.begins in
      let fit : allowed m b (x ∷ []) ≡ true =
        smaller_fits keys m b (x ∷ r) (x ∷ []) l.fit (omega arith) (omega arith) in
      inr (
        sym (fits_alone m b e some_room) ∙ subst (λ y. allowed m b (y ∷ []) ≡ true) (sym front) fit,
        (r, l.dropped, ap (λ y. y ∷ r) (sym front), ap tail l.begins),
      )

  lookup-prefix :
      (j : K) (r s : List (Entry K V))
      → (lookup keys j r ≡ lookup keys j (r ++ s)) ⊎ (lookup keys j r ≡ none)
  unfolding lookup
  lookup-prefix j [] s = inr refl
  lookup-prefix j (e ∷ r) s = ground (arith, lookup-prefix j r s)

  evicted_lookup :
      (c : LruTtl K V) (e : Entry K V) (es : List (Entry K V))
      → IsConsistent keys c
      → c.ll ≡ e ∷ es
      → 0 < c.max_entries
      → (lookup keys e.key (evict_locked keys c).ll
          ≡ (if bytes_fit c.max_bytes e.size then some e else none))
        × ((j : K)
            → same j e.key ≡ false
            → (lookup keys j (evict_locked keys c).ll ≡ lookup keys j es)
              ⊎ (lookup keys j (evict_locked keys c).ll ≡ none))
  evicted_lookup c e es h whole some_room =
      elim (longest_front c.max_entries c.max_bytes e es (evict_locked keys c).ll some_room (
        subst (λ l. IsLongest keys c.max_entries c.max_bytes l (evict_locked keys c).ll) whole
          (evict_locked_lem keys c h).longest)) [
            | inl (heavy, gone) ↦ (
              rw (gone, heavy) (unfold lookup in refl),
              λ j other. rw gone (unfold lookup in inr refl),
            )
            | inr (light, (r, s, kept, begins)) ↦ (
              rw (kept, light) (unfold lookup in rw ((same_iff e.key e.key).1 refl) refl),
              λ j other. rw (kept, begins) (unfold lookup in rw other (lookup-prefix j r s)),
            )
          ]

  -- What the entry `e` gives at a time, if it fits by itself.
  abbrev offered : ℤ → ℕ → Entry K V → Option V
  offered b later e =
      if bytes_fit b e.size && not (ltb e.expires_at later) then some e.value else none

  evicted_peek :
      (c : LruTtl K V) (e : Entry K V) (es : List (Entry K V)) (later : ℕ)
      → IsConsistent keys c
      → c.ll ≡ e ∷ es
      → 0 < c.max_entries
      → (peek keys e.key later (evict_locked keys c) ≡ offered c.max_bytes later e)
        × ((j : K)
            → same j e.key ≡ false
            → (peek keys j later (evict_locked keys c) ≡ fresh later (lookup keys j es))
              ⊎ (peek keys j later (evict_locked keys c) ≡ none))
  evicted_peek c e es later h whole some_room =
      let (own, others) = evicted_lookup c e es h whole some_room in
      (
        rw own (ground arith),
        λ j other. elim (others j other) [
          | inl kept ↦ inl (ap (fresh later) kept)
          | inr gone ↦ inr (ap (fresh later) gone)
        ],
      )

  -- The cache before the eviction, where `Set` finds the key.
  abbrev replaced : LruTtl K V → Entry K V → V → ℕ → ℕ → LruTtl K V
  replaced c x v size now =
      move_to_front (record x { value = v; size = size; expires_at = now + c.ttl })
        (record c { total_bytes = (c.total_bytes - x.size) + size })

  peek-replaced :
      (c : LruTtl K V) (x : Entry K V) (k : K) (v : V) (size now later : ℕ)
      → IsConsistent keys c
      → 0 < c.max_entries
      → element_at x.handle c.ll ≡ some x
      → k ≡ x.key
      → (peek keys k later (evict_locked keys (replaced c x v size now))
          ≡ (if bytes_fit c.max_bytes size && not (ltb (now + c.ttl) later) then some v else none))
        × ((j : K)
            → same j k ≡ false
            → (peek keys j later (evict_locked keys (replaced c x v size now))
                ≡ peek keys j later c)
              ⊎ (peek keys j later (evict_locked keys (replaced c x v size now)) ≡ none))
  unfolding move_to_front
  peek-replaced c x k v size now later h some_room found same_key =
      let (lighter, shorter) = sizes-take_out x.handle c.ll x found in
      let (own, others) =
        evicted_peek _ (record x { value = v; size = size; expires_at = now + c.ttl })
          (take_out x.handle c.ll) later
          (moved-IsConsistent keys c x _ h found refl _ (omega (arith, h.total))) refl some_room in
      (
        ap (λ i. peek keys i later (evict_locked keys (replaced c x v size now))) same_key ∙ own,
        λ j other.
            let off : same j x.key ≡ false = subst (λ i. same j i ≡ false) same_key other in
            let left : lookup keys j (take_out x.handle c.ll) ≡ lookup keys j c.ll =
              ground (arith, lookup-take_out keys c.next x.handle j c.ll x h.keyed found) in
            elim (others j off) [
              | inl kept ↦ inl (kept ∙ ap (fresh later) left)
              | inr gone ↦ inr gone
            ],
      )

  -- In a consistent cache that may hold an entry, after `Set` the key has the new value until it expires,
  -- unless the value alone exceeds the bound on bytes; then it has none. Every other key has what it
  -- had, or nothing.
  pub set_locked-peek :
      (c : LruTtl K V) (k : K) (v : V) (size now later : ℕ)
      → IsConsistent keys c
      → 0 < c.max_entries
      → (peek keys k later (set_locked keys k v size now c)
          ≡ (if bytes_fit c.max_bytes size && not (ltb (now + c.ttl) later) then some v else none))
        × ((j : K)
            → same j k ≡ false
            → (peek keys j later (set_locked keys k v size now c) ≡ peek keys j later c)
              ⊎ (peek keys j later (set_locked keys k v size now c) ≡ none))
  unfolding set_locked move_to_front
  set_locked-peek c k v size now later h some_room = elim (Option-cases (lookup keys k c.ll)) [
    | inl e ↦
        rw (find_element-lookup keys c k h, e, set_locked)
          (evicted_peek _ _ c.ll later (added-IsConsistent keys c _ h e refl) refl some_room)
    | inr (x, e) ↦
        rw (find_element-lookup keys c k h, e, set_locked)
          (let (found, same_key) = lookup-element_at keys c.next k c.ll x h.keyed e in
            peek-replaced c x k v size now later h some_room found same_key)
  ]
