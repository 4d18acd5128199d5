-- ===== src/Cache/Memory/Recency.antt =====
-- The order of the list of internal/cache/memory/lru_ttl.go: the entries used last come first.
use insightify_core.Prelude.{
  ℤ, ℕ, suc, ◌≤◌, ◌<◌, ◌≡◌, refl, false, ◌==◌, none, some, List, [], ◌∷◌, ◌++◌, ltb, length,
  if◌then◌else◌, Bool-cases, Option-cases, inl, inr, subst, arith,
}
use insightify_core.Cache.Memory.{
  or_default, size_of, Comparable, Entry, LruTtl, new_lru_ttl, take_out, remove_element,
  move_to_front, evict_locked, get_locked, set_locked, delete_locked, clear_locked, get, set,
  delete, clear,
}
use insightify_core.Cache.Memory.Index.{lookup, lookup-element_at, lookup-take_out, sizes-take_out}
use insightify_core.Cache.Memory.Consistency.{
  IsConsistent, find_element-lookup, moved-IsConsistent, added-IsConsistent,
}
use insightify_core.Cache.Memory.Eviction.{IsEvicted, evict_locked_lem}
use insightify_core.Cache.Memory.Runs.{
  Call, getting, setting, deleting, clearing, call, calls, IsValid, get_locked-IsValid,
  set_locked-IsValid, delete_locked-IsValid, clear_locked-IsValid, new_lru_ttl-IsValid,
}

module _ {K : Type 0} (keys : Comparable K) where
  open keys use {same}

  -- How many uses of other keys there were since the last use of `k`.
  unfoldable pub since : K → List K → ℕ
  since k [] = 0
  since k (j ∷ log) = let rest = since k log in if same k j then 0 else suc rest

-- The keys that calls of `Get` and `Set` have named, the last one first, in front of those of `log`.
unfoldable pub uses : {K V : Type 0} → List (Call K V) → List K → List K
uses [] log = log
uses (getting k now ∷ rest) log = uses rest (k ∷ log)
uses (setting k v size now ∷ rest) log = uses rest (k ∷ log)
uses (deleting k ∷ rest) log = uses rest log
uses (clearing ∷ rest) log = uses rest log

module _ {K V : Type 0} (keys : Comparable K) where
  open keys use {same, same_iff}

  -- Every entry has been used, the later the nearer to the front, and the first not less than `n` uses ago.
  unfoldable pub InOrder : List K → ℕ → List (Entry K V) → Type 0
  unfolding since
  InOrder log n [] = Unit
  InOrder log n (e ∷ es) =
      (n ≤ since keys e.key log)
      × (since keys e.key log < length log)
      × InOrder log (suc (since keys e.key log)) es

  earlier :
      (log : List K) (m n : ℕ) (es : List (Entry K V)) → m ≤ n → InOrder log n es → InOrder log m es
  unfolding InOrder
  earlier log m n [] le h = tt
  earlier log m n (e ∷ es) le h = (omega (arith, h.0), h.1, h.2)

  InOrder-take_out :
      (log : List K) (n h : ℕ) (es : List (Entry K V))
      → InOrder log n es
      → InOrder log n (take_out h es)
  unfolding InOrder take_out
  InOrder-take_out log n h [] o = tt
  InOrder-take_out log n h (e ∷ es) o = elim (Bool-cases (e.handle == h)) [
    | inl q ↦ rw q (earlier log n (suc (since keys e.key log)) es (omega (arith, o.0)) o.2)
    | inr q ↦ rw q (o.0, o.1, InOrder-take_out log (suc (since keys e.key log)) h es o.2)
  ]

  InOrder-append :
      (log : List K) (n : ℕ) (es ds : List (Entry K V))
      → InOrder log n (es ++ ds)
      → InOrder log n es
  unfolding InOrder
  InOrder-append log n [] ds o = tt
  InOrder-append log n (e ∷ es) ds o =
      (o.0, o.1, InOrder-append log (suc (since keys e.key log)) es ds o.2)

  -- The use of a key that no entry has moves all entries one use away.
  InOrder-other :
      (k : K) (log : List K) (n : ℕ) (es : List (Entry K V))
      → lookup keys k es ≡ none
      → InOrder log n es
      → InOrder (k ∷ log) (suc n) es
  unfolding InOrder lookup
  InOrder-other k log n [] m o = tt
  InOrder-other k log n (e ∷ es) m o =
      let (other, rest) = apart e es m in
      let shift : since keys e.key (k ∷ log) ≡ suc (since keys e.key log) =
        unfold since in rw other refl in
      rw shift (
        omega (arith, o.0),
        omega (arith, o.1),
        InOrder-other k log (suc (since keys e.key log)) es rest o.2,
      )
    where
      apart :
          (d : Entry K V) (ds : List (Entry K V))
          → lookup keys k (d ∷ ds) ≡ none
          → (same d.key k ≡ false) × (lookup keys k ds ≡ none)
      apart d ds none_there = unfold lookup in ground (arith, same_iff d.key k, same_iff k d.key)

  -- A used entry is in front of others.
  InOrder-front :
      (k : K) (log : List K) (e : Entry K V) (es : List (Entry K V))
      → k ≡ e.key
      → lookup keys k es ≡ none
      → InOrder log 0 es
      → InOrder (k ∷ log) 0 (e ∷ es)
  unfolding InOrder
  InOrder-front k log e es here m o =
      let now : since keys e.key (k ∷ log) ≡ 0 = unfold since in ground (arith, same_iff e.key k) in
      rw now (omega arith, omega arith, InOrder-other k log 0 es m o)

  evict_locked-InOrder :
      (log : List K) (c : LruTtl K V)
      → IsConsistent keys c
      → InOrder log 0 c.ll
      → InOrder log 0 (evict_locked keys c).ll
  evict_locked-InOrder log c h o =
      let l = (evict_locked_lem keys c h).longest in
      InOrder-append log 0 (evict_locked keys c).ll l.dropped (subst (InOrder log 0) l.begins o)

  module _ (log : List K) (k : K) (c : LruTtl K V) (h : IsConsistent keys c)
      (o : InOrder log 0 c.ll) where
    gone :
        (x : Entry K V)
        → lookup keys k c.ll ≡ some x
        → (k ≡ x.key) × (lookup keys k (take_out x.handle c.ll) ≡ none)
    gone x e =
        let (found, here) = lookup-element_at keys c.next k c.ll x h.keyed e in
        (
          here,
          ground (
            arith,
            lookup-take_out keys c.next x.handle k c.ll x h.keyed found,
            same_iff k x.key,
          ),
        )

    get_locked-InOrder : (now : ℕ) → InOrder (k ∷ log) 0 (get_locked keys k now c).1.ll
    unfolding get_locked move_to_front remove_element
    get_locked-InOrder now = elim (Option-cases (lookup keys k c.ll)) [
      | inl e ↦
          rw (find_element-lookup keys c k h, e, get_locked)
            (earlier (k ∷ log) 0 1 c.ll (omega arith) (InOrder-other k log 0 c.ll e o))
      | inr (x, e) ↦
          let (here, absent) = gone x e in
          let rest = InOrder-take_out log 0 x.handle c.ll o in
          rw (find_element-lookup keys c k h, e, get_locked)
            (elim (Bool-cases (ltb x.expires_at now)) [
              | inl old ↦ rw old (
                  earlier (k ∷ log) 0 1 (take_out x.handle c.ll) (omega arith)
                    (InOrder-other k log 0 (take_out x.handle c.ll) absent rest))
              | inr young ↦
                  rw young (InOrder-front k log x (take_out x.handle c.ll) here absent rest)
            ])
    ]

    set_locked-InOrder :
        (v : V) (size now : ℕ) → InOrder (k ∷ log) 0 (set_locked keys k v size now c).ll
    unfolding set_locked move_to_front
    set_locked-InOrder v size now = elim (Option-cases (lookup keys k c.ll)) [
      | inl e ↦
          rw (find_element-lookup keys c k h, e, set_locked)
            (evict_locked-InOrder (k ∷ log) _ (added-IsConsistent keys c _ h e refl)
              (InOrder-front k log _ c.ll refl e o))
      | inr (x, e) ↦
          let (here, absent) = gone x e in
          let found = (lookup-element_at keys c.next k c.ll x h.keyed e).0 in
          let lighter = (sizes-take_out x.handle c.ll x found).0 in
          rw (find_element-lookup keys c k h, e, set_locked)
            (evict_locked-InOrder (k ∷ log) _
              (moved-IsConsistent keys c x _ h found refl _ (omega (arith, h.total)))
              (InOrder-front k log _ (take_out x.handle c.ll) here absent
                (InOrder-take_out log 0 x.handle c.ll o)))
    ]

    delete_locked-InOrder : InOrder log 0 (delete_locked keys k c).ll
    unfolding delete_locked remove_element
    delete_locked-InOrder = elim (Option-cases (lookup keys k c.ll)) [
      | inl e ↦ rw (find_element-lookup keys c k h, e, delete_locked) o
      | inr (x, e) ↦
          rw (find_element-lookup keys c k h, e, delete_locked)
            (InOrder-take_out log 0 x.handle c.ll o)
    ]

  module _ (max_entries : ℕ) (max_bytes : ℤ) where
    calls-InOrder :
        (all_calls : List (Call K V)) (log : List K) (c : LruTtl K V)
        → IsValid keys max_entries max_bytes c
        → InOrder log 0 c.ll
        → (c' : LruTtl K V) × (calls keys all_calls (some c) ≡ some c')
          × IsConsistent keys c'
          × InOrder (uses all_calls log) 0 c'.ll
    unfolding calls call get set delete clear uses
    calls-InOrder [] log c h o = (c, refl, h.consistent, o)
    calls-InOrder (getting k now ∷ rest) log c h o =
        calls-InOrder rest (k ∷ log) (get_locked keys k now c).1
          (get_locked-IsValid keys max_entries max_bytes k now c h)
          (get_locked-InOrder log k c h.consistent o now)
    calls-InOrder (setting k v size now ∷ rest) log c h o =
        calls-InOrder rest (k ∷ log) (set_locked keys k v (size_of size) now c)
          (set_locked-IsValid keys max_entries max_bytes k v (size_of size) now c h)
          (set_locked-InOrder log k c h.consistent o v (size_of size) now)
    calls-InOrder (deleting k ∷ rest) log c h o =
        calls-InOrder rest log (delete_locked keys k c)
          (delete_locked-IsValid keys max_entries max_bytes k c h)
          (delete_locked-InOrder log k c h.consistent o)
    calls-InOrder (clearing ∷ rest) log c h o =
        calls-InOrder rest log (clear_locked c)
          (clear_locked-IsValid keys max_entries max_bytes c h)
          (unfold clear_locked in unfold InOrder in tt)

  -- After any calls on a new cache, the list is in the order of the last `Get` or `Set` of its entries' keys, the
  -- latest first; and under whatever bounds, the eviction then keeps a longest beginning of the list that the
  -- bounds allow, so that what it drops was used before all that it keeps.
  pub calls-IsEvicted :
      (max_entries max_bytes ttl : ℤ) (all_calls : List (Call K V)) (entries : ℕ) (bytes : ℤ)
      → (c : LruTtl K V) × (calls keys all_calls (some (new_lru_ttl max_entries max_bytes ttl))
          ≡ some c)
        × InOrder (uses all_calls []) 0 c.ll
        × IsEvicted keys
            (record c { max_entries = entries; max_bytes = bytes })
            (evict_locked keys (record c { max_entries = entries; max_bytes = bytes }))
  calls-IsEvicted max_entries max_bytes ttl all_calls entries bytes =
      let (c, e, h, o) =
        calls-InOrder (or_default max_entries 1) max_bytes all_calls []
          (new_lru_ttl max_entries max_bytes ttl)
          (new_lru_ttl-IsValid keys max_entries max_bytes ttl)
          (unfold new_lru_ttl in unfold InOrder in tt) in
      let bounded : LruTtl K V = record c { max_entries = entries; max_bytes = bytes } in
      (
        c,
        e,
        o,
        evict_locked_lem keys bounded
            (record { keyed = h.keyed; indexed = h.indexed; total = h.total }),
      )
