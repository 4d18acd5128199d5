-- ===== src/Cache/Memory/Runs.antt =====
-- Sequences of calls of a cache's methods.
use insightify_core.Prelude.{
  ℤ, pos, negsuc, ℕ, zero, suc, ◌≤◌, ◌≡◌, refl, ◌∙◌, ap, true, Option, some, List, [], ◌∷◌, ltb,
  length, Bool-cases, Option-cases, inl, inr, subst, arith,
}
use insightify_core.Cache.Memory.{
  bytes_fit, or_default, size_of, Comparable, Entry, LruTtl, new_lru_ttl, element_at, take_out,
  remove_element, move_to_front, evict_locked, get_locked, set_locked, delete_locked, clear_locked,
  get, set, delete, clear,
}
use insightify_core.Cache.Memory.Index.{sizes, lookup, lookup-element_at, sizes-take_out}
use insightify_core.Cache.Memory.Consistency.{
  IsConsistent, find_element-lookup, remove_element-IsConsistent, moved-IsConsistent,
  added-IsConsistent, empty-IsConsistent,
}
use insightify_core.Cache.Memory.Eviction.{allowed, allowed_nil, evict_locked_lem}

-- The calls, with the clock's reading where a method asks for it.
pub data Call (K V : Type 0) : Type 0 where
  getting : K → ℕ → Call K V
  setting : K → V → ℤ → ℕ → Call K V
  deleting : K → Call K V
  clearing : Call K V

bytes_fit-le : (b : ℤ) (t u : ℕ) → bytes_fit b t ≡ true → u ≤ t → bytes_fit b u ≡ true
unfolding bytes_fit
bytes_fit-le (pos zero) t u h le = refl
bytes_fit-le (pos (suc n)) t u h le = ground arith
bytes_fit-le (negsuc n) t u h le = refl

module _ {K V : Type 0} (keys : Comparable K) where
  unfoldable pub call : Call K V → Option (LruTtl K V) → Option (LruTtl K V)
  unfolding get set delete clear
  call (getting k now) c = (get keys k now c).1
  call (setting k v size now) c = set keys k v size now c
  call (deleting k) c = delete keys k c
  call clearing c = clear c

  unfoldable pub calls : List (Call K V) → Option (LruTtl K V) → Option (LruTtl K V)
  unfolding call
  calls [] c = c
  calls (a ∷ rest) c = calls rest (call a c)

  -- The list, the map and the total agree, and the list is within the bounds.
  pub record IsValid (max_entries : ℕ) (max_bytes : ℤ) (c : LruTtl K V) : Type 0 where
    pub consistent : IsConsistent keys c
    pub same_entries : c.max_entries ≡ max_entries
    pub same_bytes : c.max_bytes ≡ max_bytes
    pub fit : allowed max_entries max_bytes c.ll ≡ true

  module _ (max_entries : ℕ) (max_bytes : ℤ) where
    pub smaller_fits :
        (es ds : List (Entry K V))
        → allowed max_entries max_bytes es ≡ true
        → length ds ≤ length es
        → sizes ds ≤ sizes es
        → allowed max_entries max_bytes ds ≡ true
    smaller_fits es ds h shorter lighter =
        ground (arith, bytes_fit-le max_bytes (sizes es) (sizes ds))

    remove_element-IsValid :
        (c : LruTtl K V) (e : Entry K V)
        → IsValid max_entries max_bytes c
        → element_at e.handle c.ll ≡ some e
        → IsValid max_entries max_bytes (remove_element keys e c)
    unfolding remove_element
    remove_element-IsValid c e h m =
        let (lighter, shorter) = sizes-take_out e.handle c.ll e m in
        record {
          consistent = remove_element-IsConsistent keys c e h.consistent m;
          same_entries = h.same_entries;
          same_bytes = h.same_bytes;
          fit = smaller_fits c.ll (take_out e.handle c.ll) h.fit (omega arith) (omega arith);
        }

    evict_locked-IsValid :
        (c : LruTtl K V)
        → IsConsistent keys c
        → c.max_entries ≡ max_entries
        → c.max_bytes ≡ max_bytes
        → IsValid max_entries max_bytes (evict_locked keys c)
    evict_locked-IsValid c h same_entries same_bytes =
        let r = evict_locked_lem keys c h in
        record {
          consistent = r.consistent;
          same_entries = r.same_entries ∙ same_entries;
          same_bytes = r.same_bytes ∙ same_bytes;
          fit =
              subst (λ m. allowed m max_bytes (evict_locked keys c).ll ≡ true) same_entries
                (subst (λ b. allowed c.max_entries b (evict_locked keys c).ll ≡ true) same_bytes
                  r.longest.fit);
        }

    pub get_locked-IsValid :
        (k : K) (now : ℕ) (c : LruTtl K V)
        → IsValid max_entries max_bytes c
        → IsValid max_entries max_bytes (get_locked keys k now c).1
    unfolding get_locked move_to_front
    get_locked-IsValid k now c h = elim (Option-cases (lookup keys k c.ll)) [
      | inl e ↦ rw (find_element-lookup keys c k h.consistent, e, get_locked) h
      | inr (x, e) ↦
          let found = (lookup-element_at keys c.next k c.ll x h.consistent.keyed e).0 in
          let (lighter, shorter) = sizes-take_out x.handle c.ll x found in
          rw (find_element-lookup keys c k h.consistent, e, get_locked)
            (elim (Bool-cases (ltb x.expires_at now)) [
              | inl old ↦ rw old (remove_element-IsValid c x h found)
              | inr young ↦ rw young (record {
                consistent =
                    moved-IsConsistent keys c x x h.consistent found refl c.total_bytes refl;
                same_entries = h.same_entries;
                same_bytes = h.same_bytes;
                fit =
                    smaller_fits c.ll (x ∷ take_out x.handle c.ll) h.fit (omega arith)
                      (omega arith);
              })
            ])
    ]

    pub delete_locked-IsValid :
        (k : K) (c : LruTtl K V)
        → IsValid max_entries max_bytes c
        → IsValid max_entries max_bytes (delete_locked keys k c)
    unfolding delete_locked
    delete_locked-IsValid k c h = elim (Option-cases (lookup keys k c.ll)) [
      | inl e ↦ rw (find_element-lookup keys c k h.consistent, e, delete_locked) h
      | inr (x, e) ↦
          rw (find_element-lookup keys c k h.consistent, e, delete_locked)
            (remove_element-IsValid c x h
              (lookup-element_at keys c.next k c.ll x h.consistent.keyed e).0)
    ]

    pub set_locked-IsValid :
        (k : K) (v : V) (size now : ℕ) (c : LruTtl K V)
        → IsValid max_entries max_bytes c
        → IsValid max_entries max_bytes (set_locked keys k v size now c)
    unfolding set_locked
    set_locked-IsValid k v size now c h = elim (Option-cases (lookup keys k c.ll)) [
      | inl e ↦
          rw (find_element-lookup keys c k h.consistent, e, set_locked)
            (evict_locked-IsValid _ (added-IsConsistent keys c _ h.consistent e refl) h.same_entries
              h.same_bytes)
      | inr (x, e) ↦
          let found = (lookup-element_at keys c.next k c.ll x h.consistent.keyed e).0 in
          let lighter = (sizes-take_out x.handle c.ll x found).0 in
          rw (find_element-lookup keys c k h.consistent, e, set_locked)
            (evict_locked-IsValid _
              (moved-IsConsistent keys c x _ h.consistent found refl _
                (omega (arith, h.consistent.total)))
              h.same_entries h.same_bytes)
    ]

    pub clear_locked-IsValid :
        (c : LruTtl K V)
        → IsValid max_entries max_bytes c
        → IsValid max_entries max_bytes (clear_locked c)
    unfolding clear_locked
    clear_locked-IsValid c h = record {
      consistent = empty-IsConsistent keys (clear_locked c) refl refl refl;
      same_entries = h.same_entries;
      same_bytes = h.same_bytes;
      fit = allowed_nil max_entries max_bytes;
    }

    call-IsValid :
        (a : Call K V) (c : LruTtl K V)
        → IsValid max_entries max_bytes c
        → (c' : LruTtl K V) × (call a (some c) ≡ some c') × IsValid max_entries max_bytes c'
    unfolding call get set delete clear
    call-IsValid (getting k now) c h = (_, refl, get_locked-IsValid k now c h)
    call-IsValid (setting k v size now) c h =
        (_, refl, set_locked-IsValid k v (size_of size) now c h)
    call-IsValid (deleting k) c h = (_, refl, delete_locked-IsValid k c h)
    call-IsValid clearing c h = (_, refl, clear_locked-IsValid c h)

    calls-IsValid :
        (all_calls : List (Call K V)) (c : LruTtl K V)
        → IsValid max_entries max_bytes c
        → (c' : LruTtl K V) × (calls all_calls (some c) ≡ some c')
          × IsValid max_entries max_bytes c'
    unfolding calls
    calls-IsValid [] c h = (c, refl, h)
    calls-IsValid (a ∷ rest) c h =
        let (c', e, h') = call-IsValid a c h in
        let (d, e', k) = calls-IsValid rest c' h' in (d, ap (calls rest) e ∙ e', k)

  pub new_lru_ttl-IsValid :
      (max_entries max_bytes ttl : ℤ)
      → IsValid (or_default max_entries 1) max_bytes (new_lru_ttl max_entries max_bytes ttl)
  unfolding new_lru_ttl
  new_lru_ttl-IsValid max_entries max_bytes ttl = record {
    consistent = empty-IsConsistent keys _ refl refl refl;
    same_entries = refl;
    same_bytes = refl;
    fit = allowed_nil (or_default max_entries 1) max_bytes;
  }

  -- Whatever sequence of calls a new cache serves, its list, its map and its total agree afterwards, the
  -- list has no more entries than the bound allows (one, if the bound given is not positive), and the
  -- sizes add up to no more than the bound on bytes, if there is one.
  pub calls-new_lru_ttl :
      (max_entries max_bytes ttl : ℤ) (all_calls : List (Call K V))
      → (c : LruTtl K V) × (calls all_calls (some (new_lru_ttl max_entries max_bytes ttl)) ≡ some c)
        × IsValid (or_default max_entries 1) max_bytes c
  calls-new_lru_ttl max_entries max_bytes ttl all_calls =
      calls-IsValid (or_default max_entries 1) max_bytes all_calls
        (new_lru_ttl max_entries max_bytes ttl) (new_lru_ttl-IsValid max_entries max_bytes ttl)
