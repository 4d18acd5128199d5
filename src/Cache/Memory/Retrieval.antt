-- ===== src/Cache/Memory/Retrieval.antt =====
-- What a cache gives back after a call.
use insightify_core.Prelude.{
  ℕ, ◌≤◌, ◌≡◌, refl, Option, none, some, ltb, if◌then◌else◌, Bool-cases, Option-cases, inl, inr,
  arith,
}
use insightify_core.Cache.Memory.{
  Comparable, Entry, LruTtl, remove_element, move_to_front, get_locked, delete_locked,
}
use insightify_core.Cache.Memory.Index.{lookup, lookup_same, lookup-element_at, lookup-take_out}
use insightify_core.Cache.Memory.Consistency.{IsConsistent, find_element-lookup}

-- The value that an entry still has at a time.
abbrev pub fresh : {K V : Type 0} → ℕ → Option (Entry K V) → Option V
fresh now none = none
fresh now (some e) = if ltb e.expires_at now then none else some e.value

module _ {K V : Type 0} (keys : Comparable K) where
  open keys use {same, same_iff}

  -- The contents of a cache: the map from keys to values that its callers can tell apart.
  abbrev pub peek : K → ℕ → LruTtl K V → Option V
  peek k now c = fresh now (lookup keys k c.ll)

  -- In a consistent cache, `Get` gives what the key has at that time, and from then on every key gives
  -- what it gave before.
  pub get_locked-peek :
      (c : LruTtl K V) (k j : K) (now later : ℕ)
      → IsConsistent keys c
      → now ≤ later
      → ((get_locked keys k now c).0 ≡ peek k now c)
        × (peek j later (get_locked keys k now c).1 ≡ peek j later c)
  unfolding get_locked move_to_front remove_element lookup
  get_locked-peek c k j now later h le = elim (Option-cases (lookup keys k c.ll)) [
    | inl e ↦ rw (find_element-lookup keys c k h, e, get_locked) (refl, refl)
    | inr (x, e) ↦
        rw (find_element-lookup keys c k h, e, get_locked)
          (elim (Bool-cases (ltb x.expires_at now)) [
            | inl old ↦ rw old (
              refl,
              ground (
                arith,
                lookup-take_out keys c.next x.handle j c.ll x h.keyed
                    (lookup-element_at keys c.next k c.ll x h.keyed e).0,
                (lookup-element_at keys c.next k c.ll x h.keyed e).1,
                same_iff j k,
                same_iff j x.key,
                lookup_same keys j k c.ll,
              ),
            )
            | inr young ↦ rw young (
              refl,
              ground (
                arith,
                lookup-take_out keys c.next x.handle j c.ll x h.keyed
                    (lookup-element_at keys c.next k c.ll x h.keyed e).0,
                (lookup-element_at keys c.next k c.ll x h.keyed e).1,
                same_iff j k,
                same_iff j x.key,
                lookup_same keys j k c.ll,
              ),
            )
          ])
  ]

  -- In a consistent cache, `Delete` leaves its key without a value and changes nothing for any other.
  pub delete_locked-peek :
      (c : LruTtl K V) (k j : K) (now : ℕ)
      → IsConsistent keys c
      → peek j now (delete_locked keys k c) ≡ (if same j k then none else peek j now c)
  unfolding delete_locked remove_element
  delete_locked-peek c k j now h = elim (Option-cases (lookup keys k c.ll)) [
    | inl e ↦
        rw (find_element-lookup keys c k h, e, delete_locked) ground
          (arith, same_iff j k, lookup_same keys j k c.ll)
    | inr (x, e) ↦
        rw (find_element-lookup keys c k h, e, delete_locked) ground
          (
            arith,
            lookup-take_out keys c.next x.handle j c.ll x h.keyed
                (lookup-element_at keys c.next k c.ll x h.keyed e).0,
            (lookup-element_at keys c.next k c.ll x h.keyed e).1,
            same_iff j k,
            same_iff j x.key,
            lookup_same keys j k c.ll,
          )
  ]
