-- ===== src/Cache/Memory/Consistency.antt =====
-- The list, the map and the total agree, and the changes of single elements keep it so.
use insightify_core.Prelude.{
  ℕ, suc, ◌+◌, ◌≡◌, refl, none, some, [], ◌∷◌, Option-cases, inl, inr, arith,
}
use insightify_core.Cache.Memory.{
  Comparable, Entry, LruTtl, element_at, find_item, remove_element, find_element, move_to_front,
}
use insightify_core.Cache.Memory.Index.{
  handle_of, sizes, lookup, IsKeyed, lookup-element_at, element_at-lookup, element_at-new,
  element_at-taken, element_at-below, lookup_same, IsKeyed-suc, take_out-IsKeyed, lookup-take_out,
  sizes-take_out, find_item-delete_item,
}

module _ {K V : Type 0} (keys : Comparable K) where
  open keys use {same, same_iff}

  pub record IsConsistent (c : LruTtl K V) : Type 0 where
    pub keyed : IsKeyed keys c.next c.ll
    pub indexed : (k : K) → find_item keys k c.items ≡ handle_of (lookup keys k c.ll)
    pub total : c.total_bytes ≡ sizes c.ll

  pub find_element-lookup :
      (c : LruTtl K V) (k : K) → IsConsistent c → find_element keys k c ≡ lookup keys k c.ll
  unfolding find_element
  find_element-lookup c k h = elim (Option-cases (lookup keys k c.ll)) [
    | inl e ↦ ground (arith, h.indexed k)
    | inr (d, e) ↦ ground (arith, h.indexed k, lookup-element_at keys c.next k c.ll d h.keyed e)
  ]

  pub remove_element-IsConsistent :
      (c : LruTtl K V) (e : Entry K V)
      → IsConsistent c
      → element_at e.handle c.ll ≡ some e
      → IsConsistent (remove_element keys e c)
  unfolding remove_element
  remove_element-IsConsistent c e h m = record {
    keyed = take_out-IsKeyed keys c.next e.handle c.ll h.keyed;
    indexed = λ k. ground (
      arith,
      h.indexed k,
      lookup-take_out keys c.next e.handle k c.ll e h.keyed m,
      find_item-delete_item keys k e.key c.items,
    );
    total = omega (arith, h.total, sizes-take_out e.handle c.ll e m);
  }

  -- The entry `d` is put in front in the place of `e`, which has its handle and its key.
  module _ (c : LruTtl K V) (e d : Entry K V) where
    pub moved-IsConsistent :
        IsConsistent c
        → element_at d.handle c.ll ≡ some e
        → d.key ≡ e.key
        → (total : ℕ) → total + e.size ≡ c.total_bytes + d.size
        → IsConsistent (move_to_front d (record c { total_bytes = total }))
    unfolding move_to_front lookup IsKeyed
    moved-IsConsistent h m same_key total t = record {
      keyed = (
        element_at-taken keys c.next d.handle c.ll h.keyed,
        ground (
          arith,
          lookup-take_out keys c.next d.handle d.key c.ll e h.keyed m,
          same_iff d.key e.key,
        ),
        element_at-below keys c.next d.handle c.ll e h.keyed m,
        take_out-IsKeyed keys c.next d.handle c.ll h.keyed,
      );
      indexed = λ k. ground (
        arith,
        h.indexed k,
        lookup-take_out keys c.next d.handle k c.ll e h.keyed m,
        same_iff k d.key,
        same_iff k e.key,
        element_at-lookup keys c.next d.handle c.ll e h.keyed m,
        lookup_same keys k e.key c.ll,
      );
      total = omega (arith, h.total, sizes-take_out d.handle c.ll e m);
    }

  pub added-IsConsistent :
      (c : LruTtl K V) (e : Entry K V)
      → IsConsistent c
      → lookup keys e.key c.ll ≡ none
      → e.handle ≡ c.next
      → IsConsistent (record c {
        ll = e ∷ c.ll;
        items = (e.key, e.handle) ∷ c.items;
        total_bytes = c.total_bytes + e.size;
        next = suc c.next;
      })
  unfolding lookup IsKeyed find_item
  added-IsConsistent c e h new fresh = record {
    keyed = (
      rw fresh (element_at-new keys c.next c.ll h.keyed),
      new,
      omega (arith, fresh),
      IsKeyed-suc keys c.next c.ll h.keyed,
    );
    indexed = λ k. ground (arith, h.indexed k);
    total = omega (arith, h.total);
  }

  pub empty-IsConsistent :
      (c : LruTtl K V) → c.ll ≡ [] → c.items ≡ [] → c.total_bytes ≡ 0 → IsConsistent c
  unfolding lookup IsKeyed find_item
  empty-IsConsistent c no_ll no_items no_bytes = record {
    keyed = rw no_ll tt;
    indexed = λ k. rw (no_ll, no_items) refl;
    total = rw (no_ll, no_bytes) refl;
  }
