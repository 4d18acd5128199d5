-- ===== src/Cache/Memory/Coherence.antt =====
-- A cache whose values are right: what the caches in front of a store rely on.
use insightify_core.Prelude.{
  ℕ, zero, suc, ℤ, pos, negsuc, ◌≤◌, ◌<◌, ◌≡◌, sym, ◌∙◌, Bool, true, false, none, some,
  if◌then◌else◌, subst, Bool-cases, inl, inr, arith,
}
use insightify_core.Cache.Memory.{
  Comparable, LruTtl, get_locked, set_locked, delete_locked, or_default, new_lru_ttl,
}
use insightify_core.Cache.Memory.Index.{lookup}
use insightify_core.Cache.Memory.Runs.{
  IsValid, new_lru_ttl-IsValid, get_locked-IsValid, set_locked-IsValid, delete_locked-IsValid,
}
use insightify_core.Cache.Memory.Retrieval.{peek, get_locked-peek, delete_locked-peek}
use insightify_core.Cache.Memory.Storing.{set_locked-peek}

or_default_pos : (n : ℤ) → 0 < or_default n 1
unfolding or_default
or_default_pos (pos zero) = omega arith
or_default_pos (pos (suc n)) = omega arith
or_default_pos (negsuc n) = omega arith

module _ {K V : Type 0} (keys : Comparable K) where
  open keys use {same, same_iff}

  -- From the time `t` on, the cache gives a key only a value that is right for it.
  pub record IsCoherent (Right : K → V → Type 0) (t : ℕ) (c : LruTtl K V) : Type 0 where
    pub max_entries : ℕ
    pub max_bytes : ℤ
    pub some_room : 0 < max_entries
    pub valid : IsValid keys max_entries max_bytes c
    pub agrees : (k : K) (later : ℕ) (v : V) → t ≤ later → peek keys k later c ≡ some v → Right k v

  -- What is right for the other keys stays right.
  abbrev pub KeepsOthers : (K → V → Type 0) → (K → V → Type 0) → K → Type 0
  KeepsOthers Right Right' k = (j : K) (v : V) → same j k ≡ false → Right j v → Right' j v

  eq_of_if : (b : Bool) (v w : V) → (if b then some v else none) ≡ some w → v ≡ w
  eq_of_if true v w h = cc
  eq_of_if false v w h = cc

  module _ {Right Right' : K → V → Type 0} where
    pub weaken-IsCoherent :
        (t u : ℕ) (c : LruTtl K V)
        → t ≤ u
        → ((k : K) (v : V) → Right k v → Right' k v)
        → IsCoherent Right t c
        → IsCoherent Right' u c
    weaken-IsCoherent t u c le weaker h = record {
      max_entries = h.max_entries;
      max_bytes = h.max_bytes;
      some_room = h.some_room;
      valid = h.valid;
      agrees = λ k later v after e. weaker k v (h.agrees k later v (omega arith) e);
    }

    pub set_locked-IsCoherent :
        (k : K) (v : V) (size now t : ℕ) (c : LruTtl K V)
        → IsCoherent Right t c
        → KeepsOthers Right Right' k
        → Right' k v
        → IsCoherent Right' t (set_locked keys k v size now c)
    set_locked-IsCoherent k v size now t c h keeps right = record {
      max_entries = h.max_entries;
      max_bytes = h.max_bytes;
      some_room = h.some_room;
      valid = set_locked-IsValid keys h.max_entries h.max_bytes k v size now c h.valid;
      agrees = λ j later w le e.
          let room : 0 < c.max_entries = omega (arith, h.some_room, h.valid.same_entries) in
          let (own, others) = set_locked-peek keys c k v size now later h.valid.consistent room in
          elim (Bool-cases (same j k)) [
            | inl p ↦
                let same_key : j ≡ k = (same_iff j k).0 p in
                let read =
                  subst (λ i. peek keys i later (set_locked keys k v size now c) ≡ some w) same_key
                    e in
                subst (λ i. Right' i w) (sym same_key)
                  (subst (Right' k) (eq_of_if _ v w (sym own ∙ read)) right)
            | inr p ↦ elim (others j p) [
              | inl q ↦ keeps j w p (h.agrees j later w le (sym q ∙ e))
              | inr q ↦ cc
            ]
          ];
    }

    pub delete_locked-IsCoherent :
        (k : K) (t : ℕ) (c : LruTtl K V)
        → IsCoherent Right t c
        → KeepsOthers Right Right' k
        → IsCoherent Right' t (delete_locked keys k c)
    delete_locked-IsCoherent k t c h keeps = record {
      max_entries = h.max_entries;
      max_bytes = h.max_bytes;
      some_room = h.some_room;
      valid = delete_locked-IsValid keys h.max_entries h.max_bytes k c h.valid;
      agrees = λ j later w le e.
          let found = delete_locked-peek keys c k j later h.valid.consistent in
          elim (Bool-cases (same j k)) [
            | inl p ↦ ground (arith, found)
            | inr p ↦ keeps j w p (h.agrees j later w le (ground (arith, found)))
          ];
    }

  module _ {Right : K → V → Type 0} where
    pub get_locked-IsCoherent :
        (k : K) (now t : ℕ) (c : LruTtl K V)
        → t ≤ now
        → IsCoherent Right t c
        → IsCoherent Right now (get_locked keys k now c).1
          × ((v : V) → (get_locked keys k now c).0 ≡ some v → Right k v)
    get_locked-IsCoherent k now t c le h = (
      record {
        max_entries = h.max_entries;
        max_bytes = h.max_bytes;
        some_room = h.some_room;
        valid = get_locked-IsValid keys h.max_entries h.max_bytes k now c h.valid;
        agrees = λ j later v after e.
            h.agrees j later v (omega arith)
              (sym (get_locked-peek keys c k j now later h.valid.consistent after).1 ∙ e);
      },
      λ v e.
          h.agrees k now v le
            (sym (get_locked-peek keys c k k now now h.valid.consistent (omega arith)).0 ∙ e),
    )

    pub new_lru_ttl-IsCoherent :
        (max_entries max_bytes ttl : ℤ) (t : ℕ)
        → IsCoherent Right t (new_lru_ttl max_entries max_bytes ttl)
    new_lru_ttl-IsCoherent max_entries max_bytes ttl t = record {
      max_entries = or_default max_entries 1;
      max_bytes = max_bytes;
      some_room = or_default_pos max_entries;
      valid = new_lru_ttl-IsValid keys max_entries max_bytes ttl;
      agrees = λ k later v le e. unfold new_lru_ttl lookup in cc;
    }
