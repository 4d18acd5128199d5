-- ===== src/Cache/Memory/Eviction.antt =====
-- `evictLocked`: what it keeps are the first entries of the list, as many as the bounds allow.
use insightify_core.Prelude.{
  ℤ, pos, negsuc, append_assoc, append_nil, ℕ, zero, suc, ◌≤◌, ◌≡◌, refl, sym, ◌∙◌, ap, true, false,
  Bool, ◌&&◌, some, List, [], ◌∷◌, ◌++◌, ◌⊎◌, leb, length, if◌then◌else◌, Bool-cases, List-cases,
  inl, inr, subst, arith,
}
use insightify_core.Cache.Memory.{
  bytes_fit, Comparable, Entry, LruTtl, element_at, take_out, back, remove_element, fits,
  evict_rounds, evict_locked,
}
use insightify_core.Cache.Memory.Index.{sizes, IsKeyed, element_at_same, sizes-take_out}
use insightify_core.Cache.Memory.Consistency.{IsConsistent, remove_element-IsConsistent}

abbrev pub drop_back : {K V : Type 0} → Entry K V → List (Entry K V) → List (Entry K V)
drop_back e [] = []
drop_back e (e' ∷ es) = e ∷ drop_back e' es

-- The bounds allow a list of entries.
abbrev pub allowed : {K V : Type 0} → ℕ → ℤ → List (Entry K V) → Bool
allowed max_entries max_bytes es = leb (length es) max_entries && bytes_fit max_bytes (sizes es)

pub allowed_nil :
    (max_entries : ℕ) (max_bytes : ℤ) → (leb 0 max_entries && bytes_fit max_bytes 0) ≡ true
unfolding bytes_fit
allowed_nil max_entries (pos zero) = ground arith
allowed_nil max_entries (pos (suc n)) = ground arith
allowed_nil max_entries (negsuc n) = ground arith

module _ {K V : Type 0} where
  drop_back-append :
      (e : Entry K V) (es : List (Entry K V)) → drop_back e es ++ (back e es ∷ []) ≡ e ∷ es
  unfolding back
  drop_back-append e [] = refl
  drop_back-append e (e' ∷ es) = ap (λ r. e ∷ r) (drop_back-append e' es)

module _ {K V : Type 0} (keys : Comparable K) where
  back_lem :
      (next : ℕ) (e : Entry K V) (es : List (Entry K V))
      → IsKeyed keys next (e ∷ es)
      → (element_at (back e es).handle (e ∷ es) ≡ some (back e es))
        × (take_out (back e es).handle (e ∷ es) ≡ drop_back e es)
  unfolding back element_at take_out IsKeyed
  back_lem next e [] u = ground arith
  back_lem next e (e' ∷ es) u =
      ground
        (arith, back_lem next e' es u.3, element_at_same e.handle (back e' es).handle (e' ∷ es))

  -- A longest allowed beginning of a list.
  pub record IsLongest (max_entries : ℕ) (max_bytes : ℤ) (es kept : List (Entry K V)) : Type 0 where
    pub dropped : List (Entry K V)
    pub begins : es ≡ kept ++ dropped
    pub fit : allowed max_entries max_bytes kept ≡ true
    pub longest :
        (dropped ≡ [])
        ⊎ ((e : Entry K V) × (rest : List (Entry K V)) × (dropped ≡ e ∷ rest)
            × (allowed max_entries max_bytes (kept ++ (e ∷ [])) ≡ false))

  shorter-IsLongest :
      (max_entries : ℕ) (max_bytes : ℤ) (e : Entry K V) (es kept : List (Entry K V))
      → allowed max_entries max_bytes (e ∷ es) ≡ false
      → IsLongest max_entries max_bytes (drop_back e es) kept
      → IsLongest max_entries max_bytes (e ∷ es) kept
  shorter-IsLongest max_entries max_bytes e es kept over h =
      let whole : e ∷ es ≡ kept ++ (h.dropped ++ (back e es ∷ [])) =
        sym (drop_back-append e es)
        ∙ ap (λ r. r ++ (back e es ∷ [])) h.begins
        ∙ append_assoc kept h.dropped (back e es ∷ []) in
      record {
        dropped = h.dropped ++ (back e es ∷ []);
        begins = whole;
        fit = h.fit;
        longest = inr (elim h.longest [
          | inl none_dropped ↦ (
            back e es,
            [],
            ap (λ r. r ++ (back e es ∷ [])) none_dropped,
            (let one : e ∷ es ≡ kept ++ (back e es ∷ []) =
                  whole ∙ ap (λ r. kept ++ (r ++ (back e es ∷ []))) none_dropped in
                sym (ap (allowed max_entries max_bytes) one) ∙ over),
          )
          | inr (d, rest, begins, more) ↦
              (d, rest ++ (back e es ∷ []), ap (λ r. r ++ (back e es ∷ [])) begins, more)
        ]);
      }

  pub record IsEvicted (c c' : LruTtl K V) : Type 0 where
    pub consistent : IsConsistent keys c'
    pub longest : IsLongest c.max_entries c.max_bytes c.ll c'.ll
    pub same_entries : c'.max_entries ≡ c.max_entries
    pub same_bytes : c'.max_bytes ≡ c.max_bytes

  allowed-fits :
      (c : LruTtl K V) → IsConsistent keys c → fits keys c ≡ allowed c.max_entries c.max_bytes c.ll
  unfolding fits
  allowed-fits c h = rw h.total refl

  kept_whole :
      (c : LruTtl K V)
      → IsConsistent keys c
      → allowed c.max_entries c.max_bytes c.ll ≡ true
      → IsEvicted c c
  kept_whole c h a = record {
    consistent = h;
    longest = record { dropped = []; begins = sym (append_nil c.ll); fit = a; longest = inl refl };
    same_entries = refl;
    same_bytes = refl;
  }

  module _ (c : LruTtl K V) (e : Entry K V) (es : List (Entry K V)) (h : IsConsistent keys c)
      (whole : c.ll ≡ e ∷ es) where
    back_found : element_at (back e es).handle c.ll ≡ some (back e es)
    back_found =
        ap (element_at (back e es).handle) whole
        ∙ (back_lem c.next e es (subst (IsKeyed keys c.next) whole h.keyed)).0

    back_taken : take_out (back e es).handle c.ll ≡ drop_back e es
    back_taken =
        ap (take_out (back e es).handle) whole
        ∙ (back_lem c.next e es (subst (IsKeyed keys c.next) whole h.keyed)).1

  removed_back :
      (c c' : LruTtl K V) (e : Entry K V) (es : List (Entry K V))
      → IsConsistent keys c
      → c.ll ≡ e ∷ es
      → allowed c.max_entries c.max_bytes c.ll ≡ false
      → IsEvicted (remove_element keys (back e es) c) c'
      → IsEvicted c c'
  unfolding remove_element
  removed_back c c' e es h whole over r = record {
    consistent = r.consistent;
    longest =
        subst (λ l. IsLongest c.max_entries c.max_bytes l c'.ll) (sym whole)
          (shorter-IsLongest c.max_entries c.max_bytes e es c'.ll
            (sym (ap (allowed c.max_entries c.max_bytes) whole) ∙ over)
            (subst (λ l. IsLongest c.max_entries c.max_bytes l c'.ll) (back_taken c e es h whole)
              r.longest));
    same_entries = r.same_entries;
    same_bytes = r.same_bytes;
  }

  shorter :
      (c : LruTtl K V) (e : Entry K V) (fuel : ℕ)
      → element_at e.handle c.ll ≡ some e
      → length c.ll ≤ suc fuel
      → length (remove_element keys e c).ll ≤ fuel
  unfolding remove_element
  shorter c e fuel found enough = omega (arith, sizes-take_out e.handle c.ll e found)

  evict_rounds-next :
      (fuel : ℕ) (c : LruTtl K V) (e : Entry K V) (es : List (Entry K V))
      → c.ll ≡ e ∷ es
      → evict_rounds keys (suc fuel) c
        ≡ (if fits keys c then c else evict_rounds keys fuel (remove_element keys (back e es) c))
  unfolding evict_rounds
  evict_rounds-next fuel c e es whole =
      subst
        (λ l.
          elim l [
            | [] ↦ c
            | x ∷ r ↦
                if fits keys c then c else evict_rounds keys fuel (remove_element keys (back x r) c)
          ]
          ≡ (if fits keys c then c else evict_rounds keys fuel (remove_element keys (back e es) c)))
        (sym whole) refl

  evict_rounds_lem :
      (fuel : ℕ) (c : LruTtl K V)
      → IsConsistent keys c
      → length c.ll ≤ fuel
      → IsEvicted c (evict_rounds keys fuel c)
  unfolding evict_rounds
  evict_rounds_lem zero c h enough = elim (List-cases c.ll) [
    | inl e ↦ kept_whole c h (simp e (allowed_nil c.max_entries c.max_bytes))
    | inr (x, r, e) ↦ absurd (omega (arith, ap length e))
  ]
  evict_rounds_lem (suc fuel) c h enough = elim (List-cases c.ll) [
    | inl e ↦
        simp (e, evict_rounds) (kept_whole c h (simp e (allowed_nil c.max_entries c.max_bytes)))
    | inr (x, r, e) ↦ rw (evict_rounds-next fuel c x r e) (elim (Bool-cases (fits keys c)) [
      | inl f ↦ rw f (kept_whole c h (sym (allowed-fits c h) ∙ f))
      | inr f ↦
          let found = back_found c x r h e in
          rw f (
            removed_back c _ x r h e (sym (allowed-fits c h) ∙ f) (
              evict_rounds_lem fuel (remove_element keys (back x r) c)
                (remove_element-IsConsistent keys c (back x r) h found)
                (shorter c (back x r) fuel found enough)))
    ])
  ]

  -- From a consistent cache, the eviction ends within its fuel; what it keeps is consistent, within the
  -- bounds, and a longest beginning of the list that is.
  pub evict_locked_lem : (c : LruTtl K V) → IsConsistent keys c → IsEvicted c (evict_locked keys c)
  unfolding evict_locked
  evict_locked_lem c h = evict_rounds_lem (length c.ll) c h (omega arith)
