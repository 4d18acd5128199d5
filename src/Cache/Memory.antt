-- ===== src/Cache/Memory.antt =====
-- `LRUTTL` of internal/cache/memory/lru_ttl.go: a list of entries, the most recently used first, and a
-- map from keys to the list's elements. A pointer to an element is its handle. The lock is held for the
-- whole of each method, so a method is one step; the clock's reading is an argument, and times and
-- durations are numbers of nanoseconds.
pub mod Index
pub mod Eviction
pub mod Consistency
pub mod Runs
pub mod Recency
pub mod Retrieval
pub mod Storing
pub mod Coherence
use insightify_core.Prelude.{
  ℤ, pos, negsuc, ℕ, zero, suc, ◌+◌, ◌-◌, ◌≡◌, ◌↔◌, Bool, true, false, ◌&&◌, Option, none, some,
  List, [], ◌∷◌, ltb, leb, ◌==◌, length, if◌then◌else◌,
}
use insightify_core.Prelude.Text.{Text, text_eq, text_eq_iff}

-- What the code asks of a comparable type.
pub record Comparable (K : Type 0) : Type 0 where
  pub same : K → K → Bool
  pub same_iff : (a b : K) → (same a b ≡ true) ↔ (a ≡ b)

abbrev pub texts : Comparable Text
texts = record { same = text_eq; same_iff = text_eq_iff }

pub record Entry (K V : Type 0) : Type 0 where
  pub handle : ℕ
  pub key : K
  pub value : V
  pub expires_at : ℕ
  pub size : ℕ

-- `next` is the handle of the element that is allocated next.
pub record LruTtl (K V : Type 0) : Type 0 where
  pub ll : List (Entry K V)
  pub items : List (K × ℕ)
  pub max_entries : ℕ
  pub max_bytes : ℤ
  pub total_bytes : ℕ
  pub ttl : ℕ
  pub next : ℕ

-- 30 seconds.
abbrev pub default_ttl : ℕ
default_ttl = 30000000000

unfoldable pub or_default : ℤ → ℕ → ℕ
or_default (pos zero) d = d
or_default (pos (suc n)) d = suc n
or_default (negsuc n) d = d

unfoldable pub size_of : ℤ → ℕ
size_of (pos n) = n
size_of (negsuc n) = 0

-- `c.maxBytes <= 0 || c.totalBytes <= c.maxBytes`.
unfoldable pub bytes_fit : ℤ → ℕ → Bool
bytes_fit (pos zero) total = true
bytes_fit (pos (suc n)) total = leb total (suc n)
bytes_fit (negsuc n) total = true

unfoldable pub new_lru_ttl : {K V : Type 0} → ℤ → ℤ → ℤ → LruTtl K V
unfolding or_default
new_lru_ttl max_entries max_bytes ttl = record {
  ll = [];
  items = [];
  max_entries = or_default max_entries 1;
  max_bytes = max_bytes;
  total_bytes = 0;
  ttl = or_default ttl default_ttl;
  next = 0;
}

module _ {K : Type 0} (keys : Comparable K) where
  open keys use {same}

  unfoldable pub find_item : K → List (K × ℕ) → Option ℕ
  find_item k [] = none
  find_item k ((k', h) ∷ items) = if same k k' then some h else find_item k items

  -- `delete` on the map.
  unfoldable pub delete_item : K → List (K × ℕ) → List (K × ℕ)
  delete_item k [] = []
  delete_item k ((k', h) ∷ items) =
      let rest = delete_item k items in if same k k' then rest else (k', h) ∷ rest

module _ {K V : Type 0} where
  -- The element that a pointer leads to.
  unfoldable pub element_at : ℕ → List (Entry K V) → Option (Entry K V)
  element_at h [] = none
  element_at h (e ∷ es) = if e.handle == h then some e else element_at h es

  -- `list.Remove`.
  unfoldable pub take_out : ℕ → List (Entry K V) → List (Entry K V)
  take_out h [] = []
  take_out h (e ∷ es) = let rest = take_out h es in if e.handle == h then es else e ∷ rest

  -- `list.Back`, of a list that is not empty.
  unfoldable pub back : Entry K V → List (Entry K V) → Entry K V
  back e [] = e
  back e (e' ∷ es) = back e' es

  -- `MoveToFront`, of an entry with new contents.
  unfoldable pub move_to_front : Entry K V → LruTtl K V → LruTtl K V
  unfolding take_out
  move_to_front e c = record c { ll = e ∷ take_out e.handle c.ll }

  unfoldable pub clear_locked : LruTtl K V → LruTtl K V
  clear_locked c = record c { ll = []; items = []; total_bytes = 0 }

  unfoldable pub clear : Option (LruTtl K V) → Option (LruTtl K V)
  unfolding clear_locked
  clear none = none
  clear (some c) = some (clear_locked c)

  module _ (keys : Comparable K) where
    -- The sum of the sizes never exceeds the total, so the subtraction that stops at 0 is the source's
    -- test for a negative total.
    unfoldable pub remove_element : Entry K V → LruTtl K V → LruTtl K V
    unfolding take_out delete_item
    remove_element e c = record c {
      ll = take_out e.handle c.ll;
      items = delete_item keys e.key c.items;
      total_bytes = c.total_bytes - e.size;
    }

    -- The element that the map has for a key.
    unfoldable pub find_element : K → LruTtl K V → Option (Entry K V)
    unfolding find_item element_at
    find_element k c = elim (find_item keys k c.items) [ none ↦ none | some h ↦ element_at h c.ll ]

    unfoldable pub get_locked : K → ℕ → LruTtl K V → Option V × LruTtl K V
    unfolding find_element remove_element move_to_front
    get_locked k now c = elim (find_element k c) [
      | none ↦ (none, c)
      | some e ↦
          if ltb e.expires_at now
          then (none, remove_element e c)
          else (some e.value, move_to_front e c)
    ]

    unfoldable pub fits : LruTtl K V → Bool
    unfolding bytes_fit
    fits c = leb (length c.ll) c.max_entries && bytes_fit c.max_bytes c.total_bytes

    -- `evictLocked`: every round removes an element, so as many rounds as elements are enough.
    unfoldable pub evict_rounds : ℕ → LruTtl K V → LruTtl K V
    unfolding fits remove_element back
    evict_rounds zero c = c
    evict_rounds (suc fuel) c = elim c.ll [
      | [] ↦ c
      | e ∷ es ↦ if fits c then c else evict_rounds fuel (remove_element (back e es) c)
    ]

    unfoldable pub evict_locked : LruTtl K V → LruTtl K V
    unfolding evict_rounds
    evict_locked c = evict_rounds (length c.ll) c

    unfoldable pub set_locked : K → V → ℕ → ℕ → LruTtl K V → LruTtl K V
    unfolding find_element move_to_front evict_locked
    set_locked k v size now c = elim (find_element k c) [
      | some e ↦ evict_locked (
          move_to_front (record e { value = v; size = size; expires_at = now + c.ttl })
            (record c { total_bytes = (c.total_bytes - e.size) + size }))
      | none ↦
          let e : Entry K V = record {
            handle = c.next;
            key = k;
            value = v;
            expires_at = now + c.ttl;
            size = size;
          } in
          evict_locked (record c {
            ll = e ∷ c.ll;
            items = (k, c.next) ∷ c.items;
            total_bytes = c.total_bytes + size;
            next = suc c.next;
          })
    ]

    unfoldable pub delete_locked : K → LruTtl K V → LruTtl K V
    unfolding find_element remove_element
    delete_locked k c = elim (find_element k c) [ none ↦ c | some e ↦ remove_element e c ]

    -- The methods, of a pointer that may be nil.
    unfoldable pub get : K → ℕ → Option (LruTtl K V) → Option V × Option (LruTtl K V)
    unfolding get_locked
    get k now none = (none, none)
    get k now (some c) = let (v, c') = get_locked k now c in (v, some c')

    unfoldable pub set : K → V → ℤ → ℕ → Option (LruTtl K V) → Option (LruTtl K V)
    unfolding set_locked size_of
    set k v size now none = none
    set k v size now (some c) = some (set_locked k v (size_of size) now c)

    unfoldable pub delete : K → Option (LruTtl K V) → Option (LruTtl K V)
    unfolding delete_locked
    delete k none = none
    delete k (some c) = some (delete_locked k c)
