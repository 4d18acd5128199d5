-- ===== src/Tests/Caches.antt =====
-- The memory cache on a few calls.
use insightify_core.Prelude.{
  pos, ℕ, ◌+◌, ◌≡◌, refl, false, not, ◌&&◌, ◌⊎◌, none, some, List, [], ◌∷◌, map, ltb, ◌==◌, ==_iff,
  if◌then◌else◌, arith,
}
use insightify_core.Cache.Memory.{
  bytes_fit, or_default, Comparable, LruTtl, new_lru_ttl, get_locked, set_locked, delete_locked,
  clear_locked, evict_locked, find_element, remove_element, move_to_front,
}
use insightify_core.Cache.Memory.Consistency.{empty-IsConsistent}
use insightify_core.Cache.Memory.Eviction.{allowed_nil, IsEvicted}
use insightify_core.Cache.Memory.Recency.{uses, InOrder, calls-IsEvicted}
use insightify_core.Cache.Memory.Runs.{
  Call, getting, setting, deleting, call, calls, IsValid, set_locked-IsValid, calls-new_lru_ttl,
}
use insightify_core.Cache.Memory.Retrieval.{peek, get_locked-peek, delete_locked-peek}
use insightify_core.Cache.Memory.Storing.{set_locked-peek}

abbrev numbers : Comparable ℕ
numbers = record { same = λ a b. a == b; same_iff = ==_iff }

-- Two entries, ten bytes, and five nanoseconds.
abbrev small : LruTtl ℕ ℕ
small = record {
  ll = [];
  items = [];
  max_entries = 2;
  max_bytes = pos 10;
  total_bytes = 0;
  ttl = 5;
  next = 0;
}

abbrev one : LruTtl ℕ ℕ
one = set_locked numbers 1 100 4 0 small

abbrev keys_of : LruTtl ℕ ℕ → List ℕ
keys_of c = map (λ e. e.key) c.ll

program : Unit {0}
unfolding new_lru_ttl get_locked set_locked delete_locked clear_locked evict_locked find_element
    remove_element move_to_front calls call bytes_fit
program = tt

-- The entry used last stays.
evicts_least_recent :
    keys_of
      (set_locked numbers 3 300 1 2 (get_locked numbers 1 1 (set_locked numbers 2 200 1 0 one)).1)
    ≡ 3 ∷ 1 ∷ []
unfolding program
evicts_least_recent = refl

expires : (get_locked numbers 1 6 one).0 ≡ none
unfolding program
expires = refl

too_large : keys_of (set_locked numbers 2 200 11 0 one) ≡ []
unfolding program
too_large = refl

small-IsValid : IsValid numbers 2 (pos 10) small
small-IsValid = record {
  consistent = empty-IsConsistent numbers small refl refl refl;
  same_entries = refl;
  same_bytes = refl;
  fit = allowed_nil 2 (pos 10);
}

one-IsValid : IsValid numbers 2 (pos 10) one
one-IsValid = set_locked-IsValid numbers 2 (pos 10) 1 100 4 0 small small-IsValid

abbrev three_calls : List (Call ℕ ℕ)
three_calls = setting 1 100 (pos 4) 0 ∷ setting 2 200 (pos 5) 1 ∷ getting 1 2 ∷ []

calls-IsEvicted_example :
    (c : LruTtl ℕ ℕ) × (calls numbers three_calls (some (new_lru_ttl (pos 2) (pos 10) (pos 5)))
      ≡ some c)
    × InOrder numbers (uses three_calls []) 0 c.ll
    × IsEvicted numbers
        (record c { max_entries = 1; max_bytes = pos 0 })
        (evict_locked numbers (record c { max_entries = 1; max_bytes = pos 0 }))
calls-IsEvicted_example = calls-IsEvicted numbers (pos 2) (pos 10) (pos 5) three_calls 1 (pos 0)

calls-new_lru_ttl_example :
    (c : LruTtl ℕ ℕ) × (calls numbers
        (setting 1 100 (pos 4) 0 ∷ setting 2 200 (pos 7) 1 ∷ getting 1 2 ∷ deleting 2 ∷ [])
        (some (new_lru_ttl (pos 2) (pos 10) (pos 5)))
      ≡ some c)
    × IsValid numbers (or_default (pos 2) 1) (pos 10) c
calls-new_lru_ttl_example =
    calls-new_lru_ttl numbers (pos 2) (pos 10) (pos 5)
      (setting 1 100 (pos 4) 0 ∷ setting 2 200 (pos 7) 1 ∷ getting 1 2 ∷ deleting 2 ∷ [])

get_locked-peek_example :
    ((get_locked numbers 1 3 one).0 ≡ peek numbers 1 3 one)
    × (peek numbers 1 4 (get_locked numbers 1 3 one).1 ≡ peek numbers 1 4 one)
get_locked-peek_example = get_locked-peek numbers one 1 1 3 4 one-IsValid.consistent (omega arith)

delete_locked-peek_example :
    peek numbers 1 3 (delete_locked numbers 1 one)
    ≡ (if numbers.same 1 1 then none else peek numbers 1 3 one)
delete_locked-peek_example = delete_locked-peek numbers one 1 1 3 one-IsValid.consistent

set_locked-peek_example :
    (peek numbers 2 5 (set_locked numbers 2 200 3 1 one)
      ≡ (if bytes_fit one.max_bytes 3 && not (ltb (1 + one.ttl) 5) then some 200 else none))
    × ((j : ℕ)
        → numbers.same j 2 ≡ false
        → (peek numbers j 5 (set_locked numbers 2 200 3 1 one) ≡ peek numbers j 5 one)
          ⊎ (peek numbers j 5 (set_locked numbers 2 200 3 1 one) ≡ none))
set_locked-peek_example =
    set_locked-peek numbers one 2 200 3 1 5 one-IsValid.consistent
      (omega (arith, one-IsValid.same_entries))
