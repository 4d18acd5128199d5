-- ===== src/Ui/Cached.antt =====
-- `CachedStore` of internal/cache/ui/cached_store.go: a store behind a cache of documents. `GetDocument` reads
-- the clock when it asks the cache and again when it fills it.
pub mod Coherence
use insightify_core.Prelude.{ℤ, pos, ℕ, Bool, Option, none, some, List, [], ◌∷◌, length}
use insightify_core.Prelude.Text.{Text, text_eq, text_eq_iff, trim_space}
use insightify_core.Cache.Memory.{
  texts, LruTtl, or_default, new_lru_ttl, get_locked, set_locked, delete_locked,
}
use insightify_core.Ui.{UiOp, UiDocument, Result, ok, err, Store}

-- 2 minutes, in nanoseconds.
abbrev pub default_doc_ttl : ℕ
default_doc_ttl = 120000000000

abbrev pub default_doc_max_entries : ℕ
default_doc_max_entries = 2048

module _ {Body : Type 0} (S : Store Body) where
  pub record CachedStore : Type 0 where
    pub origin : S.State
    pub docs : LruTtl Text (UiDocument Body)

  unfoldable pub new_cached_store : S.State → ℤ → ℤ → CachedStore
  unfolding new_lru_ttl or_default
  new_cached_store origin doc_ttl doc_max_entries = record {
    origin = origin;
    docs =
        new_lru_ttl (pos (or_default doc_max_entries default_doc_max_entries)) (pos 0)
          (pos (or_default doc_ttl default_doc_ttl));
  }

  -- What `GetDocument` does after a miss.
  unfoldable pub fill :
      Text
      → ℕ
      → Result (Option (UiDocument Body))
      → CachedStore
      → Result (Option (UiDocument Body)) × CachedStore
  unfolding set_locked
  fill key now (err e) s = (err e, s)
  fill key now (ok none) s = (ok none, s)
  fill key now (ok (some doc)) s =
      (ok (some doc), record s { docs = set_locked texts key doc (length doc.nodes) now s.docs })

  unfoldable pub get_document :
      Text → ℕ → ℕ → CachedStore → Result (Option (UiDocument Body)) × CachedStore
  unfolding get_locked fill trim_space
  get_document run_id now later s =
      let key = trim_space run_id in
      let (hit, docs) = get_locked texts key now s.docs in
      elim hit [
        | some doc ↦ (ok (some doc), record s { docs = docs })
        | none ↦ fill key later (S.get_document key s.origin) (record s { docs = docs })
      ]

  unfoldable pub apply_ops :
      Text
      → ℤ
      → List (UiOp Body)
      → ℕ
      → CachedStore
      → Result (Option (UiDocument Body) × Bool) × CachedStore
  unfolding set_locked delete_locked trim_space
  apply_ops run_id base ops now s =
      let (answer, origin) = S.apply_ops run_id base ops s.origin in
      let key = trim_space run_id in
      let docs : LruTtl Text (UiDocument Body) = elim answer [
        | err e ↦ s.docs
        | ok result ↦ elim (result.0) [
          | some doc ↦ set_locked texts key doc (length doc.nodes) now s.docs
          | none ↦ delete_locked texts key s.docs
        ]
      ] in
      (answer, record s { origin = origin; docs = docs })

  pub data Request : Type 0 where
    getting : Text → ℕ → ℕ → Request
    applying : Text → ℤ → List (UiOp Body) → ℕ → Request

  pub data Answer : Type 0 where
    got : Result (Option (UiDocument Body)) → Answer
    applied : Result (Option (UiDocument Body) × Bool) → Answer

  unfoldable pub serve : Request → CachedStore → Answer × CachedStore
  unfolding get_document apply_ops
  serve (getting r now later) s = let (doc, s') = get_document r now later s in (got doc, s')
  serve (applying r base ops now) s = let (a, s') = apply_ops r base ops now s in (applied a, s')

  -- The answers to a sequence of requests.
  unfoldable pub serve_all : List Request → CachedStore → List Answer
  unfolding serve
  serve_all [] s = []
  serve_all (q ∷ qs) s = let (a, s') = serve q s in a ∷ serve_all qs s'

  -- The store alone.
  unfoldable pub answer : Request → S.State → Answer × S.State
  answer (getting r now later) s = (got (S.get_document r s), s)
  answer (applying r base ops now) s = let (a, s') = S.apply_ops r base ops s in (applied a, s')

  unfoldable pub answer_all : List Request → S.State → List Answer
  unfolding answer
  answer_all [] s = []
  answer_all (q ∷ qs) s = let (a, s') = answer q s in a ∷ answer_all qs s'
