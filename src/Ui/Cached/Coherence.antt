-- ===== src/Ui/Cached/Coherence.antt =====
-- The cached store of internal/cache/ui/cached_store.go answers like the store behind it.
use insightify_core.Prelude.{
  ℤ, pos, ℕ, ◌≤◌, ◌≡◌, refl, sym, ap, subst, ◌∙◌, Option, some, List, [], ◌∷◌, length, Option-cases,
  inl, inr, arith,
}
use insightify_core.Prelude.Text.{Text, trim_space, trim_space_idem}
use insightify_core.Cache.Memory.{texts, or_default, get_locked}
use insightify_core.Cache.Memory.Coherence.{
  IsCoherent, new_lru_ttl-IsCoherent, weaken-IsCoherent, KeepsOthers, set_locked-IsCoherent,
  delete_locked-IsCoherent, get_locked-IsCoherent,
}
use insightify_core.Ui.{UiOp, UiDocument, Error, Result, ok, err, Result-cases, Store, IsLawful}
use insightify_core.Ui.Cached.{
  default_doc_ttl, default_doc_max_entries, CachedStore, new_cached_store, fill, get_document,
  apply_ops, Request, getting, applying, got, applied, serve, serve_all, answer, answer_all,
}

module _ {Body : Type 0} (S : Store Body) where
  -- A document in the cache is that of the store, and its key is trimmed.
  abbrev pub IsCurrent : S.State → Text → UiDocument Body → Type 0
  IsCurrent origin k doc = (trim_space k ≡ k) × (S.get_document k origin ≡ ok (some doc))

  abbrev pub IsFresh : ℕ → CachedStore S → Type 0
  IsFresh t s = IsCoherent texts (IsCurrent s.origin) t s.docs

  -- A read leaves the store alone and returns what the store has.
  record IsRead (t : ℕ) (s : CachedStore S) (r : Text)
      (out : Result (Option (UiDocument Body)) × CachedStore S) : Type 0 where
    same : out.1.origin ≡ s.origin
    fresh : IsCoherent texts (IsCurrent s.origin) t out.1.docs
    right : out.0 ≡ S.get_document r s.origin

  fill-IsRead :
      (key : Text) (t now : ℕ) (s : CachedStore S)
      → trim_space key ≡ key
      → IsFresh t s
      → IsRead t s key (fill S key now (S.get_document key s.origin) s)
  unfolding fill
  fill-IsRead key t now s trimmed h = elim (Result-cases (S.get_document key s.origin)) [
    | inr (e, p) ↦ rw p (record { same = refl; fresh = h; right = sym p })
    | inl (o, p) ↦ rw p (elim (Option-cases o) [
      | inl q ↦ rw q (record { same = refl; fresh = h; right = sym (p ∙ ap ok q) })
      | inr (doc, q) ↦
          let current = p ∙ ap ok q in
          rw q (record {
            same = refl;
            fresh =
                set_locked-IsCoherent texts key doc (length doc.nodes) now t s.docs h (λ j d n r. r)
                  (trimmed, current);
            right = sym current;
          })
    ])
  ]

  get_document-IsRead :
      (lawful : IsLawful S) (r : Text) (now later t : ℕ) (s : CachedStore S)
      → t ≤ now
      → IsFresh t s
      → IsRead now s r (get_document S r now later s)
  unfolding get_document
  get_document-IsRead lawful r now later t s le h =
      let key = trim_space r in
      let (kept, found) = get_locked-IsCoherent texts key now t s.docs le h in
      elim (Option-cases (get_locked texts key now s.docs).0) [
        | inl miss ↦
            let read =
              fill-IsRead key now later (record s { docs = (get_locked texts key now s.docs).1 })
                (trim_space_idem r) kept in
            rw (miss, get_document)
              (record {
                same = read.same;
                fresh = read.fresh;
                right = read.right ∙ lawful.get-trim r s.origin;
              })
        | inr (doc, hit) ↦
            rw (hit, get_document)
              (record {
                same = refl;
                fresh = kept;
                right = sym (found doc hit).1 ∙ lawful.get-trim r s.origin;
              })
      ]

  -- A failing call of `ApplyOps` leaves the documents of the store as they were.
  abbrev pub FailsCleanly : Text → ℤ → List (UiOp Body) → S.State → Type 0
  FailsCleanly r base ops origin =
      (e : Error)
      → (S.apply_ops r base ops origin).0 ≡ err e
      → (k : Text) → S.get_document k (S.apply_ops r base ops origin).1 ≡ S.get_document k origin

  apply_ops-IsFresh :
      (lawful : IsLawful S) (r : Text) (base : ℤ) (ops : List (UiOp Body)) (now t : ℕ)
      (s : CachedStore S)
      → FailsCleanly r base ops s.origin
      → IsFresh t s
      → IsFresh t (apply_ops S r base ops now s).1
  unfolding apply_ops
  apply_ops-IsFresh lawful r base ops now t s clean h =
      let key = trim_space r in
      let trimmed : trim_space key ≡ key = trim_space_idem r in
      let keeps : KeepsOthers texts (IsCurrent s.origin)
          (IsCurrent (S.apply_ops r base ops s.origin).1) key =
        λ j d other right.
          (right.0, lawful.get-apply_other r j base ops s.origin (rw right.0 other) ∙ right.1) in
      elim (Result-cases (S.apply_ops r base ops s.origin).0) [
        | inr (e, p) ↦ rw p (
            weaken-IsCoherent texts t t s.docs (omega arith)
              (λ k d right. (right.0, clean e p k ∙ right.1)) h)
        | inl ((o, conflict), p) ↦ rw p (elim (Option-cases o) [
          | inl q ↦ rw q (delete_locked-IsCoherent texts key t s.docs h keeps)
          | inr (doc, q) ↦ rw q (
              set_locked-IsCoherent texts key doc (length doc.nodes) now t s.docs h keeps
                (trimmed, lawful.get-apply r base ops s.origin o conflict p ∙ ap ok q))
        ])
      ]

  -- The clock never goes back, and a failing call of `ApplyOps` leaves the documents of the store as they were.
  abbrev pub IsServable : ℕ → List (Request S) → S.State → Type 0
  IsServable t [] origin = Unit
  IsServable t (getting r now later ∷ qs) origin =
      (t ≤ now) × (now ≤ later) × IsServable later qs origin
  IsServable t (applying r base ops now ∷ qs) origin =
      (t ≤ now)
      × FailsCleanly r base ops origin
      × IsServable now qs (S.apply_ops r base ops origin).1

  serve_all-IsFresh :
      (lawful : IsLawful S) (t : ℕ) (qs : List (Request S)) (s : CachedStore S)
      → IsServable t qs s.origin
      → IsFresh t s
      → serve_all S qs s ≡ answer_all S qs s.origin
  unfolding serve_all answer_all serve answer
  serve_all-IsFresh lawful t [] s ok_qs h = refl
  serve_all-IsFresh lawful t (getting r now later ∷ qs) s ok_qs h =
      let read = get_document-IsRead lawful r now later t s ok_qs.0 h in
      let next = (get_document S r now later s).1 in
      let rest =
        serve_all-IsFresh lawful later qs next (subst (IsServable later qs) (sym read.same) ok_qs.2)
          (weaken-IsCoherent texts now later next.docs ok_qs.1
            (subst
              (λ o. (k : Text) (d : UiDocument Body) → IsCurrent s.origin k d → IsCurrent o k d)
              (sym read.same) (λ k d right. right))
            read.fresh) in
      λ i. got (read.right i) ∷ (rest ∙ ap (answer_all S qs) read.same) i
  serve_all-IsFresh lawful t (applying r base ops now ∷ qs) s ok_qs h =
      let fresh = apply_ops-IsFresh lawful r base ops now t s ok_qs.1 h in
      let next = (apply_ops S r base ops now s).1 in
      let rest =
        serve_all-IsFresh lawful now qs next (unfold apply_ops in ok_qs.2)
          (weaken-IsCoherent texts t now next.docs ok_qs.0 (λ k d right. right) fresh) in
      λ i. applied (S.apply_ops r base ops s.origin).0 ∷ rest i

  -- Over a lawful store, requests one after the other get from a new cached store the answers that the store
  -- alone would give, whatever the bounds of the cache are, if the clock never goes back and each failing
  -- call of `ApplyOps` leaves the documents of the store as they were.
  pub serve_all-answer_all :
      (lawful : IsLawful S) (origin : S.State) (ttl max_entries : ℤ) (t : ℕ) (qs : List (Request S))
      → IsServable t qs origin
      → serve_all S qs (new_cached_store S origin ttl max_entries) ≡ answer_all S qs origin
  unfolding new_cached_store
  serve_all-answer_all lawful origin ttl max_entries t qs servable =
      serve_all-IsFresh lawful t qs (new_cached_store S origin ttl max_entries) servable (
        new_lru_ttl-IsCoherent texts (pos (or_default max_entries default_doc_max_entries)) (pos 0)
          (pos (or_default ttl default_doc_ttl)) t)
