-- ===== src/Ui/Memory/Laws.antt =====
-- What `ApplyOps` and `GetDocument` of internal/cache/ui/memory_store.go do to the documents and return.
use insightify_core.Prelude.{
  suc, ℤ, ◌≡◌, refl, sym, ◌∙◌, Bool, true, false, not, ◌||◌, Option, none, some, List, is_empty,
  if◌then◌else◌, Bool-cases, Option-cases, inl, inr, arith,
}
use insightify_core.Prelude.Text.{Text, text_eq, text_eq_refl, trim_space, trim_space_idem}
use insightify_core.Prelude.Dict.{find, put, find-put}
use insightify_core.Ui.{UiOp, UiDocument, Error, run_id_required, Result, ok, err, IsLawful}
use insightify_core.Ui.Memory.{
  DocState, MemoryStore, new_doc_state, to_document, apply_all, conflicts, state_of,
  apply_ops_locked, get_document, apply_ops, memory_store,
}
use insightify_core.Ui.Memory.Effects.{all_applicable, effects, apply_all_lem}

module _ {Body : Type 0} where
  -- What a call of `ApplyOps` does to the run with the id `key`, and what it returns.
  pub record IsApplied (key : Text) (base : ℤ) (ops : List (UiOp Body)) (docs : MemoryStore Body)
      (answer : Result (Option (UiDocument Body) × Bool)) (docs' : MemoryStore Body) : Type 0 where
    pub version : (state_of key docs').version ≡ (
        if conflicts base (state_of key docs).version || not (all_applicable ops) || is_empty ops
        then (state_of key docs).version
        else suc (state_of key docs).version)
    pub nodes :
        (k : Text)
        → find k (state_of key docs').nodes ≡ (
            if conflicts base (state_of key docs).version
            then find k (state_of key docs).nodes
            else effects ops (λ j. find j (state_of key docs).nodes) k)
    pub others : (j : Text) → text_eq j key ≡ false → find j docs' ≡ find j docs
    pub answered :
        conflicts base (state_of key docs).version || all_applicable ops ≡ true
        → answer
          ≡ ok (
            some (to_document key (state_of key docs')),
            conflicts base (state_of key docs).version,
          )
    pub failed :
        conflicts base (state_of key docs).version || all_applicable ops ≡ false
        → (e : Error) × (answer ≡ err e)

  state_of-put :
      (key : Text) (st : DocState Body) (docs : MemoryStore Body)
      → state_of key (put key st docs) ≡ st
  unfolding state_of
  state_of-put key st docs = rw (find-put key key st docs, text_eq_refl key, state_of) refl

  find-put_other :
      (key : Text) (st : DocState Body) (docs : MemoryStore Body) (j : Text)
      → text_eq j key ≡ false
      → find j (put key st docs) ≡ find j docs
  find-put_other key st docs j h = rw (find-put j key st docs, h) refl

  apply_ops_locked_lem :
      (key : Text) (base : ℤ) (ops : List (UiOp Body)) (docs : MemoryStore Body)
      → IsApplied key base ops docs
          (apply_ops_locked key base ops docs).0
          (apply_ops_locked key base ops docs).1
  unfolding apply_ops_locked
  apply_ops_locked_lem key base ops docs =
      let st = state_of key docs in
      let (iff, view) = apply_all_lem ops st.nodes in
      elim (Bool-cases (conflicts base st.version)) [
        | inl e ↦ rw e (record {
          version = rw (e, state_of-put key st docs) refl;
          nodes = λ k. rw (e, state_of-put key st docs) refl;
          others = find-put_other key st docs;
          answered = λ h. rw (e, state_of-put key st docs) refl;
          failed = λ h. cc;
        })
        | inr e ↦ rw e (elim (Option-cases (apply_all ops st.nodes).0) [
          | inl f ↦
              let good = iff.0 f in
              rw f (record {
                version = rw (e, good, state_of-put key _ docs) refl;
                nodes = λ k. rw (e, state_of-put key _ docs) (view k);
                others = find-put_other key _ docs;
                answered = λ h. rw (e, state_of-put key _ docs) refl;
                failed = λ h. cc;
              })
          | inr (x, f) ↦
              let bad : all_applicable ops ≡ false = ground (arith, iff) in
              rw f (record {
                version = rw (e, bad, state_of-put key _ docs) refl;
                nodes = λ k. rw (e, state_of-put key _ docs) (view k);
                others = find-put_other key _ docs;
                answered = λ h. cc;
                failed = λ h. (x, refl);
              })
        ])
      ]

  -- For a run whose id is not blank: there is a conflict exactly if the base version is positive and is not
  -- the document's, and then no document changes. Otherwise the nodes are those after the operations up to
  -- the first that cannot be applied; if all can be, the version grows by 1 unless there are none, and
  -- the new document is returned; if one cannot be, the version stays and there is an error. The other
  -- runs' documents stay.
  pub apply_ops_lem :
      (r : Text) (base : ℤ) (ops : List (UiOp Body)) (docs : MemoryStore Body)
      → is_empty (trim_space r) ≡ false
      → IsApplied
          (trim_space r)
          base
          ops
          docs
          (apply_ops r base ops docs).0
          (apply_ops r base ops docs).1
  unfolding apply_ops
  apply_ops_lem r base ops docs h = rw h (apply_ops_locked_lem (trim_space r) base ops docs)

  state_of-absent :
      (key : Text) (docs : MemoryStore Body)
      → find key docs ≡ none
      → state_of key docs ≡ new_doc_state
  unfolding state_of
  state_of-absent key docs e = rw (e, state_of) refl

  state_of-same :
      (key : Text) (docs docs' : MemoryStore Body)
      → find key docs' ≡ find key docs
      → state_of key docs' ≡ state_of key docs
  unfolding state_of
  state_of-same key docs docs' e = rw (e, state_of) refl

  pub get_document_lem :
      (r : Text) (docs : MemoryStore Body)
      → is_empty (trim_space r) ≡ false
      → get_document r docs ≡ ok (some (to_document (trim_space r) (state_of (trim_space r) docs)))
  unfolding get_document
  get_document_lem r docs h = rw h (elim (Option-cases (find (trim_space r) docs)) [
    | inl e ↦
        rw (e, state_of-absent (trim_space r) docs e) (unfold to_document new_doc_state in refl)
    | inr (st, e) ↦ rw e refl
  ])

  apply_ops_blank :
      (r : Text) (base : ℤ) (ops : List (UiOp Body)) (docs : MemoryStore Body)
      → is_empty (trim_space r) ≡ true
      → apply_ops r base ops docs ≡ (err run_id_required, docs)
  unfolding apply_ops
  apply_ops_blank r base ops docs h = rw h refl

  get_document_blank :
      (r : Text) (docs : MemoryStore Body)
      → is_empty (trim_space r) ≡ true
      → get_document r docs ≡ err run_id_required
  unfolding get_document
  get_document_blank r docs h = rw h refl

  get-trim :
      (r : Text) (docs : MemoryStore Body) → get_document (trim_space r) docs ≡ get_document r docs
  get-trim r docs = elim (Bool-cases (is_empty (trim_space r))) [
    | inl e ↦
        get_document_blank (trim_space r) docs (rw (trim_space_idem r) e)
        ∙ sym (get_document_blank r docs e)
    | inr e ↦
        rw
          (
            get_document_lem r docs e,
            get_document_lem (trim_space r) docs (rw (trim_space_idem r) e),
            trim_space_idem r,
          )
          refl
  ]

  get-apply :
      (r : Text) (base : ℤ) (ops : List (UiOp Body)) (docs : MemoryStore Body)
      (doc : Option (UiDocument Body)) (conflict : Bool)
      → (apply_ops r base ops docs).0 ≡ ok (doc, conflict)
      → get_document (trim_space r) (apply_ops r base ops docs).1 ≡ ok doc
  get-apply r base ops docs doc conflict h = elim (Bool-cases (is_empty (trim_space r))) [
    | inl e ↦ ground (arith, apply_ops_blank r base ops docs e)
    | inr e ↦
        let applied = apply_ops_lem r base ops docs e in
        let st = state_of (trim_space r) docs in
        let read =
          get_document_lem (trim_space r) (apply_ops r base ops docs).1
            (rw (trim_space_idem r) e) in
        elim (Bool-cases (conflicts base st.version || all_applicable ops)) [
          | inl good ↦ (rw (trim_space_idem r) at read) ∙ ground (arith, applied.answered good)
          | inr bad ↦ ground (arith, applied.failed bad)
        ]
  ]

  get_document-same :
      (k : Text) (docs docs' : MemoryStore Body)
      → find (trim_space k) docs' ≡ find (trim_space k) docs
      → get_document k docs' ≡ get_document k docs
  get_document-same k docs docs' e = elim (Bool-cases (is_empty (trim_space k))) [
    | inl b ↦ get_document_blank k docs' b ∙ sym (get_document_blank k docs b)
    | inr b ↦
        rw
          (
            get_document_lem k docs b,
            get_document_lem k docs' b,
            state_of-same (trim_space k) docs docs' e,
          )
          refl
  ]

  get-apply_other :
      (r k : Text) (base : ℤ) (ops : List (UiOp Body)) (docs : MemoryStore Body)
      → text_eq (trim_space k) (trim_space r) ≡ false
      → get_document k (apply_ops r base ops docs).1 ≡ get_document k docs
  get-apply_other r k base ops docs h = elim (Bool-cases (is_empty (trim_space r))) [
    | inl e ↦ rw (apply_ops_blank r base ops docs e) refl
    | inr e ↦
        get_document-same k docs (apply_ops r base ops docs).1
          ((apply_ops_lem r base ops docs e).others (trim_space k) h)
  ]

-- The store in memory is as the interface asks.
pub memory_store-IsLawful : (Body : Type 0) → IsLawful (memory_store Body)
memory_store-IsLawful Body = record {
  get-trim = get-trim;
  get-apply = get-apply;
  get-apply_other = get-apply_other;
}
