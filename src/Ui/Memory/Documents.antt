-- ===== src/Ui/Memory/Documents.antt =====
-- The documents that the store of internal/cache/ui/memory_store.go returns after any calls.
use insightify_core.Prelude.{
  ℤ, ◌≡◌, refl, sym, subst, ◌∙◌, true, false, Option, none, some, List, [], ◌∷◌, map, is_empty,
  if◌then◌else◌, Bool-cases, Option-cases, inl, inr, arith,
}
use insightify_core.Prelude.Text.{Text, text_eq, text_eq_iff, text_eq_refl, trim_space}
use insightify_core.Prelude.Sorting.{
  sort_strings, has_text, IsAscending, AllDifferent, has_text-sort_strings,
  sort_strings-IsAscending,
}
use insightify_core.Prelude.Dict.{
  Dict, find, put, drop_key, keys, find-put, find-drop_key, keys-put-AllDifferent,
  keys-drop_key-AllDifferent, find-keys, find_absent,
}
use insightify_core.Ui.{
  UiNode, UiOp, nil_op, unsupported, clear_nodes, upsert_node, delete_node, UiDocument, ok,
  Result-cases,
}
use insightify_core.Ui.Memory.{
  DocState, MemoryStore, new_doc_state, nodes_at, to_document, apply_op, apply_all, conflicts,
  state_of, apply_ops_locked, get_document_between, get_document, apply_ops,
}
use insightify_core.Ui.Memory.Laws.{get_document_lem}

module _ {Body : Type 0} where
  -- The node of a document with an id.
  unfoldable pub find_node : Text → List (UiNode Body) → Option (UiNode Body)
  find_node k [] = none
  find_node k (n ∷ ns) = let rest = find_node k ns in if text_eq k n.id then some n else rest

  -- The keys are different, and a node is stored under its id.
  pub record IsTidy (d : Dict (UiNode Body)) : Type 0 where
    pub different : AllDifferent (keys d)
    pub under_id : (k : Text) (n : UiNode Body) → find k d ≡ some n → n.id ≡ k

  put-IsTidy : (n : UiNode Body) (d : Dict (UiNode Body)) → IsTidy d → IsTidy (put n.id n d)
  put-IsTidy n d h = record {
    different = keys-put-AllDifferent n.id n d h.different;
    under_id = λ k m e. ground (arith, find-put k n.id n d, text_eq_iff k n.id, h.under_id k m);
  }

  drop_key-IsTidy : (k : Text) (d : Dict (UiNode Body)) → IsTidy d → IsTidy (drop_key k d)
  drop_key-IsTidy j d h = record {
    different = keys-drop_key-AllDifferent j d h.different;
    under_id = λ k m e. ground (arith, find-drop_key k j d, h.under_id k m);
  }

  empty-IsTidy : IsTidy []
  unfolding find
  empty-IsTidy = record { different = tt; under_id = λ k n e. cc }

  apply_op-IsTidy :
      (op : UiOp Body) (d d' : Dict (UiNode Body)) → apply_op op d ≡ ok d' → IsTidy d → IsTidy d'
  unfolding apply_op
  apply_op-IsTidy nil_op d d' e h = subst IsTidy (cc) h
  apply_op-IsTidy unsupported d d' e h = cc
  apply_op-IsTidy clear_nodes d d' e h = subst IsTidy (cc) empty-IsTidy
  apply_op-IsTidy (upsert_node none) d d' e h = cc
  apply_op-IsTidy (upsert_node (some n)) d d' e h = elim (Bool-cases (is_empty (trim_space n.id))) [
    | inl b ↦ ground arith
    | inr b ↦ subst IsTidy (ground arith) (put-IsTidy (record n { id = trim_space n.id }) d h)
  ]
  apply_op-IsTidy (delete_node k) d d' e h = elim (Bool-cases (is_empty (trim_space k))) [
    | inl b ↦ ground arith
    | inr b ↦ subst IsTidy (ground arith) (drop_key-IsTidy (trim_space k) d h)
  ]

  apply_all-IsTidy :
      (ops : List (UiOp Body)) (d : Dict (UiNode Body)) → IsTidy d → IsTidy (apply_all ops d).1
  unfolding apply_all
  apply_all-IsTidy [] d h = h
  apply_all-IsTidy (op ∷ ops) d h = elim (Result-cases (apply_op op d)) [
    | inl (d', e) ↦ rw (e, apply_all) (apply_all-IsTidy ops d' (apply_op-IsTidy op d d' e h))
    | inr (x, e) ↦ rw (e, apply_all) h
  ]

  -- Every document of a store is tidy.
  abbrev pub AllTidy : MemoryStore Body → Type 0
  AllTidy docs = (r : Text) → IsTidy (state_of r docs).nodes

  put-AllTidy :
      (r : Text) (st : DocState Body) (docs : MemoryStore Body)
      → AllTidy docs
      → IsTidy st.nodes
      → AllTidy (put r st docs)
  unfolding state_of
  put-AllTidy r st docs h new j = elim (Bool-cases (text_eq j r)) [
    | inl e ↦ rw (find-put j r st docs, e, state_of) new
    | inr e ↦ rw (find-put j r st docs, e, state_of) (h j)
  ]

  apply_ops-AllTidy :
      (r : Text) (base : ℤ) (ops : List (UiOp Body)) (docs : MemoryStore Body)
      → AllTidy docs
      → AllTidy (apply_ops r base ops docs).1
  unfolding apply_ops apply_ops_locked
  apply_ops-AllTidy r base ops docs h =
      let key = trim_space r in
      let st = state_of key docs in
      let after = apply_all-IsTidy ops st.nodes (h key) in
      elim (Bool-cases (is_empty key)) [
        | inl e ↦ rw e h
        | inr e ↦ rw e (elim (Bool-cases (conflicts base st.version)) [
          | inl c ↦ rw c (put-AllTidy key st docs h (h key))
          | inr c ↦ rw c (elim (Option-cases (apply_all ops st.nodes).0) [
            | inl f ↦ rw f (put-AllTidy key _ docs h after)
            | inr (x, f) ↦ rw f (put-AllTidy key _ docs h after)
          ])
        ])
      ]

  new-AllTidy : AllTidy []
  unfolding state_of find new_doc_state
  new-AllTidy r = empty-IsTidy

  -- The store after a sequence of calls, each with a run, a base version and operations.
  unfoldable pub apply_calls :
      List (Text × ℤ × List (UiOp Body)) → MemoryStore Body → MemoryStore Body
  unfolding apply_ops
  apply_calls [] docs = docs
  apply_calls ((r, base, ops) ∷ calls) docs = apply_calls calls (apply_ops r base ops docs).1

  apply_calls-AllTidy :
      (calls : List (Text × ℤ × List (UiOp Body))) (docs : MemoryStore Body)
      → AllTidy docs
      → AllTidy (apply_calls calls docs)
  unfolding apply_calls
  apply_calls-AllTidy [] docs h = h
  apply_calls-AllTidy ((r, base, ops) ∷ calls) docs h =
      apply_calls-AllTidy calls (apply_ops r base ops docs).1 (apply_ops-AllTidy r base ops docs h)

  ids-nodes_at :
      (ks : List Text) (d : Dict (UiNode Body))
      → IsTidy d
      → ((k : Text) → has_text k ks ≡ true → has_text k (keys d) ≡ true)
      → map (λ n. n.id) (nodes_at ks d) ≡ ks
  unfolding nodes_at has_text
  ids-nodes_at [] d t h = refl
  ids-nodes_at (k ∷ ks) d t h =
      let (n, e) = find-keys k d (h k (rw (text_eq_refl k) refl)) in
      let rest = ids-nodes_at ks d t (λ j p. h j (ground arith)) in
      rw (e, nodes_at) (λ i. t.under_id k n e i ∷ rest i)

  find_node-nodes_at :
      (k : Text) (ks : List Text) (d : Dict (UiNode Body))
      → IsTidy d
      → find_node k (nodes_at ks d) ≡ (if has_text k ks then find k d else none)
  unfolding nodes_at find_node has_text
  find_node-nodes_at k [] d t = refl
  find_node-nodes_at k (j ∷ ks) d t = elim (Option-cases (find j d)) [
    | inl e ↦ rw (e, nodes_at) (ground (arith, e, find_node-nodes_at k ks d t, text_eq_iff k j))
    | inr (n, e) ↦
        rw (e, nodes_at)
          (ground (
            arith,
            e,
            find_node-nodes_at k ks d t,
            text_eq_iff k j,
            text_eq_iff k n.id,
            t.under_id j n e,
          ))
  ]

  -- The document of a run, beside the nodes that the store has for it.
  pub record IsDocument (run_id : Text) (st : DocState Body) (doc : UiDocument Body) : Type 0 where
    pub run : doc.run_id ≡ run_id
    pub version : doc.version ≡ st.version
    pub ascending : IsAscending (map (λ n. n.id) doc.nodes)
    pub same_nodes : (k : Text) → find_node k doc.nodes ≡ find k st.nodes

  to_document-IsDocument :
      (run_id : Text) (st : DocState Body)
      → IsTidy st.nodes
      → IsDocument run_id st (to_document run_id st)
  unfolding to_document
  to_document-IsDocument run_id st t =
      let ids = sort_strings (keys st.nodes) in
      record {
        run = refl;
        version = refl;
        ascending =
            rw
              (ids-nodes_at ids st.nodes t
                (λ k p. (sym (has_text-sort_strings k (keys st.nodes))) ∙ p))
              (sort_strings-IsAscending (keys st.nodes) t.different);
        same_nodes = λ k. ground (
          arith,
          find_node-nodes_at k ids st.nodes t,
          has_text-sort_strings k (keys st.nodes),
          find_absent k st.nodes,
        );
      }

  -- After any calls of `ApplyOps` on a new store, and others that end between the lookup of `GetDocument`, its
  -- reading of the nodes and its reading of the version: for an id that is not blank it returns a document of
  -- the trimmed id. If the run is there at the lookup, the document has exactly the nodes of the second moment,
  -- in ascending order of their ids, and the version of the third; else it is empty. Without calls in
  -- between, this is the document of the store.
  pub get_document_between-IsDocument :
      (calls before_nodes before_version : List (Text × ℤ × List (UiOp Body))) (r : Text)
      → is_empty (trim_space r) ≡ false
      → let key = trim_space r in
        let at_lookup : MemoryStore Body = apply_calls calls [] in
        let at_nodes = apply_calls before_nodes at_lookup in
        let at_version = apply_calls before_version at_nodes in
        (doc : UiDocument Body) × (get_document_between r at_lookup at_nodes at_version
          ≡ ok (some doc))
        × IsDocument key
            (elim (find key at_lookup) [
              | none ↦ new_doc_state
              | some st ↦ record {
                version = (state_of key at_version).version;
                nodes = (state_of key at_nodes).nodes;
              }
            ])
            doc
        × (get_document r at_lookup ≡ ok (some (to_document key (state_of key at_lookup))))
  unfolding get_document_between
  get_document_between-IsDocument calls before_nodes before_version r h =
      let key = trim_space r in
      let at_lookup : MemoryStore Body = apply_calls calls [] in
      let at_nodes = apply_calls before_nodes at_lookup in
      let tidy =
        apply_calls-AllTidy before_nodes at_lookup (apply_calls-AllTidy calls [] new-AllTidy) key in
      elim (Option-cases (find key at_lookup)) [
        | inl e ↦
            rw (h, e)
              (
                to_document key new_doc_state,
                unfold to_document new_doc_state in refl,
                to_document-IsDocument key new_doc_state empty_new,
                get_document_lem r at_lookup h,
              )
        | inr (st, e) ↦
            rw (h, e) (_, refl, to_document-IsDocument key _ tidy, get_document_lem r at_lookup h)
      ]
    where
      empty_new : IsTidy new_doc_state.nodes
      empty_new = unfold new_doc_state in empty-IsTidy
