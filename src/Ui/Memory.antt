-- ===== src/Ui/Memory.antt =====
-- `MemoryStore` of internal/cache/ui/memory_store.go. `ApplyOps` holds the lock throughout, so it is one step.
-- `GetDocument` holds it for the lookup alone: it reads the nodes and then the version of the run without it, and
-- calls of `ApplyOps` may end in between. A call inside the loops of `toDocument` is outside: it is a concurrent
-- use of a Go map. A version is a natural number: the source's `int64` starts at 0 and only grows by 1.
pub mod Effects
pub mod Laws
pub mod Documents
use insightify_core.Prelude.{
  ℕ, zero, suc, ℤ, pos, negsuc, Bool, true, false, not, ◌&&◌, Option, none, some, List, [], ◌∷◌,
  map, is_empty, ◌==◌, if◌then◌else◌,
}
use insightify_core.Prelude.Text.{Text, trim_space}
use insightify_core.Prelude.Dict.{Dict, find, put, drop_key, keys}
use insightify_core.Prelude.Sorting.{sort_strings}
use insightify_core.Ui.{
  UiNode, UiOp, nil_op, unsupported, clear_nodes, upsert_node, delete_node, UiDocument, Error,
  store_is_nil, run_id_required, node_required, node_id_required, unsupported_op, Result, ok, err,
  Store,
}

pub record DocState (Body : Type 0) : Type 0 where
  pub version : ℕ
  pub nodes : Dict (UiNode Body)

-- `docs` of the store.
abbrev pub MemoryStore : Type 0 → Type 0
MemoryStore Body = Dict (DocState Body)

-- `baseVersion > 0 && baseVersion != st.version`.
unfoldable pub conflicts : ℤ → ℕ → Bool
conflicts (pos zero) version = false
conflicts (pos (suc n)) version = not (suc n == version)
conflicts (negsuc n) version = false

module _ {Body : Type 0} where
  unfoldable pub new_doc_state : DocState Body
  new_doc_state = record { version = 0; nodes = [] }

  -- The loop of `toDocument` over the sorted ids.
  unfoldable pub nodes_at : List Text → Dict (UiNode Body) → List (UiNode Body)
  unfolding find
  nodes_at [] d = []
  nodes_at (k ∷ ks) d =
      let rest = nodes_at ks d in elim (find k d) [ none ↦ rest | some n ↦ n ∷ rest ]

  unfoldable pub to_document : Text → DocState Body → UiDocument Body
  unfolding nodes_at sort_strings
  to_document run_id st = record {
    run_id = run_id;
    version = st.version;
    nodes = nodes_at (sort_strings (keys st.nodes)) st.nodes;
  }

  -- The body of the loop over the operations: the nodes, or the error.
  unfoldable pub apply_op : UiOp Body → Dict (UiNode Body) → Result (Dict (UiNode Body))
  unfolding put drop_key trim_space
  apply_op nil_op nodes = ok nodes
  apply_op (upsert_node none) nodes = err node_required
  apply_op (upsert_node (some n)) nodes =
      let id = trim_space n.id in
      if is_empty id then err node_id_required else ok (put id (record n { id = id }) nodes)
  apply_op (delete_node raw_id) nodes =
      let id = trim_space raw_id in
      if is_empty id then err node_id_required else ok (drop_key id nodes)
  apply_op clear_nodes nodes = ok []
  apply_op unsupported nodes = err unsupported_op

  -- The loop: the error that ended it, if one did, and the nodes as they are then.
  unfoldable pub apply_all :
      List (UiOp Body) → Dict (UiNode Body) → Option Error × Dict (UiNode Body)
  unfolding apply_op
  apply_all [] nodes = (none, nodes)
  apply_all (op ∷ ops) nodes = elim (apply_op op nodes) [
    | ok nodes' ↦ apply_all ops nodes'
    | err e ↦ (some e, nodes)
  ]

  unfoldable pub state_of : Text → MemoryStore Body → DocState Body
  unfolding find new_doc_state
  state_of key docs = elim (find key docs) [ none ↦ new_doc_state | some st ↦ st ]

  -- `ApplyOps` under the lock. What the operations before a failing one have done stays.
  unfoldable pub apply_ops_locked :
      Text
      → ℤ
      → List (UiOp Body)
      → MemoryStore Body
      → Result (Option (UiDocument Body) × Bool) × MemoryStore Body
  unfolding state_of conflicts apply_all to_document put
  apply_ops_locked key base ops docs =
      let st = state_of key docs in
      if conflicts base st.version
      then (ok (some (to_document key st), true), put key st docs)
      else let (failed, nodes) = apply_all ops st.nodes in
        elim failed [
          | some e ↦ (err e, put key (record st { nodes = nodes }) docs)
          | none ↦
              let st' : DocState Body = record {
                version = if is_empty ops then st.version else suc st.version;
                nodes = nodes;
              } in
              (ok (some (to_document key st'), false), put key st' docs)
        ]

  -- `GetDocument`, with the store at the lookup, when `toDocument` reads the nodes, and when it reads the
  -- version. A run that is found is read through its pointer, which stays in the map.
  unfoldable pub get_document_between :
      Text
      → MemoryStore Body
      → MemoryStore Body
      → MemoryStore Body
      → Result (Option (UiDocument Body))
  unfolding find to_document state_of trim_space
  get_document_between run_id at_lookup at_nodes at_version =
      let key = trim_space run_id in
      if is_empty key then err run_id_required else elim (find key at_lookup) [
        | none ↦ ok (some (record { run_id = key; version = 0; nodes = [] }))
        | some st ↦ ok (
            some (
              to_document key (record {
                version = (state_of key at_version).version;
                nodes = (state_of key at_nodes).nodes;
              })))
      ]

  -- `GetDocument` when no call comes in between.
  unfoldable pub get_document : Text → MemoryStore Body → Result (Option (UiDocument Body))
  unfolding get_document_between
  get_document run_id docs = get_document_between run_id docs docs docs

  unfoldable pub apply_ops :
      Text
      → ℤ
      → List (UiOp Body)
      → MemoryStore Body
      → Result (Option (UiDocument Body) × Bool) × MemoryStore Body
  unfolding apply_ops_locked trim_space
  apply_ops run_id base ops docs =
      let key = trim_space run_id in
      if is_empty key then (err run_id_required, docs) else apply_ops_locked key base ops docs

-- The store as the interface sees it. A nil receiver is outside: every constructor returns a store.
abbrev pub memory_store : (Body : Type 0) → Store Body
memory_store Body = record {
  State = MemoryStore Body;
  get_document = get_document;
  apply_ops = apply_ops;
}
