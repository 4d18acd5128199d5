-- ===== src/Ui/Memory/Effects.antt =====
-- The loop over the operations in `ApplyOps` of internal/cache/ui/memory_store.go, beside a description of the
-- nodes by their ids.
use insightify_core.Prelude.{
  ◌≡◌, refl, fun_ext, ap, ◌∙◌, ◌↔◌, Bool, true, false, not, ◌&&◌, Option, none, some, List, [], ◌∷◌,
  is_empty, if◌then◌else◌, Bool-cases, inl, inr, arith,
}
use insightify_core.Prelude.Text.{Text, text_eq, trim_space}
use insightify_core.Prelude.Dict.{Dict, find, find-put, find-drop_key}
use insightify_core.Ui.{
  UiNode, UiOp, nil_op, unsupported, clear_nodes, upsert_node, delete_node, Error, node_id_required,
  ok, err,
}
use insightify_core.Ui.Memory.{apply_op, apply_all}

module _ {Body : Type 0} where
  -- Whether an operation is one that the store takes, whatever the nodes are.
  unfoldable pub is_applicable : UiOp Body → Bool
  unfolding trim_space
  is_applicable nil_op = true
  is_applicable unsupported = false
  is_applicable clear_nodes = true
  is_applicable (upsert_node none) = false
  is_applicable (upsert_node (some n)) = not (is_empty (trim_space n.id))
  is_applicable (delete_node id) = not (is_empty (trim_space id))

  unfoldable pub all_applicable : List (UiOp Body) → Bool
  unfolding is_applicable
  all_applicable [] = true
  all_applicable (op ∷ ops) = is_applicable op && all_applicable ops

  -- The node with an id after one operation, from the nodes by their ids.
  unfoldable pub effect : UiOp Body → (Text → Option (UiNode Body)) → Text → Option (UiNode Body)
  unfolding trim_space
  effect nil_op view k = view k
  effect unsupported view k = view k
  effect clear_nodes view k = none
  effect (upsert_node none) view k = view k
  effect (upsert_node (some n)) view k =
      if text_eq k (trim_space n.id) then some (record n { id = trim_space n.id }) else view k
  effect (delete_node id) view k = if text_eq k (trim_space id) then none else view k

  -- The operations in order, up to the first that cannot be applied.
  unfoldable pub effects :
      List (UiOp Body) → (Text → Option (UiNode Body)) → Text → Option (UiNode Body)
  unfolding is_applicable effect
  effects [] view = view
  effects (op ∷ ops) view =
      let rest = effects ops (effect op view) in if is_applicable op then rest else view

  -- An operation that can be applied has its effect, and any other is an error.
  applied :
      (op : UiOp Body) (d : Dict (UiNode Body))
      → is_applicable op ≡ true
      → (d' : Dict (UiNode Body)) × (apply_op op d ≡ ok d')
        × ((k : Text) → find k d' ≡ effect op (λ j. find j d) k)
  unfolding is_applicable apply_op effect find
  applied nil_op d h = (d, refl, λ k. refl)
  applied unsupported d h = cc
  applied clear_nodes d h = ([], refl, λ k. refl)
  applied (upsert_node none) d h = cc
  applied (upsert_node (some n)) d h =
      let id = trim_space n.id in
      let nonblank : is_empty id ≡ false = ground arith in
      (_, rw nonblank refl, λ k. find-put k id (record n { id = id }) d)
  applied (delete_node id) d h =
      let nonblank : is_empty (trim_space id) ≡ false = ground arith in
      (_, rw nonblank refl, λ k. find-drop_key k (trim_space id) d)

  refused :
      (op : UiOp Body) (d : Dict (UiNode Body))
      → is_applicable op ≡ false
      → (e : Error) × (apply_op op d ≡ err e)
  unfolding is_applicable apply_op
  refused nil_op d h = cc
  refused unsupported d h = (_, refl)
  refused clear_nodes d h = cc
  refused (upsert_node none) d h = (_, refl)
  refused (upsert_node (some n)) d h =
      let blank : is_empty (trim_space n.id) ≡ true = ground arith in
      (node_id_required, rw blank refl)
  refused (delete_node id) d h =
      let blank : is_empty (trim_space id) ≡ true = ground arith in
      (node_id_required, rw blank refl)

  pub apply_all_lem :
      (ops : List (UiOp Body)) (d : Dict (UiNode Body))
      → (((apply_all ops d).0 ≡ none) ↔ (all_applicable ops ≡ true))
        × ((k : Text) → find k (apply_all ops d).1 ≡ effects ops (λ j. find j d) k)
  unfolding apply_all all_applicable effects
  apply_all_lem [] d = ((λ _. refl, λ _. refl), λ k. refl)
  apply_all_lem (op ∷ ops) d = elim (Bool-cases (is_applicable op)) [
    | inl e ↦
        let (d', done, found) = applied op d e in
        let (iff, view) = apply_all_lem ops d' in
        rw (e, done, apply_all) (iff, λ k. view k ∙ ap (λ v. effects ops v k) (fun_ext found))
    | inr e ↦
        let (x, failed) = refused op d e in
        rw (e, failed, apply_all) ((λ h. cc, λ h. cc), λ k. refl)
  ]
