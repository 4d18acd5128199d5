-- ===== src/Ui.antt =====
-- The documents of the user interface: the messages of gen/go/insightify/v1/ui.pb.go that the stores look
-- into, and the store of internal/gateway/repository/ui/repository.go as an interface.
pub mod Memory
pub mod Cached
use insightify_core.Prelude.{ℤ, ℕ, ◌≡◌, refl, ◌⊎◌, inl, inr, Bool, false, Option, List}
use insightify_core.Prelude.Text.{Text, text_eq, trim_space}

-- `Body` is what no store looks into. `proto.Clone` is a copy, and the messages are values.
pub record UiNode (Body : Type 0) : Type 0 where
  pub id : Text
  pub body : Body

pub data UiOp (Body : Type 0) : Type 0 where
  nil_op unsupported clear_nodes : UiOp Body
  upsert_node : Option (UiNode Body) → UiOp Body
  delete_node : Text → UiOp Body

pub record UiDocument (Body : Type 0) : Type 0 where
  pub run_id : Text
  pub version : ℕ
  pub nodes : List (UiNode Body)

pub data Error : Type 0 where
  store_is_nil run_id_required node_required node_id_required unsupported_op : Error
  origin_error : Text → Error

pub data Result {ℓ} (A : Type ℓ) : Type ℓ where
  ok : A → Result A
  err : Error → Result A

pub Result-cases {ℓ} :
    {A : Type ℓ} (r : Result A) → ((a : A) × (r ≡ ok a)) ⊎ ((e : Error) × (r ≡ err e))
Result-cases (ok a) = inl (a, refl)
Result-cases (err e) = inr (e, refl)

-- `Store`. A document is a pointer, which may be nil. `ApplyOps` takes the run, the base version and the
-- operations, and says whether there was a conflict; the state that it leaves comes back after an
-- error too.
pub record Store (Body : Type 0) : Type 1 where
  pub State : Type 0
  pub get_document : Text → State → Result (Option (UiDocument Body))
  pub apply_ops :
      Text → ℤ → List (UiOp Body) → State → Result (Option (UiDocument Body) × Bool) × State

-- What a client relies on: spaces around the id do not matter; what `ApplyOps` returns is the document
-- from then on; and it leaves the documents of the other runs alone.
pub record IsLawful {Body : Type 0} (S : Store Body) : Type 0 where
  pub get-trim : (r : Text) (s : S.State) → S.get_document (trim_space r) s ≡ S.get_document r s
  pub get-apply :
      (r : Text) (base : ℤ) (ops : List (UiOp Body)) (s : S.State) (doc : Option (UiDocument Body))
      (conflict : Bool)
      → (S.apply_ops r base ops s).0 ≡ ok (doc, conflict)
      → S.get_document (trim_space r) (S.apply_ops r base ops s).1 ≡ ok doc
  pub get-apply_other :
      (r k : Text) (base : ℤ) (ops : List (UiOp Body)) (s : S.State)
      → text_eq (trim_space k) (trim_space r) ≡ false
      → S.get_document k (S.apply_ops r base ops s).1 ≡ S.get_document k s
