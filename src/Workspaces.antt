-- ===== src/Workspaces.antt =====
-- The workspaces of projects and their tabs: the types of internal/gateway/repository/uiworkspace/repository.go and
-- its interface of a store.
pub mod Memory
pub mod Cached
use insightify_core.Prelude.{
  ℕ, ◌≡◌, refl, ◌⊎◌, inl, inr, Bool, Option, List, is_empty, if◌then◌else◌,
}
use insightify_core.Prelude.Text.{Text, codes, trim_space}

pub record Workspace : Type 0 where
  pub workspace_id : Text
  pub project_id : Text
  pub name : Text
  pub active_tab_id : Text

pub record Tab : Type 0 where
  pub tab_id : Text
  pub workspace_id : Text
  pub title : Text
  pub run_id : Text
  pub order_index : ℕ
  pub is_pinned : Bool
  pub created_at_unix_ms : ℕ

pub data Error : Type 0 where
  project_id_required workspace_id_required ids_required : Error
  workspace_not_found tab_not_found : Text → Error
  origin_error : Text → Error

pub data Result {ℓ} (A : Type ℓ) : Type ℓ where
  ok : A → Result A
  err : Error → Result A

pub Result-cases {ℓ} :
    {A : Type ℓ} (r : Result A) → ((a : A) × (r ≡ ok a)) ⊎ ((e : Error) × (r ≡ err e))
Result-cases (ok a) = inl (a, refl)
Result-cases (err e) = inr (e, refl)

unfoldable pub normalize_title : Text → Text
unfolding trim_space
normalize_title v = let t = trim_space v in if is_empty t then codes "Tab" else t

-- `Store`. A found value comes back with true; the readings of the clock that an implementation may use for
-- an id and a time are arguments.
pub record Store : Type 1 where
  pub State : Type 0
  pub ensure_workspace : Text → Text → State → Result Workspace × State
  pub get_workspace_by_project : Text → State → Result (Option Workspace)
  pub list_tabs : Text → State → Result (List Tab)
  pub get_tab : Text → Text → State → Result (Option Tab)
  pub create_tab : Text → Text → Text → ℕ → State → Result Tab × State
  pub select_tab : Text → Text → State → Result (Unit {0}) × State
  pub update_tab_run : Text → Text → State → Result (Unit {0}) × State
