-- ===== src/Workspaces/Memory/Requests.antt =====
-- Sequences of requests to the store of internal/cache/uiworkspace/memory_store.go, and what is read after a
-- write.
use insightify_core.Prelude.{
  ℕ, ◌≡◌, refl, ap, sym, subst, ◌∙◌, false, none, some, List, [], ◌∷◌, is_empty, Option-cases, inl,
  inr,
}
use insightify_core.Prelude.Text.{Text, text_eq_refl, trim_space}
use insightify_core.Prelude.Dict.{find, put, find-put}
use insightify_core.Workspaces.{Workspace, Result, ok}
use insightify_core.Workspaces.Memory.{
  MemoryStore, new_memory_store, workspace_or_zero, new_workspace, ensure_workspace,
  get_workspace_by_project, create_tab, select_tab, update_tab_run,
}
use insightify_core.Workspaces.Memory.Valid.{
  IsValid, ensure_workspace-IsValid, create_tab-IsValid, select_tab-IsValid, update_tab_run-IsValid,
}

-- The calls that write, with the readings of the clock.
pub data Request : Type 0 where
  ensuring : Text → Text → Request
  creating : Text → Text → Text → ℕ → Request
  selecting updating : Text → Text → Request

unfoldable pub serve : Request → MemoryStore → MemoryStore
unfolding ensure_workspace create_tab select_tab update_tab_run
serve (ensuring p stamp) s = (ensure_workspace p stamp s).1
serve (creating w title stamp millis) s = (create_tab w title stamp millis s).1
serve (selecting w t) s = (select_tab w t s).1
serve (updating t r) s = (update_tab_run t r s).1

unfoldable pub serve_all : List Request → MemoryStore → MemoryStore
unfolding serve
serve_all [] s = s
serve_all (q ∷ qs) s = serve_all qs (serve q s)

-- The clock gives no workspace an id that another has.
abbrev pub IsNew : Request → MemoryStore → Type 0
IsNew (ensuring p stamp) s = find (new_workspace p stamp).workspace_id s.workspaces ≡ none
IsNew (creating w title stamp millis) s = Unit
IsNew (selecting w t) s = Unit
IsNew (updating t r) s = Unit

abbrev pub AreNew : List Request → MemoryStore → Type 0
AreNew [] s = Unit
AreNew (q ∷ qs) s = IsNew q s × AreNew qs (serve q s)

serve-IsValid : (q : Request) (s : MemoryStore) → IsNew q s → IsValid s → IsValid (serve q s)
unfolding serve
serve-IsValid (ensuring p stamp) s new h = ensure_workspace-IsValid p stamp s new h
serve-IsValid (creating w title stamp millis) s new h = create_tab-IsValid w title stamp millis s h
serve-IsValid (selecting w t) s new h = select_tab-IsValid w t s h
serve-IsValid (updating t r) s new h = update_tab_run-IsValid t r s h

serve_all_from :
    (qs : List Request) (s : MemoryStore) → AreNew qs s → IsValid s → IsValid (serve_all qs s)
unfolding serve_all
serve_all_from [] s new h = h
serve_all_from (q ∷ qs) s new h = serve_all_from qs (serve q s) new.1 (serve-IsValid q s new.0 h)

new_memory_store-IsValid : IsValid new_memory_store
unfolding new_memory_store find
new_memory_store-IsValid = record {
  owned = λ p w e. cc;
  active = λ w ws e. cc;
  numbered = λ w. tt;
  known = λ w e. refl;
}

pub serve_all-IsValid :
    (qs : List Request) → AreNew qs new_memory_store → IsValid (serve_all qs new_memory_store)
serve_all-IsValid qs new = serve_all_from qs new_memory_store new new_memory_store-IsValid

-- The project has a workspace.
found-ensure_workspace :
    (p stamp id : Text) (s : MemoryStore) (ws : Workspace)
    → is_empty (trim_space p) ≡ false
    → find (trim_space p) s.workspace_by_proj ≡ some id
    → find id s.workspaces ≡ some ws
    → (ensure_workspace p stamp s ≡ (ok ws, s)) × (get_workspace_by_project p s ≡ ok (some ws))
unfolding ensure_workspace get_workspace_by_project
found-ensure_workspace p stamp id s ws nonblank at_p at_id = (
  rw nonblank (rw at_p (ap (λ o. (ok (workspace_or_zero o), s)) at_id)),
  rw nonblank (rw at_p (ap ok at_id)),
)

-- `EnsureWorkspace` of a project whose id is not blank, in a valid store and with an id that is new, returns
-- the project's workspace: `GetWorkspaceByProject` then finds it, and the same call again, whatever the clock
-- says, returns it and changes nothing.
pub get_workspace_by_project-ensure_workspace :
    (p stamp later : Text) (s : MemoryStore)
    → IsValid s
    → find (new_workspace p stamp).workspace_id s.workspaces ≡ none
    → is_empty (trim_space p) ≡ false
    → (ws : Workspace) × ((ensure_workspace p stamp s).0 ≡ ok ws)
      × (ws.project_id ≡ trim_space p)
      × (get_workspace_by_project p (ensure_workspace p stamp s).1 ≡ ok (some ws))
      × (ensure_workspace p later (ensure_workspace p stamp s).1
          ≡ (ok ws, (ensure_workspace p stamp s).1))
get_workspace_by_project-ensure_workspace p stamp later s h new nonblank =
    let pid = trim_space p in
    let Claim : Workspace → Result Workspace × MemoryStore → Type 0 = λ ws out.
      (out.0 ≡ ok ws)
      × (ws.project_id ≡ pid)
      × (get_workspace_by_project p out.1 ≡ ok (some ws))
      × (ensure_workspace p later out.1 ≡ (ok ws, out.1)) in
    elim (Option-cases (find pid s.workspace_by_proj)) [
      | inr (id, e) ↦
          let (ws, at_id, owner, same_id) = h.owned pid id e in
          let now_ = found-ensure_workspace p stamp id s ws nonblank e at_id in
          let again = found-ensure_workspace p later id s ws nonblank e at_id in
          let (a, b, c, d) = subst (Claim ws) (sym now_.0) (refl, owner, again.1, again.0) in
          (ws, a, b, c, d)
      | inl e ↦
          let ws = new_workspace pid stamp in
          let s' : MemoryStore = record s {
            workspaces = put ws.workspace_id ws s.workspaces;
            workspace_by_proj = put pid ws.workspace_id s.workspace_by_proj;
          } in
          let made : ensure_workspace p stamp s ≡ (ok ws, s') =
            unfold ensure_workspace in rw nonblank (rw e refl) in
          let again =
            found-ensure_workspace p later ws.workspace_id s' ws nonblank
              (find-put pid pid _ _ ∙ rw (text_eq_refl pid) refl)
              (find-put ws.workspace_id ws.workspace_id _ _
                ∙ rw (text_eq_refl ws.workspace_id) refl) in
          let (a, b, c, d) =
            subst (Claim ws) (sym made) (refl, unfold new_workspace in refl, again.1, again.0) in
          (ws, a, b, c, d)
    ]
