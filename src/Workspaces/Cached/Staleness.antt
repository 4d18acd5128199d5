-- ===== src/Workspaces/Cached/Staleness.antt =====
-- What the cached store of internal/cache/uiworkspace/cached_store.go returns after a write.
use insightify_core.Prelude.{ℤ, ℕ, ◌≡◌, refl, ◌∙◌, none, some, inl, inr, arith}
use insightify_core.Prelude.Text.{Text, text_eq_refl, trim_space}
use insightify_core.Cache.Memory.{texts, delete_locked}
use insightify_core.Cache.Memory.Consistency.{IsConsistent}
use insightify_core.Cache.Memory.Retrieval.{peek, get_locked-peek, delete_locked-peek}
use insightify_core.Cache.Memory.Runs.{IsValid, delete_locked-IsValid}
use insightify_core.Workspaces.{Workspace, ok, Result-cases, Store}
use insightify_core.Workspaces.Cached.{
  CachedStore, tab_key, get_workspace_by_project, list_tabs, select_tab,
}

module _ (S : Store) where
  cached_workspace :
      (p : Text) (now : ℕ) (s : CachedStore S) (ws : Workspace)
      → IsConsistent texts s.workspace_by_project
      → peek texts (trim_space p) now s.workspace_by_project ≡ some ws
      → (get_workspace_by_project S p now s).0 ≡ ok (some ws)
  unfolding get_workspace_by_project
  cached_workspace p now s ws h cached =
      let (read, rest) =
        get_locked-peek texts s.workspace_by_project (trim_space p) (trim_space p) now now h
          (omega arith) in
      rw (read ∙ cached, get_workspace_by_project) refl

  uncached_tabs :
      (w : Text) (now : ℕ) (s : CachedStore S)
      → IsConsistent texts s.tabs_by_workspace
      → peek texts (trim_space w) now s.tabs_by_workspace ≡ none
      → (list_tabs S w now s).0 ≡ S.list_tabs (trim_space w) s.origin
  unfolding list_tabs
  uncached_tabs w now s h uncached =
      let (read, rest) =
        get_locked-peek texts s.tabs_by_workspace (trim_space w) (trim_space w) now now h
          (omega arith) in
      rw (read ∙ uncached, list_tabs)
        (elim (Result-cases (S.list_tabs (trim_space w) s.origin)) [
          | inl (tabs, e) ↦ rw e refl
          | inr (x, e) ↦ rw e refl
        ])

  -- After a `SelectTab` that the store accepts, `ListTabs` of the workspace returns what the store has now, but
  -- `GetWorkspaceByProject` still returns the workspace that the cache had for the project, with the tab
  -- that was active before, until it expires: only the cache by workspace, which nothing reads, is cleared.
  pub get_workspace_by_project-select_tab :
      (w t p : Text) (now max_entries : ℕ) (max_bytes : ℤ) (s : CachedStore S) (ws : Workspace)
      (accepted : Unit {0})
      → IsConsistent texts s.workspace_by_project
      → IsValid texts max_entries max_bytes s.tabs_by_workspace
      → (S.select_tab w t s.origin).0 ≡ ok accepted
      → peek texts (trim_space p) now s.workspace_by_project ≡ some ws
      → ((list_tabs S w now (select_tab S w t s).1).0
          ≡ S.list_tabs (trim_space w) (S.select_tab w t s.origin).1)
        × ((get_workspace_by_project S p now (select_tab S w t s).1).0 ≡ ok (some ws))
  unfolding select_tab
  get_workspace_by_project-select_tab w t p now max_entries max_bytes s ws accepted h valid done
        cached =
      let wid = trim_space w in
      let after : CachedStore S = record s {
        origin = (S.select_tab w t s.origin).1;
        workspace_by_id = delete_locked texts wid s.workspace_by_id;
        tabs_by_workspace = delete_locked texts wid s.tabs_by_workspace;
        tab_by_key = delete_locked texts (tab_key wid t) s.tab_by_key;
      } in
      let selected : select_tab S w t s ≡ (ok accepted, after) = rw (done, select_tab) refl in
      let kept = delete_locked-IsValid texts max_entries max_bytes wid s.tabs_by_workspace valid in
      let gone = delete_locked-peek texts s.tabs_by_workspace wid wid now valid.consistent in
      rw selected (
        uncached_tabs w now after kept.consistent (gone ∙ rw (text_eq_refl wid) refl),
        cached_workspace p now after ws h cached,
      )
