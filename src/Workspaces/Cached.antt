-- ===== src/Workspaces/Cached.antt =====
-- `CachedStore` of internal/cache/uiworkspace/cached_store.go: a store behind five caches. The clock is read once for
-- each request.
pub mod Staleness
use insightify_core.Prelude.{
  ℤ, pos, ℕ, ◌||◌, Option, none, some, List, [], ◌∷◌, ◌++◌, length, is_empty, if◌then◌else◌,
}
use insightify_core.Prelude.Text.{Text, codes, trim_space}
use insightify_core.Cache.Memory.{
  texts, LruTtl, or_default, new_lru_ttl, get_locked, set_locked, delete_locked,
}
use insightify_core.Workspaces.{Workspace, Tab, Result, ok, err, Store}

-- 2 minutes, in nanoseconds.
abbrev pub default_cache_ttl : ℕ
default_cache_ttl = 120000000000

abbrev pub default_max_entries : ℕ
default_max_entries = 2048

unfoldable pub tab_key : Text → Text → Text
unfolding trim_space
tab_key workspace_id tab_id = trim_space workspace_id ++ codes "|" ++ trim_space tab_id

-- An empty cache with the bounds of the configuration.
unfoldable pub new_cache : {V : Type 0} → ℤ → ℤ → LruTtl Text V
unfolding new_lru_ttl or_default
new_cache ttl max_entries =
    new_lru_ttl (pos (or_default max_entries default_max_entries)) (pos 0)
      (pos (or_default ttl default_cache_ttl))

module _ (S : Store) where
  pub record CachedStore : Type 0 where
    pub origin : S.State
    pub workspace_by_project : LruTtl Text Workspace
    pub workspace_by_id : LruTtl Text Workspace
    pub tabs_by_workspace : LruTtl Text (List Tab)
    pub tab_by_key : LruTtl Text Tab
    pub tab_to_workspace : LruTtl Text Text

  unfoldable pub new_cached_store : S.State → ℤ → ℤ → CachedStore
  unfolding new_cache
  new_cached_store origin ttl max_entries = record {
    origin = origin;
    workspace_by_project = new_cache ttl max_entries;
    workspace_by_id = new_cache ttl max_entries;
    tabs_by_workspace = new_cache ttl max_entries;
    tab_by_key = new_cache ttl max_entries;
    tab_to_workspace = new_cache ttl max_entries;
  }

  unfoldable pub cache_workspace : Workspace → ℕ → CachedStore → CachedStore
  unfolding set_locked trim_space
  cache_workspace ws now s =
      let pid = trim_space ws.project_id in
      let wid = trim_space ws.workspace_id in
      record s {
        workspace_by_project =
            if is_empty pid
            then s.workspace_by_project
            else set_locked texts pid ws 1 now s.workspace_by_project;
        workspace_by_id =
            if is_empty wid
            then s.workspace_by_id
            else set_locked texts wid ws 1 now s.workspace_by_id;
      }

  unfoldable pub cache_tab : Text → Tab → ℕ → CachedStore → CachedStore
  unfolding set_locked tab_key trim_space
  cache_tab workspace_id t now s = record s {
    tab_by_key = set_locked texts (tab_key workspace_id t.tab_id) t 1 now s.tab_by_key;
    tab_to_workspace = set_locked texts (trim_space t.tab_id) workspace_id 1 now s.tab_to_workspace;
  }

  -- The loop of `cacheTabs`.
  unfoldable pub cache_each : Text → List Tab → ℕ → CachedStore → CachedStore
  unfolding cache_tab
  cache_each workspace_id [] now s = s
  cache_each workspace_id (t ∷ ts) now s =
      cache_each workspace_id ts now (cache_tab workspace_id t now s)

  unfoldable pub cache_tabs : Text → List Tab → ℕ → CachedStore → CachedStore
  unfolding set_locked cache_each
  cache_tabs workspace_id tabs now s = cache_each workspace_id tabs now (record s {
    tabs_by_workspace = set_locked texts workspace_id tabs (length tabs) now s.tabs_by_workspace;
  })

  unfoldable pub ensure_workspace : Text → Text → ℕ → CachedStore → Result Workspace × CachedStore
  unfolding cache_workspace
  ensure_workspace project_id stamp now s =
      let (answer, origin) = S.ensure_workspace project_id stamp s.origin in
      let s' : CachedStore = record s { origin = origin } in
      elim answer [ err e ↦ (err e, s') | ok ws ↦ (ok ws, cache_workspace ws now s') ]

  -- What `GetWorkspaceByProject` does after a miss.
  unfoldable pub fill_workspace :
      Result (Option Workspace) → ℕ → CachedStore → Result (Option Workspace) × CachedStore
  unfolding cache_workspace
  fill_workspace (err e) now s = (err e, s)
  fill_workspace (ok none) now s = (ok none, s)
  fill_workspace (ok (some ws)) now s = (ok (some ws), cache_workspace ws now s)

  unfoldable pub get_workspace_by_project :
      Text → ℕ → CachedStore → Result (Option Workspace) × CachedStore
  unfolding get_locked fill_workspace trim_space
  get_workspace_by_project project_id now s =
      let k = trim_space project_id in
      let (hit, cache) = get_locked texts k now s.workspace_by_project in
      let s' : CachedStore = record s { workspace_by_project = cache } in
      elim hit [
        | some ws ↦ (ok (some ws), s')
        | none ↦ fill_workspace (S.get_workspace_by_project k s.origin) now s'
      ]

  unfoldable pub list_tabs : Text → ℕ → CachedStore → Result (List Tab) × CachedStore
  unfolding get_locked cache_tabs trim_space
  list_tabs workspace_id now s =
      let wid = trim_space workspace_id in
      let (hit, cache) = get_locked texts wid now s.tabs_by_workspace in
      let s' : CachedStore = record s { tabs_by_workspace = cache } in
      elim hit [
        | some tabs ↦ (ok tabs, s')
        | none ↦ elim (S.list_tabs wid s.origin) [
          | err e ↦ (err e, s')
          | ok tabs ↦ (ok tabs, cache_tabs wid tabs now s')
        ]
      ]

  -- What `GetTab` does after a miss.
  unfoldable pub fill_tab :
      Text → Result (Option Tab) → ℕ → CachedStore → Result (Option Tab) × CachedStore
  unfolding set_locked trim_space
  fill_tab k (err e) now s = (err e, s)
  fill_tab k (ok none) now s = (ok none, s)
  fill_tab k (ok (some t)) now s = (
    ok (some t),
    record s {
      tab_by_key = set_locked texts k t 1 now s.tab_by_key;
      tab_to_workspace =
          set_locked texts (trim_space t.tab_id) (trim_space t.workspace_id) 1 now
            s.tab_to_workspace;
    },
  )

  unfoldable pub get_tab : Text → Text → ℕ → CachedStore → Result (Option Tab) × CachedStore
  unfolding get_locked fill_tab tab_key
  get_tab workspace_id tab_id now s =
      let k = tab_key workspace_id tab_id in
      let (hit, cache) = get_locked texts k now s.tab_by_key in
      let s' : CachedStore = record s { tab_by_key = cache } in
      elim hit [
        | some t ↦ (ok (some t), s')
        | none ↦ fill_tab k (S.get_tab workspace_id tab_id s.origin) now s'
      ]

  unfoldable pub create_tab : Text → Text → Text → ℕ → ℕ → CachedStore → Result Tab × CachedStore
  unfolding cache_tab delete_locked trim_space
  create_tab workspace_id title stamp millis now s =
      let (answer, origin) = S.create_tab workspace_id title stamp millis s.origin in
      let wid = trim_space workspace_id in
      elim answer [
        | err e ↦ (err e, record s { origin = origin })
        | ok tab ↦ (
          ok tab,
          cache_tab wid tab now (record s {
            origin = origin;
            tabs_by_workspace = delete_locked texts wid s.tabs_by_workspace;
            workspace_by_id = delete_locked texts wid s.workspace_by_id;
          }),
        )
      ]

  unfoldable pub select_tab : Text → Text → CachedStore → Result (Unit {0}) × CachedStore
  unfolding delete_locked tab_key trim_space
  select_tab workspace_id tab_id s =
      let (answer, origin) = S.select_tab workspace_id tab_id s.origin in
      let wid = trim_space workspace_id in
      elim answer [
        | err e ↦ (err e, record s { origin = origin })
        | ok done ↦ (
          ok done,
          record s {
            origin = origin;
            workspace_by_id = delete_locked texts wid s.workspace_by_id;
            tabs_by_workspace = delete_locked texts wid s.tabs_by_workspace;
            tab_by_key = delete_locked texts (tab_key wid tab_id) s.tab_by_key;
          },
        )
      ]

  -- The tab is dropped only if the cache knows its workspace.
  unfoldable pub forget_tab : Option Text → Text → CachedStore → CachedStore
  unfolding delete_locked tab_key
  forget_tab none tid s = s
  forget_tab (some wid) tid s = record s {
    tabs_by_workspace = delete_locked texts wid s.tabs_by_workspace;
    tab_by_key = delete_locked texts (tab_key wid tid) s.tab_by_key;
  }

  unfoldable pub update_tab_run : Text → Text → ℕ → CachedStore → Result (Unit {0}) × CachedStore
  unfolding get_locked forget_tab trim_space
  update_tab_run tab_id run_id now s =
      let (answer, origin) = S.update_tab_run tab_id run_id s.origin in
      let tid = trim_space tab_id in
      let (wid, cache) = get_locked texts tid now s.tab_to_workspace in
      elim answer [
        | err e ↦ (err e, record s { origin = origin })
        | ok done ↦
            (ok done, forget_tab wid tid (record s { origin = origin; tab_to_workspace = cache }))
      ]
