-- ===== src/Tests/Tabs.antt =====
-- The stores of workspaces on a few calls.
use insightify_core.Prelude.{pos, ◌≡◌, refl, false, some, List, [], ◌∷◌}
use insightify_core.Prelude.Text.{Text, codes, text_eq, trim_space}
use insightify_core.Cache.Memory.{texts, LruTtl, new_lru_ttl, or_default, set_locked}
use insightify_core.Cache.Memory.Index.{lookup}
use insightify_core.Cache.Memory.Runs.{IsValid, new_lru_ttl-IsValid, set_locked-IsValid}
use insightify_core.Workspaces.{Workspace, ok, normalize_title}
use insightify_core.Workspaces.Memory.{
  MemoryStore, new_memory_store, memory_store, new_workspace, ensure_workspace,
  get_workspace_by_project, list_tabs, select_tab,
}
use insightify_core.Workspaces.Memory.Valid
use insightify_core.Workspaces.Memory.Requests.{
  Request, ensuring, creating, selecting, updating, serve, serve_all, serve_all-IsValid,
  get_workspace_by_project-ensure_workspace,
}
use insightify_core.Workspaces.Cached
use insightify_core.Workspaces.Cached.{CachedStore, new_cached_store, new_cache}
use insightify_core.Workspaces.Cached.Staleness.{get_workspace_by_project-select_tab}

abbrev project : Text
project = codes "p"

abbrev ws_id : Text
ws_id = codes "ws-1"

abbrev requests : List Request
requests =
    ensuring project (codes "1")
    ∷ creating ws_id (codes " First ") (codes "2") 20
    ∷ creating ws_id (codes " ") (codes "3") 10
    ∷ selecting ws_id (codes "tab-3")
    ∷ updating (codes "tab-2") (codes "r")
    ∷ []

abbrev store : MemoryStore
store = serve_all requests new_memory_store

program : Unit {0}
unfolding serve_all serve new_memory_store text_eq trim_space normalize_title list_tabs
    get_workspace_by_project new_workspace select_tab set_locked new_lru_ttl or_default lookup
program = tt

-- In the order of creation, whatever the times are.
lists_tabs :
    list_tabs ws_id store
    ≡ ok (
        record {
          tab_id = codes "tab-2";
          workspace_id = ws_id;
          title = codes "First";
          run_id = codes "r";
          order_index = 0;
          is_pinned = false;
          created_at_unix_ms = 20;
        }
        ∷ record {
          tab_id = codes "tab-3";
          workspace_id = ws_id;
          title = codes "Tab";
          run_id = [];
          order_index = 1;
          is_pinned = false;
          created_at_unix_ms = 10;
        }
        ∷ [])
unfolding program
lists_tabs = refl

abbrev owned : Workspace
owned = record {
  workspace_id = ws_id;
  project_id = project;
  name = codes "Workspace";
  active_tab_id = codes "tab-3";
}

finds_workspace : get_workspace_by_project project store ≡ ok (some owned)
unfolding program
finds_workspace = refl

serve_all-IsValid_example : Valid.IsValid store
unfolding program
serve_all-IsValid_example = serve_all-IsValid requests (refl, (tt, (tt, (tt, (tt, tt)))))

get_workspace_by_project-ensure_workspace_example :
    (ws : Workspace) × ((ensure_workspace project (codes "7") store).0 ≡ ok ws)
    × (ws.project_id ≡ trim_space project)
    × (get_workspace_by_project project (ensure_workspace project (codes "7") store).1
        ≡ ok (some ws))
    × (ensure_workspace project (codes "8") (ensure_workspace project (codes "7") store).1
        ≡ (ok ws, (ensure_workspace project (codes "7") store).1))
unfolding program
get_workspace_by_project-ensure_workspace_example =
    get_workspace_by_project-ensure_workspace project (codes "7") (codes "8") store
      serve_all-IsValid_example refl refl

-- Four entries, for ten nanoseconds. The cache has the workspace with its second tab active.
abbrev empty_cache : {V : Type 0} → LruTtl Text V
empty_cache = new_lru_ttl (pos 4) (pos 0) (pos 10)

abbrev cached : CachedStore memory_store
cached = record {
  origin = store;
  workspace_by_project = set_locked texts project owned 1 1 empty_cache;
  workspace_by_id = empty_cache;
  tabs_by_workspace = empty_cache;
  tab_by_key = empty_cache;
  tab_to_workspace = empty_cache;
}

cached-IsValid : IsValid texts 4 (pos 0) cached.workspace_by_project
unfolding or_default
cached-IsValid =
    set_locked-IsValid texts 4 (pos 0) project owned 1 1 empty_cache
      (new_lru_ttl-IsValid texts (pos 4) (pos 0) (pos 10))

get_workspace_by_project-select_tab_example :
    ((Cached.list_tabs memory_store ws_id 5
        (Cached.select_tab memory_store ws_id (codes "tab-2") cached).1).0
      ≡ list_tabs (trim_space ws_id) (select_tab ws_id (codes "tab-2") store).1)
    × ((Cached.get_workspace_by_project memory_store project 5
          (Cached.select_tab memory_store ws_id (codes "tab-2") cached).1).0
        ≡ ok (some owned))
unfolding program
get_workspace_by_project-select_tab_example =
    get_workspace_by_project-select_tab memory_store ws_id (codes "tab-2") project 5 4 (pos 0)
      cached owned tt cached-IsValid.consistent (new_lru_ttl-IsValid texts (pos 4) (pos 0) (pos 10))
      refl refl
