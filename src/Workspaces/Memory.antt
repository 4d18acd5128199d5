-- ===== src/Workspaces/Memory.antt =====
-- `MemoryStore` of internal/cache/uiworkspace/memory_store.go. The lock is held for the whole of each method. The
-- decimal text of the clock's reading, which makes an id, is the argument `stamp`; the order of a map is
-- that of the list that stands for it.
pub mod Sorted
pub mod Active
pub mod Valid
pub mod Requests
use insightify_core.Prelude.{
  ℕ, ◌+◌, Bool, true, false, ◌||◌, ◌&&◌, Option, none, some, List, [], ◌∷◌, ◌++◌, length, is_empty,
  ltb, ◌==◌, if◌then◌else◌,
}
use insightify_core.Prelude.Text.{Text, codes, text_eq, trim_space}
use insightify_core.Prelude.Dict.{Dict, find, put}
use insightify_core.Workspaces.{
  Workspace, Tab, Error, project_id_required, workspace_id_required, ids_required,
  workspace_not_found, tab_not_found, Result, ok, err, normalize_title, Store,
}

pub record MemoryStore : Type 0 where
  pub workspaces : Dict Workspace
  pub workspace_by_proj : Dict Text
  pub tabs_by_workspace : Dict (List Tab)

unfoldable pub new_memory_store : MemoryStore
new_memory_store = record { workspaces = []; workspace_by_proj = []; tabs_by_workspace = [] }

-- A missing key of a map gives the zero value.
unfoldable pub workspace_or_zero : Option Workspace → Workspace
workspace_or_zero none = record {
  workspace_id = [];
  project_id = [];
  name = [];
  active_tab_id = [];
}
workspace_or_zero (some ws) = ws

unfoldable pub tabs_of : Text → MemoryStore → List Tab
unfolding find
tabs_of wid s = elim (find wid s.tabs_by_workspace) [ none ↦ [] | some tabs ↦ tabs ]

unfoldable pub new_workspace : Text → Text → Workspace
new_workspace pid stamp = record {
  workspace_id = codes "ws-" ++ stamp;
  project_id = pid;
  name = codes "Workspace";
  active_tab_id = [];
}

unfoldable pub ensure_workspace : Text → Text → MemoryStore → Result Workspace × MemoryStore
unfolding trim_space find put workspace_or_zero new_workspace
ensure_workspace project_id stamp s =
    let pid = trim_space project_id in
    if is_empty pid then (err project_id_required, s) else elim (find pid s.workspace_by_proj) [
      | some ws_id ↦ (ok (workspace_or_zero (find ws_id s.workspaces)), s)
      | none ↦
          let ws = new_workspace pid stamp in
          (
            ok ws,
            record s {
              workspaces = put ws.workspace_id ws s.workspaces;
              workspace_by_proj = put pid ws.workspace_id s.workspace_by_proj;
            },
          )
    ]

unfoldable pub get_workspace_by_project : Text → MemoryStore → Result (Option Workspace)
unfolding trim_space find
get_workspace_by_project project_id s =
    let pid = trim_space project_id in
    if is_empty pid then err project_id_required else elim (find pid s.workspace_by_proj) [
      | none ↦ ok none
      | some ws_id ↦ ok (find ws_id s.workspaces)
    ]

-- The order of `ListTabs`.
unfoldable pub tab_before : Tab → Tab → Bool
tab_before a b =
    if a.order_index == b.order_index
    then ltb a.created_at_unix_ms b.created_at_unix_ms
    else ltb a.order_index b.order_index

-- `sort.Slice`, as an insertion sort.
unfoldable pub insert_tab : Tab → List Tab → List Tab
unfolding tab_before
insert_tab t [] = t ∷ []
insert_tab t (u ∷ us) =
    let rest = insert_tab t us in if tab_before u t then u ∷ rest else t ∷ u ∷ us

unfoldable pub sort_tabs : List Tab → List Tab
unfolding insert_tab
sort_tabs [] = []
sort_tabs (t ∷ ts) = insert_tab t (sort_tabs ts)

unfoldable pub list_tabs : Text → MemoryStore → Result (List Tab)
unfolding trim_space tabs_of sort_tabs
list_tabs workspace_id s =
    let wid = trim_space workspace_id in
    if is_empty wid then err workspace_id_required else ok (sort_tabs (tabs_of wid s))

unfoldable pub find_tab : Text → List Tab → Option Tab
unfolding text_eq
find_tab tid [] = none
find_tab tid (t ∷ ts) = if text_eq t.tab_id tid then some t else find_tab tid ts

unfoldable pub get_tab : Text → Text → MemoryStore → Result (Option Tab)
unfolding trim_space tabs_of find_tab
get_tab workspace_id tab_id s =
    let wid = trim_space workspace_id in
    let tid = trim_space tab_id in
    if is_empty wid || is_empty tid then err ids_required else ok (find_tab tid (tabs_of wid s))

unfoldable pub new_tab : Text → Text → Text → ℕ → ℕ → Tab
unfolding normalize_title
new_tab wid title stamp millis order = record {
  tab_id = codes "tab-" ++ stamp;
  workspace_id = wid;
  title = normalize_title title;
  run_id = [];
  order_index = order;
  is_pinned = false;
  created_at_unix_ms = millis;
}

unfoldable pub create_tab : Text → Text → Text → ℕ → MemoryStore → Result Tab × MemoryStore
unfolding trim_space find put tabs_of new_tab
create_tab workspace_id title stamp millis s =
    let wid = trim_space workspace_id in
    if is_empty wid then (err workspace_id_required, s) else elim (find wid s.workspaces) [
      | none ↦ (err (workspace_not_found wid), s)
      | some ws ↦
          let tab = new_tab wid title stamp millis (length (tabs_of wid s)) in
          (
            ok tab,
            record s {
              workspaces =
                  if is_empty ws.active_tab_id
                  then put wid (record ws { active_tab_id = tab.tab_id }) s.workspaces
                  else s.workspaces;
              tabs_by_workspace = put wid (tabs_of wid s ++ (tab ∷ [])) s.tabs_by_workspace;
            },
          )
    ]

unfoldable pub select_tab : Text → Text → MemoryStore → Result (Unit {0}) × MemoryStore
unfolding trim_space find put tabs_of find_tab
select_tab workspace_id tab_id s =
    let wid = trim_space workspace_id in
    let tid = trim_space tab_id in
    if is_empty wid || is_empty tid then (err ids_required, s) else elim (find wid s.workspaces) [
      | none ↦ (err (workspace_not_found wid), s)
      | some ws ↦ elim (find_tab tid (tabs_of wid s)) [
        | none ↦ (err (tab_not_found tid), s)
        | some t ↦ (
          ok tt,
          record s { workspaces = put wid (record ws { active_tab_id = tid }) s.workspaces },
        )
      ]
    ]

-- The tabs with the run of the first one that has the id.
unfoldable pub set_run : Text → Text → List Tab → Option (List Tab)
unfolding text_eq
set_run tid rid [] = none
set_run tid rid (t ∷ ts) =
    let rest : Option (List Tab) = elim (set_run tid rid ts) [
      | none ↦ none
      | some ts' ↦ some (t ∷ ts')
    ] in
    if text_eq t.tab_id tid then some (record t { run_id = rid } ∷ ts) else rest

-- The loop over the workspaces, which ends at the first that has the tab.
unfoldable pub set_run_in : Text → Text → Dict (List Tab) → Option (Dict (List Tab))
unfolding set_run
set_run_in tid rid [] = none
set_run_in tid rid ((wid, tabs) ∷ d) =
    let rest : Option (Dict (List Tab)) = elim (set_run_in tid rid d) [
      | none ↦ none
      | some d' ↦ some ((wid, tabs) ∷ d')
    ] in
    elim (set_run tid rid tabs) [ none ↦ rest | some tabs' ↦ some ((wid, tabs') ∷ d) ]

unfoldable pub update_tab_run : Text → Text → MemoryStore → Result (Unit {0}) × MemoryStore
unfolding trim_space set_run_in
update_tab_run tab_id run_id s =
    let tid = trim_space tab_id in
    let rid = trim_space run_id in
    if is_empty tid || is_empty rid
    then (err ids_required, s)
    else elim (set_run_in tid rid s.tabs_by_workspace) [
      | none ↦ (err (tab_not_found tid), s)
      | some d ↦ (ok tt, record s { tabs_by_workspace = d })
    ]

abbrev pub memory_store : Store
memory_store = record {
  State = MemoryStore;
  ensure_workspace = ensure_workspace;
  get_workspace_by_project = get_workspace_by_project;
  list_tabs = list_tabs;
  get_tab = get_tab;
  create_tab = create_tab;
  select_tab = select_tab;
  update_tab_run = update_tab_run;
}
