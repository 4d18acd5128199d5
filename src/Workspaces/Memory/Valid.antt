-- ===== src/Workspaces/Memory/Valid.antt =====
-- What holds of the store of internal/cache/uiworkspace/memory_store.go after any requests.
use insightify_core.Prelude.{
  ℕ, ◌≡◌, refl, ap, sym, subst, ◌∙◌, true, false, ◌||◌, none, some, [], length, is_empty,
  if◌then◌else◌, Bool-cases, Option-cases, inl, inr, arith,
}
use insightify_core.Prelude.Text.{Text, text_eq, text_eq_iff, text_eq_refl, trim_space}
use insightify_core.Prelude.Dict.{find, find-put}
use insightify_core.Workspaces.{Workspace}
use insightify_core.Workspaces.Memory.{
  MemoryStore, new_workspace, new_tab, ensure_workspace, find_tab, create_tab, select_tab,
  set_run_in, update_tab_run,
}
use insightify_core.Workspaces.Memory.Sorted.{
  IsNumbered, append-IsNumbered, tabs_at, set_run_in-IsSameTabs,
}
use insightify_core.Workspaces.Memory.Active.{
  is_active, nil_of_length, length-is_empty, tabs_at-put, new_is_active, still_active,
}

pub record IsValid (s : MemoryStore) : Type 0 where
  pub owned :
      (p w : Text)
      → find p s.workspace_by_proj ≡ some w
      → (ws : Workspace) × (find w s.workspaces ≡ some ws)
        × (ws.project_id ≡ p)
        × (ws.workspace_id ≡ w)
  pub active :
      (w : Text) (ws : Workspace)
      → find w s.workspaces ≡ some ws
      → is_active ws.active_tab_id (tabs_at w s.tabs_by_workspace) ≡ true
  pub numbered : (w : Text) → IsNumbered 0 (tabs_at w s.tabs_by_workspace)
  pub known : (w : Text) → find w s.workspaces ≡ none → tabs_at w s.tabs_by_workspace ≡ []

-- At most one workspace has changed, in its active tab, and its tabs.
module _ (s s' : MemoryStore) (w : Text) (ws ws' : Workspace) (h : IsValid s)
    (found : find w s.workspaces ≡ some ws)
    (same_ids : (ws'.project_id ≡ ws.project_id) × (ws'.workspace_id ≡ ws.workspace_id))
    (same_owners : s'.workspace_by_proj ≡ s.workspace_by_proj)
    (others : (v : Text)
      → find v s'.workspaces ≡ (if text_eq v w then some ws' else find v s.workspaces))
    (other_tabs : (v : Text)
      → text_eq v w ≡ false
      → tabs_at v s'.tabs_by_workspace ≡ tabs_at v s.tabs_by_workspace)
    (good : is_active ws'.active_tab_id (tabs_at w s'.tabs_by_workspace) ≡ true)
    (counted : IsNumbered 0 (tabs_at w s'.tabs_by_workspace)) where
  changed-IsValid : IsValid s'
  changed-IsValid = record {
    owned = λ p v e.
        let (x, at_v, owner, id) = h.owned p v (subst (λ d. find p d ≡ some v) same_owners e) in
        elim (Bool-cases (text_eq v w)) [
          | inl q ↦
              let same : v ≡ w = (text_eq_iff v w).0 q in
              let here : x ≡ ws = cc (at_v, found, same) in
              (
                ws',
                ground (arith, others v, q),
                same_ids.0 ∙ ap (λ y. y.project_id) (sym here) ∙ owner,
                same_ids.1 ∙ ap (λ y. y.workspace_id) (sym here) ∙ id,
              )
          | inr q ↦ (x, ground (arith, others v, q, at_v), owner, id)
        ];
    active = λ v x e. elim (Bool-cases (text_eq v w)) [
      | inl q ↦
          let here : x ≡ ws' = ground (arith, others v, q, e) in
          subst (λ y. is_active y.active_tab_id (tabs_at v s'.tabs_by_workspace) ≡ true) (sym here)
            (subst (λ k. is_active ws'.active_tab_id (tabs_at k s'.tabs_by_workspace) ≡ true)
              (sym ((text_eq_iff v w).0 q)) good)
      | inr q ↦
          subst (λ ts. is_active x.active_tab_id ts ≡ true) (sym (other_tabs v q))
            (h.active v x (ground (arith, others v, q, e)))
    ];
    numbered = λ v. elim (Bool-cases (text_eq v w)) [
      | inl q ↦
          subst (λ k. IsNumbered 0 (tabs_at k s'.tabs_by_workspace)) (sym ((text_eq_iff v w).0 q))
            counted
      | inr q ↦ rw (other_tabs v q) (h.numbered v)
    ];
    known = λ v e. elim (Bool-cases (text_eq v w)) [
      | inl q ↦ ground (arith, others v, q, e)
      | inr q ↦ other_tabs v q ∙ h.known v (ground (arith, others v, q, e))
    ];
  }

pub ensure_workspace-IsValid :
    (p stamp : Text) (s : MemoryStore)
    → find (new_workspace p stamp).workspace_id s.workspaces ≡ none
    → IsValid s
    → IsValid (ensure_workspace p stamp s).1
unfolding ensure_workspace
ensure_workspace-IsValid p stamp s new h =
    let pid = trim_space p in
    let ws = new_workspace pid stamp in
    elim (Bool-cases (is_empty pid)) [
      | inl e ↦ rw e h
      | inr e ↦ rw e (elim (Option-cases (find pid s.workspace_by_proj)) [
        | inr (id, n) ↦ rw n h
        | inl n ↦ rw n (record {
          owned = λ q v f. elim (Bool-cases (text_eq q pid)) [
            | inl g ↦
                let here : ws.workspace_id ≡ v =
                  ground (arith, find-put q pid ws.workspace_id s.workspace_by_proj, f, g) in
                (
                  ws,
                  ground (
                    arith,
                    here,
                    find-put v ws.workspace_id ws s.workspaces,
                    text_eq_iff v ws.workspace_id,
                  ),
                  sym ((text_eq_iff q pid).0 g),
                  here,
                )
            | inr g ↦
                let (x, at_v, owner, id) =
                  h.owned q v
                    (ground (arith, find-put q pid ws.workspace_id s.workspace_by_proj, f, g)) in
                (
                  x,
                  ground (
                    arith,
                    at_v,
                    new,
                    find-put v ws.workspace_id ws s.workspaces,
                    text_eq_iff v ws.workspace_id,
                  ),
                  owner,
                  id,
                )
          ];
          active = λ v x f. elim (Bool-cases (text_eq v ws.workspace_id)) [
            | inl g ↦
                let absent : find v s.workspaces ≡ none =
                  subst (λ k. find k s.workspaces ≡ none)
                    (sym ((text_eq_iff v ws.workspace_id).0 g)) new in
                let here : x ≡ ws =
                  ground (arith, find-put v ws.workspace_id ws s.workspaces, f, g) in
                rw (h.known v absent, here) refl
            | inr g ↦
                h.active v x (ground (arith, find-put v ws.workspace_id ws s.workspaces, f, g))
          ];
          numbered = h.numbered;
          known = λ v f. h.known v (ground (arith, find-put v ws.workspace_id ws s.workspaces, f));
        })
      ])
    ]

pub create_tab-IsValid :
    (w title stamp : Text) (millis : ℕ) (s : MemoryStore)
    → IsValid s
    → IsValid (create_tab w title stamp millis s).1
unfolding create_tab
create_tab-IsValid w title stamp millis s h =
    let wid = trim_space w in
    let tabs = tabs_at wid s.tabs_by_workspace in
    let tab = new_tab wid title stamp millis (length tabs) in
    elim (Bool-cases (is_empty wid)) [
      | inl e ↦ rw e h
      | inr e ↦ rw e (elim (Option-cases (find wid s.workspaces)) [
        | inl n ↦ rw n h
        | inr (ws, n) ↦ rw n (elim (Bool-cases (is_empty ws.active_tab_id)) [
          | inl blank ↦ rw blank (
              changed-IsValid s _ wid ws (record ws { active_tab_id = tab.tab_id }) h n (refl, refl)
                refl (λ v. find-put v wid _ s.workspaces) (λ v q. tabs_at-put v wid _ _ ∙ rw q refl)
                (rw (tabs_at-put wid wid _ s.tabs_by_workspace, text_eq_refl wid)
                  (new_is_active tabs tab refl))
                (rw (tabs_at-put wid wid _ s.tabs_by_workspace, text_eq_refl wid)
                  (append-IsNumbered tabs tab 0 (h.numbered wid) (omega arith))))
          | inr chosen ↦ rw chosen (
              changed-IsValid s _ wid ws ws h n (refl, refl) refl
                (λ v. ground (arith, n, text_eq_iff v wid))
                (λ v q. tabs_at-put v wid _ _ ∙ rw q refl)
                (rw (tabs_at-put wid wid _ s.tabs_by_workspace, text_eq_refl wid)
                  (still_active ws.active_tab_id tabs tab chosen (h.active wid ws n)))
                (rw (tabs_at-put wid wid _ s.tabs_by_workspace, text_eq_refl wid)
                  (append-IsNumbered tabs tab 0 (h.numbered wid) (omega arith))))
        ])
      ])
    ]

pub select_tab-IsValid : (w t : Text) (s : MemoryStore) → IsValid s → IsValid (select_tab w t s).1
unfolding select_tab
select_tab-IsValid w t s h =
    let wid = trim_space w in
    let tid = trim_space t in
    elim (Bool-cases (is_empty wid || is_empty tid)) [
      | inl e ↦ rw e h
      | inr e ↦ rw e (elim (Option-cases (find wid s.workspaces)) [
        | inl n ↦ rw n h
        | inr (ws, n) ↦ rw n (elim (Option-cases (find_tab tid (tabs_at wid s.tabs_by_workspace))) [
          | inl m ↦ rw m h
          | inr (tab, m) ↦ rw m (
              changed-IsValid s _ wid ws (record ws { active_tab_id = tid }) h n (refl, refl) refl
                (λ v. find-put v wid _ s.workspaces) (λ v q. refl) (ground (arith, m, e))
                (h.numbered wid))
        ])
      ])
    ]

pub update_tab_run-IsValid :
    (t r : Text) (s : MemoryStore) → IsValid s → IsValid (update_tab_run t r s).1
unfolding update_tab_run
update_tab_run-IsValid t r s h =
    let tid = trim_space t in
    let rid = trim_space r in
    elim (Bool-cases (is_empty tid || is_empty rid)) [
      | inl e ↦ rw e h
      | inr e ↦ rw e (elim (Option-cases (set_run_in tid rid s.tabs_by_workspace)) [
        | inl n ↦ rw n h
        | inr (d, n) ↦
            let same = set_run_in-IsSameTabs tid rid s.tabs_by_workspace d n in
            rw n (record {
              owned = h.owned;
              active = λ w x f. ground (
                arith,
                h.active w x f,
                (same w).same_ids x.active_tab_id,
                (same w).long,
                length-is_empty (tabs_at w d),
                length-is_empty (tabs_at w s.tabs_by_workspace),
              );
              numbered = λ w. (same w).numbered 0 (h.numbered w);
              known = λ w f. nil_of_length _ ((same w).long ∙ ap length (h.known w f));
            })
      ])
    ]
