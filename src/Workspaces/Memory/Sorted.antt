-- ===== src/Workspaces/Memory/Sorted.antt =====
-- The order of tabs in internal/cache/uiworkspace/memory_store.go.
use insightify_core.Prelude.{
  ℕ, suc, ◌+◌, ◌≡◌, refl, ap, subst, ◌∙◌, Bool, true, false, none, some, List, [], ◌∷◌, ◌++◌,
  length, if◌then◌else◌, Bool-cases, Option-cases, inl, inr, arith,
}
use insightify_core.Prelude.Text.{Text, text_eq}
use insightify_core.Prelude.Dict.{Dict, find}
use insightify_core.Workspaces.{Tab}
use insightify_core.Workspaces.Memory.{
  tab_before, insert_tab, sort_tabs, find_tab, set_run, set_run_in,
}

-- The order indices count from `k` on.
abbrev pub IsNumbered : ℕ → List Tab → Type 0
IsNumbered k [] = Unit
IsNumbered k (t ∷ ts) = (t.order_index ≡ k) × IsNumbered (suc k) ts

insert_tab-IsNumbered :
    (t : Tab) (ts : List Tab) (k : ℕ)
    → t.order_index ≡ k
    → IsNumbered (suc k) ts
    → insert_tab t ts ≡ t ∷ ts
unfolding insert_tab tab_before
insert_tab-IsNumbered t [] k e h = refl
insert_tab-IsNumbered t (u ∷ us) k e h = ground (arith, e, h.0)

pub sort_tabs-IsNumbered : (ts : List Tab) (k : ℕ) → IsNumbered k ts → sort_tabs ts ≡ ts
unfolding sort_tabs
sort_tabs-IsNumbered [] k h = refl
sort_tabs-IsNumbered (t ∷ ts) k h =
    ap (insert_tab t) (sort_tabs-IsNumbered ts (suc k) h.1) ∙ insert_tab-IsNumbered t ts k h.0 h.1

pub append-IsNumbered :
    (ts : List Tab) (t : Tab) (k : ℕ)
    → IsNumbered k ts
    → t.order_index ≡ k + length ts
    → IsNumbered k (ts ++ (t ∷ []))
append-IsNumbered [] t k h e = (omega (arith, e), tt)
append-IsNumbered (u ∷ us) t k h e = (h.0, append-IsNumbered us t (suc k) h.1 (omega (arith, e)))

-- Whether a tab with the id is there.
abbrev pub has_tab : Text → List Tab → Bool
has_tab tid ts = elim (find_tab tid ts) [ none ↦ false | some t ↦ true ]

pub has_tab-append :
    (tid : Text) (ts : List Tab) (t : Tab)
    → has_tab tid (ts ++ (t ∷ [])) ≡ (if has_tab tid ts then true else text_eq t.tab_id tid)
unfolding find_tab
has_tab-append tid [] t = ground arith
has_tab-append tid (u ∷ us) t = ground (arith, has_tab-append tid us t)

-- A run is set: of the tabs nothing else changes.
pub record IsSameTabs (ts us : List Tab) : Type 0 where
  pub numbered : (k : ℕ) → IsNumbered k ts → IsNumbered k us
  pub same_ids : (tid : Text) → has_tab tid us ≡ has_tab tid ts
  pub long : length us ≡ length ts

same-IsSameTabs : (ts : List Tab) → IsSameTabs ts ts
same-IsSameTabs ts = record { numbered = λ k h. h; same_ids = λ tid. refl; long = refl }

cons-IsSameTabs :
    (t u : Tab) (ts us : List Tab)
    → u.order_index ≡ t.order_index
    → u.tab_id ≡ t.tab_id
    → IsSameTabs ts us
    → IsSameTabs (t ∷ ts) (u ∷ us)
unfolding find_tab
cons-IsSameTabs t u ts us order id h = record {
  numbered = λ k n. (order ∙ n.0, h.numbered (suc k) n.1);
  same_ids = λ tid. rw id (ground (arith, h.same_ids tid));
  long = omega (arith, h.long);
}

set_run-IsSameTabs :
    (tid rid : Text) (ts us : List Tab) → set_run tid rid ts ≡ some us → IsSameTabs ts us
unfolding set_run
set_run-IsSameTabs tid rid [] us e = cc
set_run-IsSameTabs tid rid (t ∷ ts) us e = elim (Bool-cases (text_eq t.tab_id tid)) [
  | inl f ↦
      subst (IsSameTabs (t ∷ ts)) (ground (arith, e, f))
        (cons-IsSameTabs t (record t { run_id = rid }) ts ts refl refl (same-IsSameTabs ts))
  | inr f ↦ elim (Option-cases (set_run tid rid ts)) [
    | inl n ↦ ground (arith, e, f, n)
    | inr (vs, n) ↦
        subst (IsSameTabs (t ∷ ts)) (ground (arith, e, f, n))
          (cons-IsSameTabs t t ts vs refl refl (set_run-IsSameTabs tid rid ts vs n))
  ]
]

abbrev pub tabs_at : Text → Dict (List Tab) → List Tab
tabs_at w d = elim (find w d) [ none ↦ [] | some tabs ↦ tabs ]

pub set_run_in-IsSameTabs :
    (tid rid : Text) (d d' : Dict (List Tab))
    → set_run_in tid rid d ≡ some d'
    → (w : Text) → IsSameTabs (tabs_at w d) (tabs_at w d')
unfolding set_run_in find
set_run_in-IsSameTabs tid rid [] d' e w = cc
set_run_in-IsSameTabs tid rid ((v, tabs) ∷ d) d' e w = elim (Option-cases (set_run tid rid tabs)) [
  | inr (us, f) ↦
      let after : Dict (List Tab) = (v, us) ∷ d in
      let goal : IsSameTabs (tabs_at w ((v, tabs) ∷ d)) (tabs_at w after) =
        elim (Bool-cases (text_eq w v)) [
          | inl g ↦ rw (g, tabs_at) (set_run-IsSameTabs tid rid tabs us f)
          | inr g ↦ rw (g, tabs_at) (same-IsSameTabs (tabs_at w d))
        ] in
      let e' : after ≡ d' = ground (arith, e, f) in
      subst (λ x. IsSameTabs (tabs_at w ((v, tabs) ∷ d)) (tabs_at w x)) e' goal
  | inl f ↦ elim (Option-cases (set_run_in tid rid d)) [
    | inl n ↦ ground (arith, e, f, n)
    | inr (d2, n) ↦
        let after : Dict (List Tab) = (v, tabs) ∷ d2 in
        let goal : IsSameTabs (tabs_at w ((v, tabs) ∷ d)) (tabs_at w after) =
          elim (Bool-cases (text_eq w v)) [
            | inl g ↦ rw (g, tabs_at) (same-IsSameTabs tabs)
            | inr g ↦ rw (g, tabs_at) (set_run_in-IsSameTabs tid rid d d2 n w)
          ] in
        let e' : after ≡ d' = ground (arith, e, f, n) in
        subst (λ x. IsSameTabs (tabs_at w ((v, tabs) ∷ d)) (tabs_at w x)) e' goal
  ]
]
