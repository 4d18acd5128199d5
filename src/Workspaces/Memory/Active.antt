-- ===== src/Workspaces/Memory/Active.antt =====
-- The active tab among the tabs of a workspace.
use insightify_core.Prelude.{
  ◌≡◌, refl, Bool, true, false, not, ◌&&◌, List, [], ◌∷◌, ◌++◌, length, length-append, is_empty,
  ◌==◌, if◌then◌else◌, Bool-cases, inl, inr, arith,
}
use insightify_core.Prelude.Text.{Text, text_eq, text_eq_refl}
use insightify_core.Prelude.Dict.{Dict, put, find-put}
use insightify_core.Workspaces.{Tab}
use insightify_core.Workspaces.Memory.Sorted.{has_tab, has_tab-append, tabs_at}

-- The active tab is blank if there are no tabs; else it is not blank, and one of the tabs.
abbrev pub is_active : Text → List Tab → Bool
is_active active tabs =
    if is_empty tabs then is_empty active else not (is_empty active) && has_tab active tabs

pub nil_of_length : (ts : List Tab) → length ts ≡ 0 → ts ≡ []
nil_of_length [] h = refl
nil_of_length (t ∷ ts) h = absurd (omega (arith, h))

pub length-is_empty : (ts : List Tab) → is_empty ts ≡ (length ts == 0)
length-is_empty [] = refl
length-is_empty (t ∷ ts) = ground arith

pub tabs_at-put :
    (v w : Text) (ts : List Tab) (d : Dict (List Tab))
    → tabs_at v (put w ts d) ≡ (if text_eq v w then ts else tabs_at v d)
tabs_at-put v w ts d = elim (Bool-cases (text_eq v w)) [
  | inl e ↦ rw (find-put v w ts d, e, tabs_at) refl
  | inr e ↦ rw (find-put v w ts d, e, tabs_at) refl
]

pub new_is_active :
    (ts : List Tab) (t : Tab)
    → is_empty t.tab_id ≡ false
    → is_active t.tab_id (ts ++ (t ∷ [])) ≡ true
new_is_active ts t named = ground (
  arith,
  length-is_empty (ts ++ (t ∷ [])),
  length-append ts (t ∷ []),
  has_tab-append t.tab_id ts t,
  text_eq_refl t.tab_id,
)

pub still_active :
    (a : Text) (ts : List Tab) (t : Tab)
    → is_empty a ≡ false
    → is_active a ts ≡ true
    → is_active a (ts ++ (t ∷ [])) ≡ true
still_active a ts t some_tab h =
    ground
      (arith, length-is_empty (ts ++ (t ∷ [])), length-append ts (t ∷ []), has_tab-append a ts t)
