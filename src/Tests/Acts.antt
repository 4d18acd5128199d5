-- ===== src/Tests/Acts.antt =====
-- Acts and the routing of input.
use insightify_core.Prelude.{
  ℕ, ◌+◌, ◌≡◌, refl, ◌≢◌, ◌↔◌, ◌⊎◌, true, ◌&&◌, none, some, List, [], ◌∷◌, ◌++◌, leb, if◌then◌else◌,
  arith,
}
use insightify_core.Prelude.Text.{codes, is_space, trim_space}
use insightify_core.Act.{
  UiActStatus, planning, searching, done, failed, UiActState, ok, can_transition, transition,
  status_to_mode, to_lower, is_node_create_actor_allowed, is_worker_allowed, route_input,
  should_fallback, matches_any, suggest_keywords, search_keywords, contains,
}
use insightify_core.Act.Transitions.{Documented, Added, can_transition_iff}
use insightify_core.Act.Edits.{
  Edit, moving, adding, normalizing, edit_all, IsEdited, edit_all-IsEdited,
}
use insightify_core.Act.State.{run, IsCoherent, SameContent, run-SameContent, run-ne-done}
use insightify_core.Act.Routing.{
  Lists, folded, is_worker_allowed_iff, route_input_falls_back, allowed-folded,
}

-- `unicode.ToLower` on ASCII.
abbrev ascii_lower : ℕ → ℕ
ascii_lower c = if leb 65 c && leb c 90 then c + 32 else c

abbrev act : UiActState ℕ ℕ
act = record {
  act_id = codes "a1";
  status = planning;
  mode = codes "planning";
  goal = codes " find the bug ";
  selected_worker = [];
  pending_actions = [];
  timeline = 7 ∷ [];
}

abbrev searched : UiActState ℕ ℕ
searched = record act { status = failed; mode = codes "failed" }

search_run : run act (searching ∷ failed ∷ []) ≡ ok searched
unfolding run transition can_transition status_to_mode
search_run = refl

suggest_route :
    route_input ascii_lower (codes " Suggest a plan")
    ≡ record { worker_key = codes "bootstrap"; mode = codes "suggest"; confidence = 8 }
unfolding route_input matches_any contains trim_space
suggest_route = refl

can_transition_iff_example :
    (can_transition planning failed ≡ true)
    ↔ (◌≡◌ {A = UiActStatus} planning failed ⊎ (Documented planning failed ⊎ Added planning failed))
can_transition_iff_example = can_transition_iff planning failed

run-SameContent_example : SameContent act searched × IsCoherent searched
unfolding status_to_mode
run-SameContent_example = run-SameContent act (searching ∷ failed ∷ []) refl search_run

run-ne-done_example : searched.status ≢ done
run-ne-done_example =
    run-ne-done act (searching ∷ failed ∷ []) (λ e. cc) (λ e. cc) (λ e. cc, (λ e. cc, tt))
      search_run

abbrev edits : List (Edit ℕ)
edits = adding (some 8) ∷ moving searching ∷ normalizing ∷ adding none ∷ adding (some 9) ∷ []

abbrev edited : UiActState ℕ ℕ
edited = record act {
  status = searching;
  mode = trim_space (status_to_mode searching);
  timeline = act.timeline ++ (8 ∷ 9 ∷ []);
  act_id = trim_space act.act_id;
  goal = trim_space act.goal;
  selected_worker = trim_space act.selected_worker;
}

edit_run : edit_all edits (some act) ≡ ok edited
unfolding edit_all can_transition
edit_run = refl

edit_all-IsEdited_example : IsEdited edits act edited
unfolding status_to_mode
edit_all-IsEdited_example = edit_all-IsEdited edits act refl edit_run

is_worker_allowed_example :
    (is_worker_allowed ascii_lower (codes " Bootstrap") (codes "bootstrap" ∷ []) ≡ true) ↔ (
      (codes "bootstrap" ∷ [] ≡ [])
      ⊎ Lists ascii_lower (folded ascii_lower (codes " Bootstrap")) (codes "bootstrap" ∷ []))
is_worker_allowed_example =
    is_worker_allowed_iff ascii_lower (codes " Bootstrap") (codes "bootstrap" ∷ [])

route_input_falls_back_example :
    let g = to_lower ascii_lower (trim_space (codes "Search ideas")) in
    (should_fallback (route_input ascii_lower (codes "Search ideas")).confidence ≡ true) ↔ (
      (trim_space (codes "Search ideas") ≡ [])
      ⊎ ((matches_any g suggest_keywords ≡ true) × (matches_any g search_keywords ≡ true)))
route_input_falls_back_example = route_input_falls_back ascii_lower (codes "Search ideas")

ascii_lower_idem : (c : ℕ) → ascii_lower (ascii_lower c) ≡ ascii_lower c
ascii_lower_idem c = ground arith

ascii_lower-is_space : (c : ℕ) → is_space (ascii_lower c) ≡ is_space c
unfolding is_space
ascii_lower-is_space c = ground arith

allowed-folded_example :
    (is_node_create_actor_allowed ascii_lower (folded ascii_lower (codes " Worker "))
      ≡ is_node_create_actor_allowed ascii_lower (codes " Worker "))
    × (is_worker_allowed ascii_lower (folded ascii_lower (codes " Worker ")) (codes "worker" ∷ [])
        ≡ is_worker_allowed ascii_lower (codes " Worker ") (codes "worker" ∷ []))
allowed-folded_example =
    allowed-folded ascii_lower ascii_lower_idem ascii_lower-is_space (codes " Worker ")
      (codes "worker" ∷ [])
