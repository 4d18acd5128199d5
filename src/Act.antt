-- ===== src/Act.antt =====
-- internal/domain/act: the status of an act node (act.go), its normalisation (mapper.go), who may
-- create nodes (policy.go) and the routing of user input (route.go).
pub mod Transitions
pub mod State
pub mod Edits
pub mod Routing
use insightify_core.Prelude.{
  ℕ, ◌+◌, Bool, true, false, not, ◌&&◌, ◌||◌, Option, none, some, List, [], ◌∷◌, ◌++◌, map, ltb,
  leb, ◌==◌, if◌then◌else◌, is_empty,
}
use insightify_core.Prelude.Text.{Text, codes, text_eq, trim_space}

-- `UiActStatus`. Enums of proto3 are open: `other n` is the number 9 + n, which has no name.
pub data UiActStatus : Type 0 where
  unspecified idle planning suggesting searching running_worker : UiActStatus
  needs_user_action done failed : UiActStatus
  other : ℕ → UiActStatus

unfoldable pub number : UiActStatus → ℕ
number unspecified = 0
number idle = 1
number planning = 2
number suggesting = 3
number searching = 4
number running_worker = 5
number needs_user_action = 6
number done = 7
number failed = 8
number (other n) = 9 + n

infix 50 ◌=ₛ◌
abbrev pub ◌=ₛ◌ : UiActStatus → UiActStatus → Bool
a =ₛ b = number a == number b

-- The `switch` of `CanTransition`, over the current status.
unfoldable pub allowed_from : UiActStatus → UiActStatus → Bool
unfolding number
allowed_from unspecified to = to =ₛ idle || to =ₛ planning
allowed_from idle to = to =ₛ planning
allowed_from planning to =
    to =ₛ suggesting
    || to =ₛ searching
    || to =ₛ running_worker
    || to =ₛ needs_user_action
    || to =ₛ failed
allowed_from suggesting to = to =ₛ needs_user_action || to =ₛ failed
allowed_from searching to = to =ₛ needs_user_action || to =ₛ failed
allowed_from running_worker to = to =ₛ done || to =ₛ needs_user_action || to =ₛ failed
allowed_from needs_user_action to = to =ₛ planning || to =ₛ failed
allowed_from done to = to =ₛ planning
allowed_from failed to = to =ₛ planning
allowed_from (other n) to = false

unfoldable pub can_transition : UiActStatus → UiActStatus → Bool
unfolding allowed_from number
can_transition from to = if from =ₛ to then true else allowed_from from to

unfoldable pub is_terminal_status : UiActStatus → Bool
unfolding number
is_terminal_status s = s =ₛ done || s =ₛ failed

unfoldable pub status_to_mode : UiActStatus → Text
status_to_mode idle = codes "idle"
status_to_mode planning = codes "planning"
status_to_mode suggesting = codes "suggest"
status_to_mode searching = codes "search"
status_to_mode running_worker = codes "run_worker"
status_to_mode needs_user_action = codes "needs_user_action"
status_to_mode done = codes "done"
status_to_mode failed = codes "failed"
status_to_mode _ = codes "idle"

-- `UiActState`, over the messages of pending actions and timeline events, which no operation here
-- looks into. `proto.Clone` is a copy, and the records are values.
pub record UiActState (Action Event : Type 0) : Type 0 where
  pub act_id : Text
  pub status : UiActStatus
  pub mode : Text
  pub goal : Text
  pub selected_worker : Text
  pub pending_actions : List Action
  pub timeline : List Event

pub data Error : Type 0 where
  state_is_nil : Error
  not_allowed : UiActStatus → UiActStatus → Error

pub data Result {ℓ} (A : Type ℓ) : Type ℓ where
  ok : A → Result A
  err : Error → Result A

module _ {Action Event : Type 0} where
  -- A nil pointer is `none`.
  unfoldable pub transition :
      Option (UiActState Action Event) → UiActStatus → Result (UiActState Action Event)
  transition none to = err state_is_nil
  transition (some s) to =
      if not (can_transition s.status to)
      then err (not_allowed s.status to)
      else ok (record s { status = to; mode = status_to_mode to })

  unfoldable pub append_timeline :
      Option (UiActState Action Event) → Option Event → Option (UiActState Action Event)
  append_timeline none evt = none
  append_timeline (some s) none = some s
  append_timeline (some s) (some e) = some (record s { timeline = s.timeline ++ (e ∷ []) })

  unfoldable pub normalize_act_state :
      Option (UiActState Action Event) → Option (UiActState Action Event)
  normalize_act_state none = none
  normalize_act_state (some s) = some (record s {
    act_id = trim_space s.act_id;
    mode = trim_space s.mode;
    goal = trim_space s.goal;
    selected_worker = trim_space s.selected_worker;
  })

-- `lower` is `unicode.ToLower` on one code point.
module _ (lower : ℕ → ℕ) where
  abbrev pub to_lower : Text → Text
  to_lower = map lower

  unfoldable pub is_node_create_actor_allowed : Text → Bool
  is_node_create_actor_allowed actor =
      let a = trim_space (to_lower actor) in
      text_eq a (codes "act") || text_eq a (codes "worker") || text_eq a (codes "system")

  -- The loop over `allowed`.
  unfoldable pub any_worker : Text → List Text → Bool
  any_worker k [] = false
  any_worker k (a ∷ allowed) = text_eq (trim_space (to_lower a)) k || any_worker k allowed

  unfoldable pub is_worker_allowed : Text → List Text → Bool
  unfolding any_worker
  is_worker_allowed key allowed =
      if is_empty allowed then true else any_worker (trim_space (to_lower key)) allowed

unfoldable pub has_prefix : Text → Text → Bool
has_prefix [] s = true
has_prefix (c ∷ p) [] = false
has_prefix (c ∷ p) (d ∷ s) = c == d && has_prefix p s

-- `strings.Contains(text, kw)`.
unfoldable pub contains : Text → Text → Bool
unfolding has_prefix
contains [] kw = has_prefix kw []
contains (c ∷ s) kw = has_prefix kw (c ∷ s) || contains s kw

unfoldable pub matches_any : Text → List Text → Bool
matches_any text [] = false
matches_any text (kw ∷ keywords) = contains text kw || matches_any text keywords

abbrev pub suggest_keywords : List Text
suggest_keywords =
    codes "suggest"
    ∷ codes "propose"
    ∷ codes "idea"
    ∷ codes "recommend"
    ∷ codes "advice"
    ∷ codes "提案"
    ∷ codes "おすすめ"
    ∷ codes "案"
    ∷ []

abbrev pub search_keywords : List Text
search_keywords =
    codes "search"
    ∷ codes "find"
    ∷ codes "look"
    ∷ codes "lookup"
    ∷ codes "discover"
    ∷ codes "query"
    ∷ codes "検索"
    ∷ codes "探す"
    ∷ codes "探し"
    ∷ codes "調べ"
    ∷ []

-- The confidence is counted in tenths.
pub record RouteResult : Type 0 where
  pub worker_key : Text
  pub mode : Text
  pub confidence : ℕ

abbrev pub bootstrap : Text → ℕ → RouteResult
bootstrap mode confidence = record {
  worker_key = codes "bootstrap";
  mode = mode;
  confidence = confidence;
}

unfoldable pub route_hits : Bool → Bool → RouteResult
route_hits suggest_hit search_hit =
    if suggest_hit && search_hit
    then bootstrap (codes "suggest") 4
    else (if suggest_hit
        then bootstrap (codes "suggest") 8
        else (if search_hit
            then bootstrap (codes "search") 8
            else bootstrap (codes "run_worker") 6))

unfoldable pub route_input : (ℕ → ℕ) → Text → RouteResult
unfolding route_hits
route_input lower goal =
    let g = to_lower lower (trim_space goal) in
    if is_empty g
    then bootstrap (codes "run_worker") 1
    else route_hits (matches_any g suggest_keywords) (matches_any g search_keywords)

abbrev pub fallback_confidence_threshold : ℕ
fallback_confidence_threshold = 5

unfoldable pub should_fallback : ℕ → Bool
should_fallback confidence = ltb confidence fallback_confidence_threshold
