-- ===== src/Act/Transitions.antt =====
-- The transition table of internal/domain/act/act.go against the one of docs/act_mvp_spec.md §4.
use insightify_core.Prelude.{◌≡◌, ◌↔◌, ◌⊎◌, true, arith}
use insightify_core.Act.{
  UiActStatus, unspecified, idle, planning, suggesting, searching, running_worker,
  needs_user_action, done, failed, other, number, allowed_from, can_transition,
}

-- The transitions that the specification lists.
abbrev pub Documented : UiActStatus → UiActStatus → Type 0
Documented idle t = t ≡ planning
Documented planning t = (t ≡ suggesting) ⊎ (t ≡ searching) ⊎ (t ≡ running_worker)
Documented suggesting t = t ≡ needs_user_action
Documented searching t = t ≡ needs_user_action
Documented running_worker t = (t ≡ done) ⊎ (t ≡ needs_user_action) ⊎ (t ≡ failed)
Documented needs_user_action t = t ≡ planning
Documented _ t = ⊥

-- What the code adds to it: the start state is entered from `unspecified`, planning may ask the
-- user, a step under way may fail, and an ended step is planned again.
abbrev pub Added : UiActStatus → UiActStatus → Type 0
Added unspecified t = (t ≡ idle) ⊎ (t ≡ planning)
Added planning t = (t ≡ needs_user_action) ⊎ (t ≡ failed)
Added suggesting t = t ≡ failed
Added searching t = t ≡ failed
Added needs_user_action t = t ≡ failed
Added done t = t ≡ planning
Added failed t = t ≡ planning
Added _ t = ⊥

pub number-injective : (s t : UiActStatus) → number s ≡ number t → s ≡ t
unfolding number
number-injective unspecified t h = ground arith
number-injective s t h = ground arith

allowed_from_iff : (s t : UiActStatus) → (allowed_from s t ≡ true) ↔ (Documented s t ⊎ Added s t)
unfolding allowed_from
allowed_from_iff unspecified t =
    ground (arith, number-injective t idle, number-injective t planning)
allowed_from_iff idle t = ground (arith, number-injective t planning)
allowed_from_iff planning t = ground (
  arith,
  number-injective t suggesting,
  number-injective t searching,
  number-injective t running_worker,
  number-injective t needs_user_action,
  number-injective t failed,
)
allowed_from_iff running_worker t = ground (
  arith,
  number-injective t done,
  number-injective t needs_user_action,
  number-injective t failed,
)
allowed_from_iff (other n) t = ground arith
allowed_from_iff s t = ground (
  arith,
  number-injective t planning,
  number-injective t needs_user_action,
  number-injective t failed,
)

-- A transition is allowed exactly when it changes nothing, is one of the transitions that the
-- specification lists, or is one of those that the code adds.
pub can_transition_iff :
    (s t : UiActStatus) → (can_transition s t ≡ true) ↔ ((s ≡ t) ⊎ (Documented s t ⊎ Added s t))
unfolding can_transition
can_transition_iff s t = ground (arith, number-injective s t, allowed_from_iff s t)

-- A worker must have run: `done` is entered from `running_worker` alone.
pub done-running_worker :
    (s : UiActStatus) → can_transition s done ≡ true → (s ≡ done) ⊎ (s ≡ running_worker)
done-running_worker unspecified h = ground (arith, can_transition_iff unspecified done)
done-running_worker s h = ground (arith, can_transition_iff s done)
