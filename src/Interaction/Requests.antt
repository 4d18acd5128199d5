-- ===== src/Interaction/Requests.antt =====
-- Sequences of steps of all sessions, in whatever order the callers get the lock, and what they do to
-- one session.
use insightify_core.Prelude.{
  ℕ, ◌≡◌, refl, sym, ap, Bool, true, false, not, ◌&&◌, ◌||◌, List, [], ◌∷◌, is_empty, if◌then◌else◌,
  Bool-cases, inl, inr, ◌⊎◌, arith,
}
use insightify_core.Prelude.Text.{Text, text_eq, text_eq_iff, trim_space}
use insightify_core.Interaction.{
  SessionState, send_locked, publish_locked, close_locked, look_locked, drain_locked, take_locked,
  give_up_locked,
}
use insightify_core.Interaction.Service.{
  Service, Result, ok, failed, find_session, put_session, session_key, session_of, with_session,
  send, publish_output, close, snapshot, subscribe_round, wait_for_input_round, give_up_waiting,
  wait_round,
}

-- A step of a method, with the arguments beside the ids: the input or message and the id it names.
pub data Step : Type 0 where
  sending publishing : Text → Text → Step
  closing : Text → Step
  looking draining taking giving_up : Step
  awaiting : ℕ → Step

pub record Request : Type 0 where
  pub run_id : Text
  pub node_id : Text
  pub fresh : Text
  pub now : ℕ
  pub step : Step

abbrev pub after : {A : Type 0} → Service → Result A → Service
after s (ok a effects s') = s'
after s (failed e) = s

abbrev pub key_of : Request → Text
key_of r = session_key (trim_space r.run_id) (trim_space r.node_id)

abbrev pub is_complete : Request → Bool
is_complete r = not (is_empty (trim_space r.run_id) || is_empty (trim_space r.node_id))

module _ (r : Request) where
  open r use {run_id, node_id, fresh, now}

  unfoldable pub serve_step : Step → Service → Service
  unfolding send publish_output close snapshot subscribe_round wait_for_input_round give_up_waiting
      wait_round
  serve_step (sending input id) s = after s (send run_id node_id input id fresh now s)
  serve_step (publishing message id) s =
      after s (publish_output run_id node_id id message fresh now s)
  serve_step (closing id) s = after s (close run_id node_id id fresh now s)
  serve_step looking s = after s (snapshot run_id node_id fresh now s)
  serve_step draining s = after s (subscribe_round run_id node_id fresh now s)
  serve_step taking s = after s (wait_for_input_round run_id node_id fresh now s)
  serve_step giving_up s = after s (give_up_waiting run_id node_id now s)
  serve_step (awaiting timeout) s = after s (wait_round run_id node_id timeout fresh now s)

  -- What the step does to its session.
  unfoldable pub react : Step → SessionState → SessionState
  unfolding send_locked publish_locked close_locked look_locked drain_locked take_locked
      give_up_locked
  react (sending input id) st =
      if is_empty (trim_space input)
      then st
      else (send_locked (trim_space input) (trim_space id) fresh now st).1
  react (publishing message id) st =
      if is_empty (trim_space message)
      then st
      else publish_locked (trim_space message) (trim_space id) fresh now st
  react (closing id) st = close_locked (trim_space id) fresh now st
  react looking st = (look_locked fresh now st).1
  react draining st = (drain_locked fresh now st).1
  react taking st = (take_locked fresh now st).1
  react giving_up st = give_up_locked now st
  react (awaiting timeout) st = (look_locked fresh now st).1

unfoldable pub serve : Request → Service → Service
unfolding serve_step
serve r s = serve_step r r.step s

unfoldable pub serve_all : List Request → Service → Service
unfolding serve
serve_all [] s = s
serve_all (r ∷ rs) s = serve_all rs (serve r s)

pub find_session-put_session :
    (k j : Text) (st : SessionState) (l : List (Text × SessionState))
    → find_session k (put_session j st l) ≡ (if text_eq k j then st else find_session k l)
unfolding find_session put_session
find_session-put_session k j st [] = ground arith
find_session-put_session k j st ((i, st') ∷ l) =
    ground
      (arith, find_session-put_session k j st l, text_eq_iff k j, text_eq_iff j i, text_eq_iff k i)

module _ (r : Request) (s : Service) (k : Text) where
  find_session-with_session :
      (f : SessionState → SessionState)
      → find_session k
          (with_session
            (trim_space r.run_id)
            (trim_space r.node_id)
            (f (session_of (trim_space r.run_id) (trim_space r.node_id) s))
            s).state
        ≡ (if text_eq k (key_of r) then f (find_session k s.state) else find_session k s.state)
  unfolding with_session session_of
  find_session-with_session f =
      rw (find_session-put_session k (key_of r) (f (find_session (key_of r) s.state)) s.state)
        (elim (Bool-cases (text_eq k (key_of r))) [
          | inl e ↦
              rw e (ap (λ j. f (find_session j s.state)) (sym ((text_eq_iff k (key_of r)).0 e)))
          | inr e ↦ rw e refl
        ])

  complete_or_not :
      ((is_empty (trim_space r.run_id) || is_empty (trim_space r.node_id)) ≡ true)
      ⊎ ((is_empty (trim_space r.run_id) || is_empty (trim_space r.node_id)) ≡ false)
  complete_or_not = Bool-cases _

  Served : Step → Type 0
  Served t = find_session k (serve_step r t s).state ≡ (
      if is_complete r && text_eq k (key_of r)
      then react r t (find_session k s.state)
      else find_session k s.state)

  find_session-serve_step : (t : Step) → Served t
  unfolding Served serve_step react
  find_session-serve_step (closing id) = elim complete_or_not [
    | inl e ↦ rw e refl
    | inr e ↦ rw e (find_session-with_session (react r (closing id)))
  ]
  find_session-serve_step looking = elim complete_or_not [
    | inl e ↦ rw e refl
    | inr e ↦ rw e (find_session-with_session (react r looking))
  ]
  find_session-serve_step draining = elim complete_or_not [
    | inl e ↦ rw e refl
    | inr e ↦ rw e (find_session-with_session (react r draining))
  ]
  find_session-serve_step taking = elim complete_or_not [
    | inl e ↦ rw e refl
    | inr e ↦ rw e (find_session-with_session (react r taking))
  ]
  find_session-serve_step giving_up = elim complete_or_not [
    | inl e ↦ rw e refl
    | inr e ↦ rw e (find_session-with_session (react r giving_up))
  ]
  find_session-serve_step (awaiting timeout) = elim complete_or_not [
    | inl e ↦ rw e refl
    | inr e ↦ rw e (find_session-with_session (react r (awaiting timeout)))
  ]
  find_session-serve_step (sending text id) = elim complete_or_not [
    | inl e ↦ rw e (ground arith)
    | inr e ↦ elim (Bool-cases (is_empty (trim_space text))) [
      | inl b ↦ rw (e, b) (ground arith)
      | inr b ↦
          rw (e, b)
            (find_session-with_session
              (λ st. (send_locked (trim_space text) (trim_space id) r.fresh r.now st).1))
    ]
  ]
  find_session-serve_step (publishing text id) = elim complete_or_not [
    | inl e ↦ rw e (ground arith)
    | inr e ↦ elim (Bool-cases (is_empty (trim_space text))) [
      | inl b ↦ rw (e, b) (ground arith)
      | inr b ↦
          rw (e, b)
            (find_session-with_session
              (publish_locked (trim_space text) (trim_space id) r.fresh r.now))
    ]
  ]

-- A step changes the session of its key, by what it does to it, and no other.
pub find_session-serve :
    (r : Request) (s : Service) (k : Text)
    → find_session k (serve r s).state ≡ (
        if is_complete r && text_eq k (key_of r)
        then react r r.step (find_session k s.state)
        else find_session k s.state)
unfolding serve Served
find_session-serve r s k = find_session-serve_step r s k r.step
