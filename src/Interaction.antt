-- ===== src/Interaction.antt =====
-- The sessions of internal/gateway/service/userinteraction: model.go, service.go, service_messages.go
-- and persistence.go. What a method does while it holds the lock is one step on a session; a method
-- that waits is a sequence of such steps, one for each time around its loop. Closing and replacing the
-- channel `changed` is a number that grows: a waiter that holds an old number is awake.
pub mod Service
pub mod Requests
pub mod Conversation
pub mod Queues
pub mod Waking
pub mod Events
pub mod Keys
use insightify_core.Prelude.{
  ℕ, zero, suc, ◌+◌, Bool, true, false, not, ◌&&◌, List, [], ◌∷◌, ◌++◌, length, is_empty,
  if◌then◌else◌,
}
use insightify_core.Prelude.Text.{Text, codes, trim_space}

pub record OutputMessage : Type 0 where
  pub interaction_id : Text
  pub message : Text

pub record ConversationMessage : Type 0 where
  pub seq : ℕ
  pub role : Text
  pub content : Text
  pub interaction_id : Text
  pub created_at : ℕ

pub record SessionState : Type 0 where
  pub interaction_id : Text
  pub closed : Bool
  pub waiting : Bool
  pub input_queue : List Text
  pub output_queue : List OutputMessage
  pub conversation : List ConversationMessage
  pub changed : ℕ
  pub updated_at : ℕ

pub record WaitResponse : Type 0 where
  pub waiting : Bool
  pub interaction_id : Text
  pub closed : Bool

abbrev pub user : Text
user = codes "user"

abbrev pub assistant : Text
assistant = codes "assistant"

unfoldable pub new_session : SessionState
new_session = record {
  interaction_id = [];
  closed = false;
  waiting = false;
  input_queue = [];
  output_queue = [];
  conversation = [];
  changed = 0;
  updated_at = 0;
}

unfoldable pub wait_response : SessionState → WaitResponse
wait_response st = record {
  waiting = st.waiting && not st.closed;
  interaction_id = st.interaction_id;
  closed = st.closed;
}

unfoldable pub notify : SessionState → SessionState
notify st = record st { changed = suc st.changed }

-- The id that a request names, if it names one. A session without an id is given `fresh`, what
-- `newInteractionID` returns.
unfoldable pub named_id : Text → Text → Text → Text
named_id requested fresh id =
    if is_empty requested then (if is_empty id then fresh else id) else requested

unfoldable pub name_session : Text → Text → SessionState → SessionState
unfolding named_id
name_session requested fresh st = record st {
  interaction_id = named_id requested fresh st.interaction_id;
}

-- A new message at the end of the conversation.
unfoldable pub append_message : Text → Text → ℕ → SessionState → SessionState
append_message role content now st = record st {
  conversation =
      st.conversation
      ++ (record {
        seq = length st.conversation + 1;
        role = role;
        content = content;
        interaction_id = st.interaction_id;
        created_at = now;
      }
          ∷ []);
}

-- `Send`, with a request that is not blank. A closed session accepts nothing.
unfoldable pub send_locked : Text → Text → Text → ℕ → SessionState → Bool × SessionState
unfolding name_session append_message notify
send_locked input requested fresh now st =
    if st.closed
    then (false, st)
    else let named = name_session requested fresh st in
      let said =
        append_message user input now
          (record named { input_queue = named.input_queue ++ (input ∷ []) }) in
      (true, notify (record said { waiting = false; updated_at = now }))

unfoldable pub publish_locked : Text → Text → Text → ℕ → SessionState → SessionState
unfolding name_session append_message notify
publish_locked message requested fresh now st =
    let named = name_session requested fresh st in
    let queued : OutputMessage = record {
      interaction_id = named.interaction_id;
      message = message;
    } in
    let said =
      append_message assistant message now
        (record named { output_queue = named.output_queue ++ (queued ∷ []) }) in
    notify (record said { updated_at = now })

unfoldable pub close_locked : Text → Text → ℕ → SessionState → SessionState
unfolding name_session notify
close_locked requested fresh now st =
    let named = name_session requested fresh st in
    notify (record named { closed = true; waiting = false; updated_at = now })

-- `Snapshot`, and each time around the loop of `Wait`.
unfoldable pub look_locked : Text → ℕ → SessionState → WaitResponse × SessionState
unfolding name_session wait_response
look_locked fresh now st =
    let named = name_session [] fresh st in
    let seen = record named { updated_at = now } in (wait_response seen, seen)

-- Once around the loop of `Subscribe`: the state, and the messages that are sent on.
unfoldable pub drain_locked :
    Text → ℕ → SessionState → (WaitResponse × List OutputMessage) × SessionState
unfolding name_session wait_response
drain_locked fresh now st =
    let named = name_session [] fresh st in
    let seen = record named { updated_at = now } in
    ((wait_response seen, seen.output_queue), record seen { output_queue = [] })

-- Once around the loop of `WaitForInput`. `blank`: an input without text was taken, and the loop goes on
-- at once. `blocked`: it waits for that number to be replaced.
pub data Taken : Type 0 where
  got : Text → Taken
  blank canceled : Taken
  blocked : ℕ → Taken

unfoldable pub take_locked : Text → ℕ → SessionState → Taken × SessionState
unfolding name_session notify trim_space
take_locked fresh now st =
    let named = name_session [] fresh st in
    let ready = record named { waiting = true; updated_at = now } in
    elim ready.input_queue [
      | first ∷ rest ↦
          let input = trim_space first in
          (
            if is_empty input then blank else got input,
            notify (record ready { input_queue = rest; waiting = false }),
          )
      | [] ↦
          if ready.closed
          then (canceled, notify (record ready { waiting = false }))
          else (blocked (suc ready.changed), notify ready)
    ]

-- `WaitForInput` when its context is done.
unfoldable pub give_up_locked : ℕ → SessionState → SessionState
unfolding notify
give_up_locked now st = notify (record st { waiting = false; updated_at = now })
