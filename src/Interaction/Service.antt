-- ===== src/Interaction/Service.antt =====
-- The methods of `Service`: the checks of the request, the session found or created by its key, and what
-- is called after the lock is released. The artifact store and the synchronisation of the document are
-- interfaces of other packages: a call of them is an effect in the result.
use insightify_core.Prelude.{
  ℕ, Bool, true, false, ◌||◌, List, [], ◌∷◌, ◌++◌, is_empty, length, ltb, ◌==◌, if◌then◌else◌,
}
use insightify_core.Prelude.Text.{Text, codes, text_eq, trim_space}
use insightify_core.Interaction.{
  SessionState, ConversationMessage, OutputMessage, WaitResponse, new_session, send_locked,
  publish_locked, close_locked, look_locked, drain_locked, Taken, got, blank, canceled, blocked,
  take_locked, give_up_locked,
}

pub data Effect : Type 0 where
  put_conversation : Text → Text → List ConversationMessage → Effect
  on_user_accepted on_assistant_output : Text → Text → Text → Text → Effect
  on_waiting : Text → Text → Text → Bool → Effect

-- `artifact` and `ui_sync` say whether these pointers are set.
pub record Service : Type 0 where
  pub state : List (Text × SessionState)
  pub artifact : Bool
  pub conversation_artifact_path : Text
  pub ui_sync : Bool

pub data Error : Type 0 where
  ids_required input_required message_required : Error

pub data Result (A : Type 0) : Type 0 where
  ok : A → List Effect → Service → Result A
  failed : Error → Result A

-- `interaction/conversation_history.json`.
abbrev pub default_conversation_artifact_path : Text
default_conversation_artifact_path = codes "interaction/conversation_history.json"

unfoldable pub new_service : Bool → Text → Service
unfolding trim_space
new_service artifact path =
    let trimmed = trim_space path in
    record {
      state = [];
      artifact = artifact;
      conversation_artifact_path =
          if is_empty trimmed then default_conversation_artifact_path else trimmed;
      ui_sync = false;
    }

unfoldable pub set_ui_sync : Bool → Service → Service
set_ui_sync ui_sync s = record s { ui_sync = ui_sync }

-- A service as the gateway sets it up.
unfoldable pub started : Bool → Text → Bool → Service
unfolding new_service set_ui_sync
started artifact path ui_sync = set_ui_sync ui_sync (new_service artifact path)

-- The keys join the two ids with a bar.
unfoldable pub session_key : Text → Text → Text
session_key run_id node_id = run_id ++ (codes "|" ++ node_id)

-- The session of a key, or a new one.
unfoldable pub find_session : Text → List (Text × SessionState) → SessionState
unfolding text_eq
find_session key [] = new_session
find_session key ((k, st) ∷ rest) = if text_eq key k then st else find_session key rest

-- The map after the session of a key has changed, which may be new.
unfoldable pub put_session :
    Text → SessionState → List (Text × SessionState) → List (Text × SessionState)
unfolding text_eq
put_session key st [] = (key, st) ∷ []
put_session key st ((k, st') ∷ rest) =
    let others = put_session key st rest in
    if text_eq key k then (k, st) ∷ rest else (k, st') ∷ others

unfoldable pub session_of : Text → Text → Service → SessionState
unfolding find_session session_key
session_of run_id node_id s = find_session (session_key run_id node_id) s.state

unfoldable pub with_session : Text → Text → SessionState → Service → Service
unfolding put_session session_key
with_session run_id node_id st s = record s {
  state = put_session (session_key run_id node_id) st s.state;
}

unfoldable pub artifact_path_for_node : Text → Service → Text
unfolding trim_space
artifact_path_for_node node_id s =
    let base = trim_space s.conversation_artifact_path in
    trim_space node_id
    ++ (codes "/" ++ (if is_empty base then default_conversation_artifact_path else base))

-- `persistConversation` of the snapshot. Its text is never empty, so the conversation stands for it.
unfoldable pub persist : Text → Text → SessionState → Service → List Effect
unfolding artifact_path_for_node
persist run_id node_id st s =
    if s.artifact
    then put_conversation run_id (artifact_path_for_node node_id s) st.conversation ∷ []
    else []

unfoldable pub synced : Effect → Service → List Effect
synced e s = if s.ui_sync then e ∷ [] else []

-- What `Wait` has after one time around its loop.
pub data Waited : Type 0 where
  answered : WaitResponse → Waited
  pending : Text → ℕ → Waited

module _ (raw_run_id raw_node_id : Text) where
  abbrev run_id : Text
  run_id = trim_space raw_run_id

  abbrev node_id : Text
  node_id = trim_space raw_node_id

  -- The check that every method starts with.
  unfoldable pub with_ids : {A : Type 0} → Result A → Result A
  unfolding trim_space
  with_ids next = if is_empty run_id || is_empty node_id then failed ids_required else next

  -- The answer: whether the input was accepted, and the session's id.
  unfoldable pub send : Text → Text → Text → ℕ → Service → Result (Bool × Text)
  unfolding with_ids session_of with_session persist synced send_locked trim_space
  send raw_input requested fresh now s =
      let input = trim_space raw_input in
      with_ids (
        if is_empty input
        then failed input_required
        else let (accepted, st) =
            send_locked input (trim_space requested) fresh now (session_of run_id node_id s) in
          let effects =
            if accepted
            then persist run_id node_id st s
              ++ synced (on_user_accepted run_id node_id st.interaction_id input) s
            else [] in
          ok (accepted, st.interaction_id) effects (with_session run_id node_id st s))

  unfoldable pub publish_output : Text → Text → Text → ℕ → Service → Result (Unit {0})
  unfolding with_ids session_of with_session persist synced publish_locked trim_space
  publish_output requested raw_message fresh now s =
      let message = trim_space raw_message in
      with_ids (
        if is_empty message
        then failed message_required
        else let st =
            publish_locked message (trim_space requested) fresh now (session_of run_id node_id s) in
          ok tt
            (persist run_id node_id st s
              ++ synced (on_assistant_output run_id node_id st.interaction_id message) s)
            (with_session run_id node_id st s))

  unfoldable pub close : Text → Text → ℕ → Service → Result (Unit {0})
  unfolding with_ids session_of with_session synced close_locked trim_space
  close requested fresh now s = with_ids (
      let st = close_locked (trim_space requested) fresh now (session_of run_id node_id s) in
      ok tt (synced (on_waiting run_id node_id st.interaction_id false) s)
        (with_session run_id node_id st s))

  unfoldable pub snapshot : Text → ℕ → Service → Result WaitResponse
  unfolding with_ids session_of with_session look_locked
  snapshot fresh now s = with_ids (
      let (response, st) = look_locked fresh now (session_of run_id node_id s) in
      ok response [] (with_session run_id node_id st s))

  -- Once around the loop of `Subscribe`.
  unfoldable pub subscribe_round : Text → ℕ → Service → Result (WaitResponse × List OutputMessage)
  unfolding with_ids session_of with_session drain_locked
  subscribe_round fresh now s = with_ids (
      let (seen, st) = drain_locked fresh now (session_of run_id node_id s) in
      ok seen [] (with_session run_id node_id st s))

  unfoldable pub effects_of_taken : Taken → Text → Service → List Effect
  unfolding synced
  effects_of_taken (blocked n) id s = synced (on_waiting run_id node_id id true) s
  effects_of_taken (got input) id s =
      synced (on_waiting run_id node_id id true) s ++ synced (on_waiting run_id node_id id false) s
  effects_of_taken blank id s =
      synced (on_waiting run_id node_id id true) s ++ synced (on_waiting run_id node_id id false) s
  effects_of_taken canceled id s =
      synced (on_waiting run_id node_id id true) s ++ synced (on_waiting run_id node_id id false) s

  -- Once around the loop of `WaitForInput`.
  unfoldable pub wait_for_input_round : Text → ℕ → Service → Result Taken
  unfolding with_ids session_of with_session effects_of_taken take_locked
  wait_for_input_round fresh now s = with_ids (
      let (taken, st) = take_locked fresh now (session_of run_id node_id s) in
      ok taken (effects_of_taken taken st.interaction_id s) (with_session run_id node_id st s))

  -- The branch of `WaitForInput` on a context that is done.
  unfoldable pub give_up_waiting : ℕ → Service → Result (Unit {0})
  unfolding with_ids session_of with_session synced give_up_locked
  give_up_waiting now s = with_ids (
      let st = give_up_locked now (session_of run_id node_id s) in
      ok tt (synced (on_waiting run_id node_id st.interaction_id false) s)
        (with_session run_id node_id st s))

  -- Once around the loop of `Wait`: the answer, or the id and the number it waits on. A timeout that is
  -- not positive is 0.
  unfoldable pub wait_round : ℕ → Text → ℕ → Service → Result Waited
  unfolding with_ids session_of with_session look_locked
  wait_round timeout fresh now s = with_ids (
      let (response, st) = look_locked fresh now (session_of run_id node_id s) in
      let answer =
        if response.waiting || response.closed || timeout == 0
        then answered response
        else pending response.interaction_id st.changed in
      ok answer [] (with_session run_id node_id st s))

-- The answer of `Wait` when its time is up.
unfoldable pub wait_timed_out : Text → WaitResponse
wait_timed_out id = record { waiting = false; interaction_id = id; closed = false }

-- `pushEvent`, on a channel that holds `capacity` events: the oldest makes room.
unfoldable pub push_event : {E : Type 0} → ℕ → E → List E → List E
push_event capacity e out = if ltb (length out) capacity then out ++ (e ∷ []) else elim out [
  | [] ↦ []
  | _ ∷ rest ↦ if ltb (length rest) capacity then rest ++ (e ∷ []) else rest
]
