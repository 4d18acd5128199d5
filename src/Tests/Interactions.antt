-- ===== src/Tests/Interactions.antt =====
-- Sessions of user interaction on a few steps.
use insightify_core.Prelude.{ℕ, ◌≤◌, ◌≡◌, ◌⊎◌, refl, true, List, [], ◌∷◌, ◌++◌, length, arith}
use insightify_core.Prelude.Text.{Text, codes, trim_space, text_eq}
use insightify_core.Interaction.{
  send_locked, publish_locked, close_locked, look_locked, drain_locked, take_locked, give_up_locked,
  name_session, notify, append_message, new_session,
}
use insightify_core.Interaction.Service.{
  Service, started, find_session, put_session, session_key, session_of, with_session, send,
  publish_output, close, snapshot, subscribe_round, wait_for_input_round, give_up_waiting,
  wait_round, persist, synced, effects_of_taken, push_event,
}
use insightify_core.Interaction.Requests.{
  Step, sending, closing, taking, Request, serve_step, serve, serve_all,
}
use insightify_core.Interaction.Conversation.{IsOrderly, serve_all-IsOrderly}
use insightify_core.Interaction.Queues.{inputs_of, returned, all_returned, serve_all-inputs}
use insightify_core.Interaction.Waking.{IsStep, serve_all-IsStep}
use insightify_core.Interaction.Events.{push_event_lem}
use insightify_core.Interaction.Keys.{session_key-injective}

abbrev request : Step → Request
request t = record {
  run_id = codes "run ";
  node_id = codes "node";
  fresh = codes "interaction-1";
  now = 7;
  step = t;
}

abbrev start : Service
start = started true (codes " ") true

abbrev key : Text
key = codes "run|node"

-- Two inputs, one of them returned; the session is closed, and refuses a third.
abbrev requests : List Request
requests =
    request (sending (codes " hello ") [])
    ∷ request (sending (codes "again") [])
    ∷ request taking
    ∷ request (closing [])
    ∷ request (sending (codes "late") [])
    ∷ []

program : Unit {0}
unfolding send publish_output close snapshot subscribe_round wait_for_input_round give_up_waiting
    wait_round persist synced effects_of_taken session_of with_session find_session put_session
    session_key started new_session send_locked publish_locked close_locked look_locked drain_locked
    take_locked give_up_locked name_session notify append_message serve serve_all serve_step
    all_returned returned inputs_of trim_space text_eq push_event
program = tt

returns_first : all_returned key requests start ≡ codes "hello" ∷ []
unfolding program
returns_first = refl

keeps_second : (find_session key (serve_all requests start).state).input_queue ≡ codes "again" ∷ []
unfolding program
keeps_second = refl

drops_oldest : push_event {E = ℕ} 2 5 (3 ∷ 4 ∷ []) ≡ 4 ∷ 5 ∷ []
unfolding program
drops_oldest = refl

serve_all-IsOrderly_example : IsOrderly (find_session key (serve_all requests start).state)
serve_all-IsOrderly_example = serve_all-IsOrderly true (codes " ") true requests key

serve_all-inputs_example :
    inputs_of (find_session key (serve_all requests start).state).conversation
    ≡ all_returned key requests start
      ++ (find_session key (serve_all requests start).state).input_queue
serve_all-inputs_example = serve_all-inputs true (codes " ") true requests key

serve_all-IsStep_example :
    IsStep (find_session key start.state) (find_session key (serve_all requests start).state)
serve_all-IsStep_example = serve_all-IsStep requests start key

push_event_example :
    (kept : List ℕ) × (push_event {E = ℕ} 2 5 (3 ∷ 4 ∷ []) ≡ kept ++ (5 ∷ []))
    × (length {A = ℕ} (push_event {E = ℕ} 2 5 (3 ∷ 4 ∷ [])) ≤ 2)
    × ((kept ≡ 3 ∷ 4 ∷ [])
        ⊎ ((oldest : ℕ) × (◌≡◌ {A = List ℕ} (3 ∷ 4 ∷ []) (oldest ∷ kept))
            × (length {A = ℕ} (3 ∷ 4 ∷ []) ≡ 2)))
push_event_example = push_event_lem 2 5 (3 ∷ 4 ∷ []) (omega arith) (omega arith)

session_key-injective_example : (codes "run" ≡ codes "run") × (codes "a|b" ≡ codes "a|b")
session_key-injective_example =
    session_key-injective (codes "run") (codes "run") (codes "a|b") (codes "a|b") refl refl refl
