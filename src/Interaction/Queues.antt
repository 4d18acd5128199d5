-- ===== src/Interaction/Queues.antt =====
-- The inputs of a session: each one accepted is handed out once, in the order in which they came.
use insightify_core.Prelude.{
  ◌≡◌, refl, sym, ◌∙◌, ap, subst, Bool, true, ◌&&◌, ◌||◌, List, [], ◌∷◌, ◌++◌, is_empty,
  if◌then◌else◌, Bool-cases, List-cases, append_assoc, append_nil, inl, inr, arith,
}
use insightify_core.Prelude.Text.{Text, text_eq, text_eq_iff, trim_space}
use insightify_core.Interaction.{
  SessionState, ConversationMessage, user, new_session, name_session, notify, append_message,
  send_locked, publish_locked, close_locked, look_locked, drain_locked, Taken, got, blank, canceled,
  blocked, take_locked, give_up_locked,
}
use insightify_core.Interaction.Service.{
  Service, Result, ok, failed, find_session, started, wait_for_input_round,
}
use insightify_core.Interaction.Requests.{
  Step, sending, publishing, closing, looking, draining, taking, giving_up, awaiting, Request,
  key_of, is_complete, react, serve, serve_all, find_session-serve,
}
use insightify_core.Interaction.Conversation.{
  IsOrderly, IsTrimmed, AllTrimmed, serve-IsOrderly, serve_all-IsOrderly, send_locked-closed,
}

-- The inputs that were accepted: the user's messages.
unfoldable pub inputs_of : List ConversationMessage → List Text
unfolding text_eq
inputs_of [] = []
inputs_of (m ∷ ms) =
    let rest = inputs_of ms in if text_eq m.role user then m.content ∷ rest else rest

abbrev pub text_of : Taken → List Text
text_of (got input) = input ∷ []
text_of blank = []
text_of canceled = []
text_of (blocked n) = []

abbrev pub text_returned : Result Taken → List Text
text_returned (ok taken effects s) = text_of taken
text_returned (failed e) = []

-- What a step of `WaitForInput` for the session with a key returns.
unfoldable pub returned : Text → Request → Step → Service → List Text
unfolding wait_for_input_round
returned k r taking s =
    if text_eq k (key_of r)
    then text_returned (wait_for_input_round r.run_id r.node_id r.fresh r.now s)
    else []
returned k r t s = []

-- What all of them return.
unfoldable pub all_returned : Text → List Request → Service → List Text
unfolding returned serve
all_returned k [] s = []
all_returned k (r ∷ rs) s = returned k r r.step s ++ all_returned k rs (serve r s)

inputs_of-append :
    (ms ns : List ConversationMessage) → inputs_of (ms ++ ns) ≡ inputs_of ms ++ inputs_of ns
unfolding inputs_of
inputs_of-append [] ns = refl
inputs_of-append (m ∷ ms) ns = ground (arith, inputs_of-append ms ns)

-- What the step takes out of its session.
took : Request → Step → SessionState → List Text
unfolding take_locked
took r taking st = text_of (take_locked r.fresh r.now st).0
took r t st = []

-- `out` has been handed out, the queue has not.
abbrev IsShared : List Text → SessionState → Type 0
IsShared out st = inputs_of st.conversation ≡ out ++ st.input_queue

text_of-trimmed :
    (x : Text)
    → IsTrimmed x
    → text_of (if is_empty (trim_space x) then blank else got (trim_space x)) ≡ x ∷ []
text_of-trimmed x h = rw (h.0, h.1) refl

take_locked-IsShared :
    (r : Request) (st : SessionState) (out : List Text)
    → IsOrderly st
    → IsShared out st
    → IsShared (out ++ text_of (take_locked r.fresh r.now st).0) (take_locked r.fresh r.now st).1
unfolding take_locked name_session notify
take_locked-IsShared r st out h e = elim (List-cases st.input_queue) [
  | inl q ↦
      let none_left : IsShared (out ++ []) (record st { input_queue = [] }) =
        e ∙ ap (λ l. out ++ l) q ∙ sym (append_nil (out ++ [])) in
      simp (q, take_locked)
        (elim (Bool-cases st.closed) [ inl c ↦ rw c none_left | inr c ↦ rw c none_left ])
  | inr (x, rest, q) ↦
      let trimmed : IsTrimmed x = (subst AllTrimmed q h.trimmed).0 in
      simp (q, take_locked)
        (e
          ∙ ap (λ l. out ++ l) q
          ∙ sym (append_assoc out (x ∷ []) rest)
          ∙ ap (λ l. (out ++ l) ++ rest) (sym (text_of-trimmed x trimmed)))
]

react-IsShared :
    (r : Request) (t : Step) (st : SessionState) (out : List Text)
    → IsOrderly st
    → IsShared out st
    → IsShared (out ++ took r t st) (react r t st)
unfolding inputs_of react took send_locked publish_locked close_locked look_locked drain_locked
    give_up_locked name_session notify append_message
react-IsShared r (sending input id) st out h e = elim (Bool-cases (is_empty (trim_space input))) [
  | inl b ↦ rw (b, append_nil out) e
  | inr b ↦
      rw (b, append_nil out)
        (elim (Bool-cases st.closed) [
          | inl c ↦
              subst (λ p. IsShared out p.1)
                (sym (send_locked-closed r (trim_space input) (trim_space id) st c)) e
          | inr c ↦ rw c (
              inputs_of-append st.conversation _
              ∙ ap (λ l. l ++ (trim_space input ∷ [])) e
              ∙ append_assoc out st.input_queue (trim_space input ∷ []))
        ])
]
react-IsShared r (publishing message id) st out h e =
    elim (Bool-cases (is_empty (trim_space message))) [
      | inl b ↦ rw (b, append_nil out) e
      | inr b ↦
          rw (b, append_nil out)
            (inputs_of-append st.conversation _ ∙ append_nil (inputs_of st.conversation) ∙ e)
    ]
react-IsShared r (closing id) st out h e = rw (append_nil out) e
react-IsShared r looking st out h e = rw (append_nil out) e
react-IsShared r draining st out h e = rw (append_nil out) e
react-IsShared r taking st out h e = take_locked-IsShared r st out h e
react-IsShared r giving_up st out h e = rw (append_nil out) e
react-IsShared r (awaiting timeout) st out h e = rw (append_nil out) e

taken_here :
    (r : Request) (s : Service)
    → text_returned (wait_for_input_round r.run_id r.node_id r.fresh r.now s)
      ≡ (if is_complete r && true then took r taking (find_session (key_of r) s.state) else [])
unfolding took wait_for_input_round
taken_here r s =
    elim (Bool-cases (is_empty (trim_space r.run_id) || is_empty (trim_space r.node_id))) [
      | inl e ↦ rw e refl
      | inr e ↦ rw e refl
    ]

returned-took :
    (k : Text) (r : Request) (t : Step) (s : Service)
    → returned k r t s
      ≡ (if is_complete r && text_eq k (key_of r) then took r t (find_session k s.state) else [])
unfolding returned took
returned-took k r taking s = elim (Bool-cases (text_eq k (key_of r))) [
  | inl e ↦
      let same : k ≡ key_of r = (text_eq_iff k (key_of r)).0 e in
      subst
        (λ j.
          (if text_eq k (key_of r)
            then text_returned (wait_for_input_round r.run_id r.node_id r.fresh r.now s)
            else [])
          ≡ (if is_complete r && text_eq k (key_of r)
              then took r taking (find_session j s.state)
              else []))
        (sym same) (rw e (taken_here r s))
  | inr e ↦ rw e (ground arith)
]
returned-took k r t s = unfold returned in unfold took in ground arith

served-IsShared :
    (k : Text) (r : Request) (s : Service) (out : List Text)
    → IsOrderly (find_session k s.state)
    → IsShared out (find_session k s.state)
    → IsShared (out ++ returned k r r.step s) (find_session k (serve r s).state)
served-IsShared k r s out h e =
    rw (returned-took k r r.step s, find_session-serve r s k)
      (elim (Bool-cases (is_complete r && text_eq k (key_of r))) [
        | inl b ↦ rw b (react-IsShared r r.step (find_session k s.state) out h e)
        | inr b ↦ rw (b, append_nil out) e
      ])

served_all-IsShared :
    (k : Text) (rs : List Request) (s : Service) (out : List Text)
    → IsOrderly (find_session k s.state)
    → IsShared out (find_session k s.state)
    → IsShared (out ++ all_returned k rs s) (find_session k (serve_all rs s).state)
unfolding all_returned serve_all
served_all-IsShared k [] s out h e = rw (append_nil out) e
served_all-IsShared k (r ∷ rs) s out h e =
    rw (sym (append_assoc out (returned k r r.step s) (all_returned k rs (serve r s)))) (
      served_all-IsShared k rs (serve r s) (out ++ returned k r r.step s) (serve-IsOrderly r s k h)
        (served-IsShared k r s out h e))

-- In a service that has served any steps in any order from its start, the inputs that a session has
-- accepted are, in order, those that `WaitForInput` has returned and those that are still queued: none is
-- lost, none comes twice, none overtakes another.
pub serve_all-inputs :
    (artifact : Bool) (path : Text) (ui_sync : Bool) (rs : List Request) (k : Text)
    → inputs_of (find_session k (serve_all rs (started artifact path ui_sync)).state).conversation
      ≡ all_returned k rs (started artifact path ui_sync)
        ++ (find_session k (serve_all rs (started artifact path ui_sync)).state).input_queue
unfolding started find_session new_session inputs_of serve_all
serve_all-inputs artifact path ui_sync rs k =
    served_all-IsShared k rs (started artifact path ui_sync) []
      (serve_all-IsOrderly artifact path ui_sync [] k) refl
