-- ===== src/Interaction/Conversation.antt =====
-- What holds of every session at any time.
use insightify_core.Prelude.{
  ℕ, suc, ◌+◌, ◌≡◌, refl, sym, subst, Bool, true, false, ◌&&◌, List, [], ◌∷◌, ◌++◌, is_empty,
  length, Bool-cases, List-cases, inl, inr, arith,
}
use insightify_core.Prelude.Text.{Text, text_eq, trim_space, trim_space_idem}
use insightify_core.Interaction.{
  SessionState, ConversationMessage, new_session, name_session, notify, append_message, send_locked,
  publish_locked, close_locked, look_locked, drain_locked, take_locked, give_up_locked,
}
use insightify_core.Interaction.Service.{Service, find_session, started}
use insightify_core.Interaction.Requests.{
  Step, sending, publishing, closing, looking, draining, taking, giving_up, awaiting, Request,
  key_of, is_complete, react, serve, serve_all, find_session-serve,
}

abbrev pub IsNumbered : ℕ → List ConversationMessage → Type 0
IsNumbered n [] = Unit
IsNumbered n (m ∷ ms) = (m.seq ≡ n) × IsNumbered (suc n) ms

-- A text without spaces around it, and not blank.
abbrev pub IsTrimmed : Text → Type 0
IsTrimmed t = (trim_space t ≡ t) × (is_empty t ≡ false)

abbrev pub AllTrimmed : List Text → Type 0
AllTrimmed [] = Unit
AllTrimmed (t ∷ ts) = IsTrimmed t × AllTrimmed ts

-- The messages are numbered from 1 on, no queued input is blank, and a closed session waits for nothing.
pub record IsOrderly (st : SessionState) : Type 0 where
  pub numbered : IsNumbered 1 st.conversation
  pub trimmed : AllTrimmed st.input_queue
  pub idle : st.closed ≡ true → st.waiting ≡ false

snoc-IsNumbered :
    (n : ℕ) (ms : List ConversationMessage) (m : ConversationMessage)
    → IsNumbered n ms
    → m.seq ≡ n + length ms
    → IsNumbered n (ms ++ (m ∷ []))
snoc-IsNumbered n [] m h e = (omega arith, tt)
snoc-IsNumbered n (x ∷ ms) m h e = (h.0, snoc-IsNumbered (suc n) ms m h.1 (omega arith))

snoc-AllTrimmed :
    (ts : List Text) (t : Text) → AllTrimmed ts → IsTrimmed t → AllTrimmed (ts ++ (t ∷ []))
snoc-AllTrimmed [] t h e = (e, tt)
snoc-AllTrimmed (x ∷ ts) t h e = (h.0, snoc-AllTrimmed ts t h.1 e)

pub take_locked-IsOrderly :
    (fresh : Text) (now : ℕ) (st : SessionState)
    → IsOrderly st
    → IsOrderly (take_locked fresh now st).1
unfolding take_locked name_session notify
take_locked-IsOrderly fresh now st h = elim (List-cases st.input_queue) [
  | inl e ↦
      simp (e, take_locked)
        (elim (Bool-cases st.closed) [
          | inl c ↦ rw c (record { numbered = h.numbered; trimmed = tt; idle = λ _. refl })
          | inr c ↦ rw c (record { numbered = h.numbered; trimmed = tt; idle = λ o. cc })
        ])
  | inr (x, r, e) ↦
      simp (e, take_locked)
        (record {
          numbered = h.numbered;
          trimmed = (subst AllTrimmed e h.trimmed).1;
          idle = λ _. refl;
        })
]

-- A closed session refuses an input and stays as it is.
pub send_locked-closed :
    (r : Request) (input id : Text) (st : SessionState)
    → st.closed ≡ true
    → send_locked input id r.fresh r.now st ≡ (false, st)
unfolding send_locked
send_locked-closed r input id st c = ground arith

pub react-IsOrderly :
    (r : Request) (t : Step) (st : SessionState) → IsOrderly st → IsOrderly (react r t st)
unfolding react send_locked publish_locked close_locked look_locked drain_locked give_up_locked
    name_session notify append_message
react-IsOrderly r (sending input id) st h = elim (Bool-cases (is_empty (trim_space input))) [
  | inl b ↦ rw b h
  | inr b ↦ rw b (elim (Bool-cases st.closed) [
    | inl c ↦
        subst (λ p. IsOrderly p.1)
          (sym (send_locked-closed r (trim_space input) (trim_space id) st c)) h
    | inr c ↦ rw c (record {
      numbered = snoc-IsNumbered 1 st.conversation _ h.numbered (omega arith);
      trimmed =
          snoc-AllTrimmed st.input_queue (trim_space input) h.trimmed (trim_space_idem input, b);
      idle = λ _. refl;
    })
  ])
]
react-IsOrderly r (publishing message id) st h = elim (Bool-cases (is_empty (trim_space message))) [
  | inl b ↦ rw b h
  | inr b ↦ rw b (record {
    numbered = snoc-IsNumbered 1 st.conversation _ h.numbered (omega arith);
    trimmed = h.trimmed;
    idle = h.idle;
  })
]
react-IsOrderly r (closing id) st h = record {
  numbered = h.numbered;
  trimmed = h.trimmed;
  idle = λ _. refl;
}
react-IsOrderly r looking st h = record {
  numbered = h.numbered;
  trimmed = h.trimmed;
  idle = h.idle;
}
react-IsOrderly r draining st h = record {
  numbered = h.numbered;
  trimmed = h.trimmed;
  idle = h.idle;
}
react-IsOrderly r taking st h = take_locked-IsOrderly r.fresh r.now st h
react-IsOrderly r giving_up st h = record {
  numbered = h.numbered;
  trimmed = h.trimmed;
  idle = λ _. refl;
}
react-IsOrderly r (awaiting timeout) st h = record {
  numbered = h.numbered;
  trimmed = h.trimmed;
  idle = h.idle;
}

pub serve-IsOrderly :
    (r : Request) (s : Service) (k : Text)
    → IsOrderly (find_session k s.state)
    → IsOrderly (find_session k (serve r s).state)
serve-IsOrderly r s k h =
    rw (find_session-serve r s k) (elim (Bool-cases (is_complete r && text_eq k (key_of r))) [
      | inl e ↦ rw e (react-IsOrderly r r.step (find_session k s.state) h)
      | inr e ↦ rw e h
    ])

served_all-IsOrderly :
    (rs : List Request) (s : Service) (k : Text)
    → IsOrderly (find_session k s.state)
    → IsOrderly (find_session k (serve_all rs s).state)
unfolding serve_all
served_all-IsOrderly [] s k h = h
served_all-IsOrderly (r ∷ rs) s k h =
    served_all-IsOrderly rs (serve r s) k (serve-IsOrderly r s k h)

-- In a service that has served any steps in any order from its start, in every session the messages of
-- the conversation are numbered 1, 2, 3 and so on, no queued input is blank, and a closed session does
-- not wait.
pub serve_all-IsOrderly :
    (artifact : Bool) (path : Text) (ui_sync : Bool) (rs : List Request) (k : Text)
    → IsOrderly (find_session k (serve_all rs (started artifact path ui_sync)).state)
unfolding started find_session new_session
serve_all-IsOrderly artifact path ui_sync rs k =
    served_all-IsOrderly rs (started artifact path ui_sync) k
      (record { numbered = tt; trimmed = tt; idle = λ _. refl })
