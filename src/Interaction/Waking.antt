-- ===== src/Interaction/Waking.antt =====
-- What a waiter sleeps on, and closed sessions.
use insightify_core.Prelude.{
  ℕ, suc, ◌≤◌, ◌≡◌, refl, sym, ◌∙◌, ap, subst, true, false, ◌&&◌, List, [], ◌∷◌, ◌++◌, is_empty,
  Bool-cases, List-cases, append_assoc, append_nil, inl, inr, arith,
}
use insightify_core.Prelude.Text.{Text, text_eq, trim_space}
use insightify_core.Interaction.{
  SessionState, OutputMessage, name_session, notify, append_message, send_locked, publish_locked,
  close_locked, look_locked, drain_locked, take_locked, give_up_locked,
}
use insightify_core.Interaction.Service.{Service, find_session}
use insightify_core.Interaction.Requests.{
  Step, sending, publishing, closing, looking, draining, taking, giving_up, awaiting, Request,
  key_of, is_complete, react, serve, serve_all, find_session-serve,
}
use insightify_core.Interaction.Conversation.{send_locked-closed}

-- From `st` to `st'` the number does not fall, and while it stays, so does what `Wait` and `WaitForInput` ask
-- for, and the queue of outputs that `Subscribe` asks for gains nothing: it only loses messages at the front. A
-- closed session stays closed, and its queue of inputs gains nothing.
pub record IsStep (st st' : SessionState) : Type 0 where
  pub grows : st.changed ≤ st'.changed
  pub queue_kept : st'.changed ≡ st.changed → st'.input_queue ≡ st.input_queue
  pub closed_kept : st'.changed ≡ st.changed → st'.closed ≡ st.closed
  pub waiting_kept : st'.changed ≡ st.changed → st'.waiting ≡ st.waiting
  pub outputs_kept :
      st'.changed ≡ st.changed
      → (drained : List OutputMessage) × (st.output_queue ≡ drained ++ st'.output_queue)
  pub stays_closed : st.closed ≡ true → st'.closed ≡ true
  pub refuses : st.closed ≡ true → (taken : List Text) × (st.input_queue ≡ taken ++ st'.input_queue)

IsStep-refl : (st : SessionState) → IsStep st st
IsStep-refl st = record {
  grows = omega arith;
  queue_kept = λ _. refl;
  closed_kept = λ _. refl;
  waiting_kept = λ _. refl;
  outputs_kept = λ _. ([], refl);
  stays_closed = λ c. c;
  refuses = λ c. ([], refl);
}

IsStep-trans : (a b c : SessionState) → IsStep a b → IsStep b c → IsStep a c
IsStep-trans a b c f g = record {
  grows = omega (arith, f.grows, g.grows);
  queue_kept = λ e.
      g.queue_kept (omega (arith, f.grows, g.grows))
      ∙ f.queue_kept (omega (arith, f.grows, g.grows));
  closed_kept = λ e.
      g.closed_kept (omega (arith, f.grows, g.grows))
      ∙ f.closed_kept (omega (arith, f.grows, g.grows));
  waiting_kept = λ e.
      g.waiting_kept (omega (arith, f.grows, g.grows))
      ∙ f.waiting_kept (omega (arith, f.grows, g.grows));
  outputs_kept = λ e.
      let (t, p) = f.outputs_kept (omega (arith, e, f.grows, g.grows)) in
      let (u, q) = g.outputs_kept (omega (arith, e, f.grows, g.grows)) in
      (t ++ u, p ∙ ap (λ l. t ++ l) q ∙ sym (append_assoc t u c.output_queue));
  stays_closed = λ e. g.stays_closed (f.stays_closed e);
  refuses = λ e.
      let (t, p) = f.refuses e in
      let (u, q) = g.refuses (f.stays_closed e) in
      (t ++ u, p ∙ ap (λ l. t ++ l) q ∙ sym (append_assoc t u c.input_queue));
}

-- A step that notifies.
notified-IsStep :
    (st st' : SessionState)
    → st'.changed ≡ suc st.changed
    → (st.closed ≡ true → st'.closed ≡ true)
    → (st.closed ≡ true → (taken : List Text) × (st.input_queue ≡ taken ++ st'.input_queue))
    → IsStep st st'
notified-IsStep st st' e closed kept = record {
  grows = omega (arith, e);
  queue_kept = λ same. absurd (omega (arith, e, same));
  closed_kept = λ same. absurd (omega (arith, e, same));
  waiting_kept = λ same. absurd (omega (arith, e, same));
  outputs_kept = λ same. absurd (omega (arith, e, same));
  stays_closed = closed;
  refuses = kept;
}

-- Every step of `WaitForInput` notifies, and takes at most the first input.
take_locked_lem :
    (fresh : Text) (now : ℕ) (st : SessionState)
    → ((take_locked fresh now st).1.changed ≡ suc st.changed)
      × ((take_locked fresh now st).1.closed ≡ st.closed)
      × ((taken : List Text) × (st.input_queue ≡ taken ++ (take_locked fresh now st).1.input_queue))
unfolding take_locked name_session notify
take_locked_lem fresh now st = elim (List-cases st.input_queue) [
  | inl q ↦
      simp (q, take_locked)
        (elim (Bool-cases st.closed) [
          | inl c ↦ rw c (refl, refl, ([], refl))
          | inr c ↦ rw c (refl, refl, ([], refl))
        ])
  | inr (x, rest, q) ↦ simp (q, take_locked) (refl, refl, (x ∷ [], refl))
]

send_locked-changed :
    (input id fresh : Text) (now : ℕ) (st : SessionState)
    → st.closed ≡ false
    → (send_locked input id fresh now st).1.changed ≡ suc st.changed
unfolding send_locked name_session append_message notify
send_locked-changed input id fresh now st c = rw c refl

react-IsStep : (r : Request) (t : Step) (st : SessionState) → IsStep st (react r t st)
unfolding react send_locked publish_locked close_locked look_locked drain_locked give_up_locked
    name_session notify append_message
react-IsStep r (sending input id) st = elim (Bool-cases (is_empty (trim_space input))) [
  | inl b ↦ rw b (IsStep-refl st)
  | inr b ↦ rw b (elim (Bool-cases st.closed) [
    | inl c ↦
        subst (λ p. IsStep st p.1)
          (sym (send_locked-closed r (trim_space input) (trim_space id) st c)) (IsStep-refl st)
    | inr c ↦
        notified-IsStep st _
          (send_locked-changed (trim_space input) (trim_space id) r.fresh r.now st c)
          (λ o. absurd (cc (c, o))) (λ o. absurd (cc (c, o)))
  ])
]
react-IsStep r (publishing message id) st = elim (Bool-cases (is_empty (trim_space message))) [
  | inl b ↦ rw b (IsStep-refl st)
  | inr b ↦ rw b (notified-IsStep st _ refl (λ c. c) (λ c. ([], refl)))
]
react-IsStep r (closing id) st = notified-IsStep st _ refl (λ c. refl) (λ c. ([], refl))
react-IsStep r looking st = record {
  grows = omega arith;
  queue_kept = λ _. refl;
  closed_kept = λ _. refl;
  waiting_kept = λ _. refl;
  outputs_kept = λ _. ([], refl);
  stays_closed = λ c. c;
  refuses = λ c. ([], refl);
}
react-IsStep r draining st = record {
  grows = omega arith;
  queue_kept = λ _. refl;
  closed_kept = λ _. refl;
  waiting_kept = λ _. refl;
  outputs_kept = λ _. (st.output_queue, sym (append_nil st.output_queue));
  stays_closed = λ c. c;
  refuses = λ c. ([], refl);
}
react-IsStep r taking st =
    let (woken, closed, kept) = take_locked_lem r.fresh r.now st in
    notified-IsStep st _ woken (λ c. closed ∙ c) (λ c. kept)
react-IsStep r giving_up st = notified-IsStep st _ refl (λ c. c) (λ c. ([], refl))
react-IsStep r (awaiting timeout) st = record {
  grows = omega arith;
  queue_kept = λ _. refl;
  closed_kept = λ _. refl;
  waiting_kept = λ _. refl;
  outputs_kept = λ _. ([], refl);
  stays_closed = λ c. c;
  refuses = λ c. ([], refl);
}

-- Whatever steps a service serves in whatever order, no session's number falls, and while it stays the
-- queued inputs and whether the session waits or is closed stay too, and the queued outputs gain nothing: no
-- caller sleeps on a number while what it waits for has come. A closed session stays closed, and its queue only loses inputs at the
-- front: it accepts none.
pub serve_all-IsStep :
    (rs : List Request) (s : Service) (k : Text)
    → IsStep (find_session k s.state) (find_session k (serve_all rs s).state)
unfolding serve_all
serve_all-IsStep [] s k = IsStep-refl (find_session k s.state)
serve_all-IsStep (r ∷ rs) s k =
    IsStep-trans (find_session k s.state) (find_session k (serve r s).state) _
      (rw (find_session-serve r s k) (elim (Bool-cases (is_complete r && text_eq k (key_of r))) [
        | inl e ↦ rw e (react-IsStep r r.step (find_session k s.state))
        | inr e ↦ rw e (IsStep-refl (find_session k s.state))
      ]))
      (serve_all-IsStep rs (serve r s) k)
