-- ===== src/Act/State.antt =====
-- Sequences of transitions of an act, and the mode that the interface reads (act.go, mapper.go).
use insightify_core.Prelude.{
  ◌≡◌, refl, ◌≢◌, inl, inr, true, false, some, List, [], ◌∷◌, Bool-cases, subst, arith,
}
use mathlib.Core.Logic.{⊎_elim}
use insightify_core.Prelude.Text.{trim_space}
use insightify_core.Act.{
  UiActStatus, unspecified, running_worker, done, UiActState, Result, ok, err, can_transition,
  status_to_mode, transition,
}
use insightify_core.Act.Transitions.{done-running_worker}

abbrev pub Never : UiActStatus → List UiActStatus → Type 0
Never s [] = Unit
Never s (t ∷ ts) = (t ≢ s) × Never s ts

pub mode-trimmed : (t : UiActStatus) → trim_space (status_to_mode t) ≡ status_to_mode t
unfolding trim_space status_to_mode
mode-trimmed unspecified = refl
mode-trimmed _ = refl

module _ {Action Event : Type 0} where
  -- A caller's sequence of transitions, which stops at the first refusal.
  unfoldable pub run : UiActState Action Event → List UiActStatus → Result (UiActState Action Event)
  run s [] = ok s
  run s (t ∷ ts) = elim (transition (some s) t) [ ok s' ↦ run s' ts | err e ↦ err e ]

  -- The mode shown to the user is the one of the status.
  abbrev pub IsCoherent : UiActState Action Event → Type 0
  IsCoherent s = s.mode ≡ status_to_mode s.status

  -- What no transition touches.
  pub record SameContent (s t : UiActState Action Event) : Type 0 where
    pub act_id : t.act_id ≡ s.act_id
    pub goal : t.goal ≡ s.goal
    pub selected_worker : t.selected_worker ≡ s.selected_worker
    pub pending_actions : t.pending_actions ≡ s.pending_actions
    pub timeline : t.timeline ≡ s.timeline

  abbrev pub moved : UiActState Action Event → UiActStatus → UiActState Action Event
  moved s t = record s { status = t; mode = status_to_mode t }

  run-cons :
      (s : UiActState Action Event) (t : UiActStatus) (ts : List UiActStatus)
      {s' : UiActState Action Event}
      → run s (t ∷ ts) ≡ ok s'
      → (can_transition s.status t ≡ true) × (run (moved s t) ts ≡ ok s')
  unfolding run transition
  run-cons s t ts h = elim (Bool-cases (can_transition s.status t)) [
    | inl e ↦ (e, rw (e, run, transition) at h)
    | inr e ↦ absurd (not_moved e)
  ]
    where
      not_moved : can_transition s.status t ≡ false → ⊥
      not_moved e = let r = rw (e, run, transition) at h in cc

  -- A sequence that is accepted keeps everything but status and mode, and the mode stays that of
  -- the status.
  pub run-SameContent :
      (s : UiActState Action Event) (ts : List UiActStatus) {s' : UiActState Action Event}
      → IsCoherent s
      → run s ts ≡ ok s'
      → SameContent s s' × IsCoherent s'
  unfolding run
  run-SameContent s [] c h = ground arith
  run-SameContent s (t ∷ ts) c h =
      let step = run-cons s t ts h in
      let (same, mode) = run-SameContent (moved s t) ts refl step.1 in
      (
        record {
          act_id = same.act_id;
          goal = same.goal;
          selected_worker = same.selected_worker;
          pending_actions = same.pending_actions;
          timeline = same.timeline;
        },
        mode,
      )

  -- No act ends as `done` unless a worker ran: a sequence that neither starts at `running_worker` or
  -- `done` nor visits `running_worker` does not end at `done`.
  pub run-ne-done :
      (s : UiActState Action Event) (ts : List UiActStatus) {s' : UiActState Action Event}
      → s.status ≢ done
      → s.status ≢ running_worker
      → Never running_worker ts
      → run s ts ≡ ok s'
      → s'.status ≢ done
  unfolding run
  run-ne-done s [] d r n h = ground arith
  run-ne-done s (t ∷ ts) d r n h =
      let step = run-cons s t ts h in
      run-ne-done (moved s t) ts
        (λ e.
          ⊎_elim d r
            (done-running_worker s.status (subst (λ x. can_transition s.status x ≡ true) e step.0)))
        n.0 n.1 step.1
