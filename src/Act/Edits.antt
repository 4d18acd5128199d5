-- ===== src/Act/Edits.antt =====
-- Sequences of `Transition`, `AppendTimeline` and `NormalizeActState` on an act (internal/domain/act).
use insightify_core.Prelude.{
  ◌≡◌, refl, ◌∙◌, ap, sym, inl, inr, Bool, true, false, Option, none, some, List, [], ◌∷◌, ◌++◌,
  if◌then◌else◌, append_nil, append_assoc, Bool-cases, subst,
}
use insightify_core.Prelude.Text.{Text, trim_space, trim_space_idem}
use insightify_core.Act.{
  UiActStatus, UiActState, Result, ok, err, state_is_nil, can_transition, transition,
  append_timeline, normalize_act_state,
}
use insightify_core.Act.State.{IsCoherent, mode-trimmed, moved}

-- What callers do with an act: move it, add an event (or a null pointer, which is none), or normalize it.
pub data Edit (Event : Type 0) : Type 0 where
  moving : UiActStatus → Edit Event
  adding : Option Event → Edit Event
  normalizing : Edit Event

-- The events that are added, and whether the act is normalized.
unfoldable pub events_of : {Event : Type 0} → List (Edit Event) → List Event
events_of [] = []
events_of (adding (some e) ∷ edits) = e ∷ events_of edits
events_of (adding none ∷ edits) = events_of edits
events_of (moving t ∷ edits) = events_of edits
events_of (normalizing ∷ edits) = events_of edits

unfoldable pub is_normalized : {Event : Type 0} → List (Edit Event) → Bool
is_normalized [] = false
is_normalized (normalizing ∷ edits) = true
is_normalized (moving t ∷ edits) = is_normalized edits
is_normalized (adding e ∷ edits) = is_normalized edits

unfoldable pub trimmed_if : Bool → Text → Text
trimmed_if b t = if b then trim_space t else t

trimmed_if-trim : (b : Bool) (t : Text) → trimmed_if b (trim_space t) ≡ trim_space t
unfolding trimmed_if
trimmed_if-trim false t = refl
trimmed_if-trim true t = trim_space_idem t

module _ {Action Event : Type 0} where
  ok-injective : (s s' : UiActState Action Event) → ok s ≡ ok s' → s ≡ s'
  ok-injective s s' h = ap (λ r. elim r [ ok t ↦ t | err e ↦ s ]) h

  -- A caller's sequence of edits, which stops at the first refusal of a transition.
  unfoldable pub edit_all :
      List (Edit Event) → Option (UiActState Action Event) → Result (UiActState Action Event)
  unfolding transition append_timeline normalize_act_state
  edit_all [] none = err state_is_nil
  edit_all [] (some s) = ok s
  edit_all (moving t ∷ edits) s = elim (transition s t) [
    | ok s' ↦ edit_all edits (some s')
    | err e ↦ err e
  ]
  edit_all (adding e ∷ edits) s = edit_all edits (append_timeline s e)
  edit_all (normalizing ∷ edits) s = edit_all edits (normalize_act_state s)

  -- From `s` to `s'` by edits that were accepted: the events are added at the end in their order, the texts are
  -- trimmed exactly if the act was normalized, and the mode is that of the status.
  pub record IsEdited (edits : List (Edit Event)) (s s' : UiActState Action Event) : Type 0 where
    pub timeline : s'.timeline ≡ s.timeline ++ events_of edits
    pub act_id : s'.act_id ≡ trimmed_if (is_normalized edits) s.act_id
    pub goal : s'.goal ≡ trimmed_if (is_normalized edits) s.goal
    pub selected_worker : s'.selected_worker ≡ trimmed_if (is_normalized edits) s.selected_worker
    pub pending_actions : s'.pending_actions ≡ s.pending_actions
    pub coherent : IsCoherent s'

  -- After accepted edits in any order, the timeline is the one before with the added events at its end in their
  -- order; the id, the goal and the worker are trimmed if the act was normalized and else untouched; the
  -- pending actions are untouched; and the mode is still that of the status.
  pub edit_all-IsEdited :
      (edits : List (Edit Event)) (s : UiActState Action Event) {s' : UiActState Action Event}
      → IsCoherent s
      → edit_all edits (some s) ≡ ok s'
      → IsEdited edits s s'
  unfolding edit_all events_of is_normalized trimmed_if
  edit_all-IsEdited [] s c h =
      let same = ok-injective s _ h in
      subst (IsEdited [] s) same (record {
        timeline = sym (append_nil s.timeline);
        act_id = refl;
        goal = refl;
        selected_worker = refl;
        pending_actions = refl;
        coherent = c;
      })
  edit_all-IsEdited (moving t ∷ edits) s c h = elim (Bool-cases (can_transition s.status t)) [
    | inl e ↦
        let r = edit_all-IsEdited edits (moved s t) refl (rw (e, edit_all, transition) at h) in
        record {
          timeline = r.timeline;
          act_id = r.act_id;
          goal = r.goal;
          selected_worker = r.selected_worker;
          pending_actions = r.pending_actions;
          coherent = r.coherent;
        }
    | inr e ↦ absurd (refused e)
  ]
    where
      refused : can_transition s.status t ≡ false → ⊥
      refused e = let r = rw (e, edit_all, transition) at h in cc
  edit_all-IsEdited (adding none ∷ edits) s c h =
      let r = edit_all-IsEdited edits s c h in
      record {
        timeline = r.timeline;
        act_id = r.act_id;
        goal = r.goal;
        selected_worker = r.selected_worker;
        pending_actions = r.pending_actions;
        coherent = r.coherent;
      }
  edit_all-IsEdited (adding (some e) ∷ edits) s c h =
      let r = edit_all-IsEdited edits (record s { timeline = s.timeline ++ (e ∷ []) }) c h in
      record {
        timeline = r.timeline ∙ append_assoc s.timeline (e ∷ []) (events_of edits);
        act_id = r.act_id;
        goal = r.goal;
        selected_worker = r.selected_worker;
        pending_actions = r.pending_actions;
        coherent = r.coherent;
      }
  edit_all-IsEdited (normalizing ∷ edits) s c h =
      let r =
        edit_all-IsEdited edits
          (record s {
            act_id = trim_space s.act_id;
            mode = trim_space s.mode;
            goal = trim_space s.goal;
            selected_worker = trim_space s.selected_worker;
          })
          (ap trim_space c ∙ mode-trimmed s.status) h in
      record {
        timeline = r.timeline;
        act_id = r.act_id ∙ trimmed_if-trim (is_normalized edits) s.act_id;
        goal = r.goal ∙ trimmed_if-trim (is_normalized edits) s.goal;
        selected_worker =
            r.selected_worker ∙ trimmed_if-trim (is_normalized edits) s.selected_worker;
        pending_actions = r.pending_actions;
        coherent = r.coherent;
      }
