-- ===== src/Scheduler/Run/Invariant.antt =====
-- The main loop keeps the invariant of the scheduler.
use insightify_core.Prelude.{
  ℕ, ◌-◌, ◌≡◌, inl, inr, true, false, List, [], ◌∷◌, length, is_empty, Bool-cases, Option-cases,
  if◌then◌else◌, arith,
}
use insightify_core.Scheduler.Sets.{is_subset}
use insightify_core.Scheduler.Chunk.{Plan}
use insightify_core.Scheduler.Launch.{
  Params, State, Launch, launched_to, refused, deadlock, context_done, complete,
}
use insightify_core.Scheduler.Launch.Sound.{IsSound, InRange, Leaves, Leaves-if, try_launch-IsSound}
use insightify_core.Scheduler.Launch.Completion.{complete-IsSound}
use insightify_core.Scheduler.Run.{
  Event, cancel, finish, Outcome, finished, waiting, failed, invalid, take_chunk, try_launch_all,
  ensure_inflight, receive, main_loop,
}
use insightify_core.Scheduler.Run.Receive.{take_chunk-Takes, landed-IsSound}

Leaves-deadlock :
    (P : State → Type 0) (l : Launch)
    → Leaves P l
    → Leaves P (elim l [
      | refused e t ↦ refused e t
      | launched_to s' ↦ if is_empty s'.inflight then refused deadlock s' else launched_to s'
    ])
Leaves-deadlock P (refused e t) h = h
Leaves-deadlock P (launched_to s) h =
    Leaves-if P (is_empty s.inflight) (refused deadlock s) (launched_to s) h h

-- `P` of the state in which a run ends or stands; a run that finishes has completed the targets.
abbrev pub Ends : (State → Type 0) → List ℕ → Outcome → Type 0
Ends P targets (finished s) = P s × (is_subset s.completed targets ≡ true)
Ends P targets (waiting s) = P s
Ends P targets (failed e s) = P s
Ends P targets (invalid e) = Unit

Ends-test :
    (P : State → Type 0) (targets : List ℕ) (s : State) (o : Outcome)
    → P s
    → Ends P targets o
    → Ends P targets (elim (is_subset s.completed targets) [ true ↦ finished s | false ↦ o ])
Ends-test P targets s o h k = elim (Bool-cases (is_subset s.completed targets)) [
  | inl e ↦ rw e (h, e)
  | inr e ↦ rw e k
]

pub Ends-launch :
    (P : State → Type 0) (targets : List ℕ) (l : Launch) (next : State → Outcome)
    → Leaves P l
    → ((t : State) → P t → Ends P targets (next t))
    → Ends P targets (elim l [ refused e t ↦ failed e t | launched_to t ↦ next t ])
Ends-launch P targets (refused e t) next h k = h
Ends-launch P targets (launched_to t) next h k = k t h

module _ (params : Params) (plan : Plan) (n_parallel : ℕ) (in_range : InRange plan.adj) where
  abbrev Sound : State → Type 0
  Sound = IsSound plan n_parallel []

  try_launch_all-IsSound :
      (s : State) → Sound s → Leaves Sound (try_launch_all params plan n_parallel s)
  try_launch_all-IsSound s h =
      try_launch-IsSound params plan n_parallel in_range (n_parallel - length s.inflight) s h
        (omega (arith, h.bounded))

  ensure_inflight-IsSound :
      (s : State) → Sound s → Leaves Sound (ensure_inflight params plan n_parallel s)
  unfolding ensure_inflight
  ensure_inflight-IsSound s h =
      Leaves-if Sound (is_empty s.inflight) _ _
        (Leaves-deadlock Sound (try_launch_all params plan n_parallel s)
          (try_launch_all-IsSound s h))
        h

  receive-IsSound :
      (k : ℕ) (s : State) → Sound s → Leaves Sound (receive params plan n_parallel k s)
  unfolding receive
  receive-IsSound k s h = elim (Option-cases (take_chunk k s.inflight)) [
    | inl e ↦ rw (e, receive) h
    | inr ((chunk, others), e) ↦
        let t = take_chunk-Takes k s.inflight (chunk, others) e in
        rw (e, receive)
          (try_launch_all-IsSound (complete params plan chunk (record s { inflight = others })) (
            complete-IsSound params plan n_parallel in_range chunk (record s { inflight = others })
              (landed-IsSound plan n_parallel s chunk others h t)
              (λ x m. h.within x (ground (arith, t.members x)))))
  ]

  pub main_loop-IsSound :
      (targets : List ℕ) (events : List Event) (s : State)
      → Sound s
      → Ends Sound targets (main_loop params plan n_parallel targets events s)
  unfolding main_loop
  main_loop-IsSound targets [] s h = Ends-test Sound targets s _ h (
      Ends-launch Sound targets (ensure_inflight params plan n_parallel s) waiting
        (ensure_inflight-IsSound s h) (λ t k. k))
  main_loop-IsSound targets (cancel ∷ events) s h = Ends-test Sound targets s _ h (
      Ends-launch Sound targets (ensure_inflight params plan n_parallel s) (failed context_done)
        (ensure_inflight-IsSound s h) (λ t k. k))
  main_loop-IsSound targets (finish k ∷ events) s h = Ends-test Sound targets s _ h (
      Ends-launch Sound targets (ensure_inflight params plan n_parallel s)
        (λ t. elim (receive params plan n_parallel k t) [
          | refused e q ↦ failed e q
          | launched_to q ↦ main_loop params plan n_parallel targets events q
        ])
        (ensure_inflight-IsSound s h)
        (λ t kt.
          Ends-launch Sound targets (receive params plan n_parallel k t)
            (main_loop params plan n_parallel targets events) (receive-IsSound k t kt)
            (main_loop-IsSound targets events)))
