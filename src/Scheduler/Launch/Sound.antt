-- ===== src/Scheduler/Launch/Sound.antt =====
-- The invariant of the scheduler, and that `tryLaunch` keeps it.
use insightify_core.Prelude.{
  ℕ, zero, suc, ◌+◌, ◌≤◌, ◌<◌, ◌≡◌, refl, ap, ◌⊎◌, inl, inr, Bool, true, false, ◌||◌, Option, none,
  some, List, [], ◌∷◌, ◌++◌, map, length, length-append, is_empty, if◌then◌else◌, arith,
}
use insightify_core.Prelude.Text.{Text}
use insightify_core.Scheduler.Sets.{has, remove, Distinct, has-remove}
use insightify_core.Scheduler.Graph.{Adjacency, targets_of, at}
use insightify_core.Scheduler.Graph.Degrees.{open_degree}
use insightify_core.Scheduler.Chunk.{Plan, build_chunk_desc, sum_weights}
use insightify_core.Scheduler.Chunk.Capacity.{InRangeOfInt, sum_weights-build_chunk_desc}
use insightify_core.Scheduler.Chunk.Order.{InOrder, IsReadyToPack, IsCandidate, IsChunk}
use insightify_core.Scheduler.Chunk.Built.{build_chunk_desc-IsChunk}
use insightify_core.Scheduler.Launch.{
  Params, State, Launched, Launch, launched_to, refused, callback, candidates, heavier_than,
  remove_all, start, launch, try_launch,
}
use insightify_core.Scheduler.Launch.InFlight.{
  All, All-snoc, flat, has-flat-snoc, Apart, flat-snoc-Distinct, IsClosed, flat-IsClosed,
  InOrder-IsClosed,
}

abbrev pub chunks : List Launched → List (List ℕ)
chunks = map (λ l. l.chunk)

-- A launch keeps to the capacity, its nodes are needed, and they come after their predecessors, those completed by
-- then aside.
pub record IsFit (plan : Plan) (l : Launched) : Type 0 where
  pub light :
      InRangeOfInt plan.weight_of plan.cap_per_chunk
      → sum_weights plan.weight_of l.chunk ≤ plan.cap_per_chunk
  pub in_order : InOrder plan.adj l.done l.chunk
  pub wanted : (x : ℕ) → has x l.chunk ≡ true → has x plan.need ≡ true

abbrev pub InRange : Adjacency → Type 0
InRange adj = (u v : ℕ) → has v (targets_of adj u) ≡ true → v < length adj

-- `rest` are the nodes of a finished chunk that are still to be marked as completed.
pub record IsSound (plan : Plan) (n_parallel : ℕ) (rest : List ℕ) (s : State) : Type 0 where
  pub size : length s.counts.indeg ≡ length plan.adj
  pub degrees :
      (v : ℕ) → v < length plan.adj → at s.counts.indeg v ≡ open_degree plan.adj s.completed v
  pub ready :
      (x : ℕ)
      → has x s.counts.found ≡ true
      → ((has x s.completed || has x rest) ≡ true)
        ⊎ IsCandidate plan s.completed (flat s.inflight) x
  pub closed : All (IsClosed plan.adj s.completed) s.inflight
  pub flying : Distinct (flat s.inflight)
  pub landing : Distinct rest
  pub apart : Apart rest (flat s.inflight)
  pub undone : Apart s.completed (rest ++ flat s.inflight)
  pub within : (x : ℕ) → has x (flat s.inflight) ≡ true → x < length plan.adj
  pub bounded : length s.inflight ≤ n_parallel
  pub once : Distinct (flat (chunks s.launched))
  pub all_launched :
      (x : ℕ)
      → has x (flat (chunks s.launched)) ≡ (has x s.completed || has x (rest ++ flat s.inflight))
  pub fit : All (IsFit plan) s.launched

has-remove_all :
    (x : ℕ) (us s : List ℕ) → has x (remove_all us s) ≡ true → (has x us ≡ false) × (has x s ≡ true)
unfolding has remove_all
has-remove_all x [] s m = (refl, m)
has-remove_all x (u ∷ us) s m =
    let (out, old) = has-remove_all x us (remove u s) m in
    (ground (arith, has-remove x u s), ground (arith, has-remove x u s))

has-candidates :
    (x : ℕ) (completed ready : List ℕ)
    → has x (candidates completed ready) ≡ true
    → (has x completed ≡ false) × (has x ready ≡ true)
unfolding has candidates
has-candidates x completed [] m = cc
has-candidates x completed (u ∷ ready) m = ground (arith, has-candidates x completed ready)

chunks-snoc :
    (ls : List Launched) (l : Launched) → chunks (ls ++ (l ∷ [])) ≡ chunks ls ++ (l.chunk ∷ [])
chunks-snoc [] l = refl
chunks-snoc (k ∷ ls) l = ap (◌∷◌ k.chunk) (chunks-snoc ls l)

-- What `tryLaunch` leaves behind, an error included.
abbrev pub Leaves : (State → Type 0) → Launch → Type 0
Leaves P (launched_to s) = P s
Leaves P (refused e s) = P s

pub Leaves-if :
    (P : State → Type 0) (b : Bool) (l k : Launch)
    → Leaves P l
    → Leaves P k
    → Leaves P (if b then l else k)
Leaves-if P true l k h g = h
Leaves-if P false l k h g = g

Leaves-callback :
    (P : State → Type 0) (o : Option Text) (s : State) (next : Launch)
    → P s
    → Leaves P next
    → Leaves P (elim o [ some e ↦ refused (callback e) s | none ↦ next ])
Leaves-callback P none s next h g = g
Leaves-callback P (some e) s next h g = h

module _ (params : Params) (plan : Plan) (n_parallel : ℕ) (in_range : InRange plan.adj) where
  open plan use {weight_of, cap_per_chunk, adj}

  -- A new chunk that is fit for the state keeps the invariant.
  launch-IsSound :
      (chunk : List ℕ) (s : State)
      → IsSound plan n_parallel [] s
      → IsChunk plan s.completed (flat s.inflight) chunk
      → (InRangeOfInt weight_of cap_per_chunk → sum_weights weight_of chunk ≤ cap_per_chunk)
      → length s.inflight < n_parallel
      → IsSound plan n_parallel [] (launch params plan chunk s)
  unfolding launch has
  launch-IsSound chunk s h c light room = record {
    size = h.size;
    degrees = h.degrees;
    ready = λ x m.
        let (out, old) = has-remove_all x chunk s.counts.found m in
        elim (h.ready x old) [
          | inl done ↦ inl done
          | inr k ↦ inr (record {
            below = k.below;
            uncompleted = k.uncompleted;
            unbusy = rw (has-flat-snoc x s.inflight chunk, k.unbusy) out;
            needed = k.needed;
            ready = k.ready;
          })
        ];
    closed =
        All-snoc (IsClosed adj s.completed) s.inflight chunk h.closed
          (InOrder-IsClosed adj chunk s.completed c.in_order);
    flying = flat-snoc-Distinct s.inflight chunk h.flying c.distinct (λ x m. (c.admitted x m).2);
    landing = tt;
    apart = λ x m. cc;
    undone = λ x m. ground (arith, h.undone x m, has-flat-snoc x s.inflight chunk, c.admitted x);
    within = λ x m. ground (arith, h.within x, c.admitted x, has-flat-snoc x s.inflight chunk);
    bounded = omega (arith, length-append s.inflight (chunk ∷ []), room);
    once = rw (chunks-snoc s.launched (record { chunk = chunk; done = s.completed })) (
        flat-snoc-Distinct (chunks s.launched) chunk h.once c.distinct
          (λ x m. ground (arith, h.all_launched x, c.admitted x m)));
    all_launched = λ x. rw (chunks-snoc s.launched (record { chunk = chunk; done = s.completed })) (
        ground (
          arith,
          has-flat-snoc x (chunks s.launched) chunk,
          has-flat-snoc x s.inflight chunk,
          h.all_launched x,
        ));
    fit =
        All-snoc (IsFit plan) s.launched (record { chunk = chunk; done = s.completed }) h.fit
          (record { light = light; in_order = c.in_order; wanted = λ x m. (c.admitted x m).3 });
  }

  -- The candidates of a sound state are what a chunk is built from.
  candidates-IsCandidate :
      (s : State)
      → IsSound plan n_parallel [] s
      → (x : ℕ) → has x (candidates s.completed s.counts.found) ≡ true
      → IsCandidate plan s.completed (flat s.inflight) x
  candidates-IsCandidate s h x m =
      let (new, old) = has-candidates x s.completed s.counts.found m in
      elim (h.ready x old) [ inl done ↦ absurd (clash new done) | inr k ↦ k ]
    where
      clash : has x s.completed ≡ false → (has x s.completed || has x []) ≡ true → ⊥
      clash new done = unfold has in ground arith

  pub IsReadyToPack-sound :
      (s : State) → IsSound plan n_parallel [] s → IsReadyToPack adj s.completed (flat s.inflight)
  IsReadyToPack-sound s h = record {
    in_range = in_range;
    busy_closed = flat-IsClosed adj s.completed s.inflight h.closed;
  }

  next_chunk_lem :
      (s : State)
      → IsSound plan n_parallel [] s
      → IsChunk plan s.completed
          (flat s.inflight)
          (build_chunk_desc plan s.completed (candidates s.completed s.counts.found) s.counts.indeg)
  next_chunk_lem s h =
      build_chunk_desc-IsChunk plan s.completed (flat s.inflight) (IsReadyToPack-sound s h)
        (candidates s.completed s.counts.found) s.counts.indeg h.size h.degrees
        (candidates-IsCandidate s h)

  pub try_launch-IsSound :
      (slots : ℕ) (s : State)
      → IsSound plan n_parallel [] s
      → slots + length s.inflight ≤ n_parallel
      → Leaves (IsSound plan n_parallel []) (try_launch params plan slots s)
  unfolding try_launch
  try_launch-IsSound zero s h room = h
  try_launch-IsSound (suc slots) s h room =
      let cands = candidates s.completed s.counts.found in
      let chunk = build_chunk_desc plan s.completed cands s.counts.indeg in
      let light = λ (small : InRangeOfInt weight_of cap_per_chunk).
        sum_weights-build_chunk_desc plan s.completed small cands s.counts.indeg in
      let next =
        try_launch-IsSound slots (launch params plan chunk s)
          (launch-IsSound chunk s h (next_chunk_lem s h) light (omega arith))
          (unfold launch in omega (arith, length-append s.inflight (chunk ∷ []))) in
      let P = IsSound plan n_parallel [] in
      Leaves-if P (is_empty cands) _ _ h (
        Leaves-if P (is_empty chunk) _ _
          (Leaves-if P (is_empty (heavier_than weight_of cap_per_chunk cands)) _ _ h h)
          (Leaves-callback P (start params chunk) s
            (try_launch params plan slots (launch params plan chunk s)) h next))
