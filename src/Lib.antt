-- ===== src/Lib.antt =====
-- Verification library of InsightifyCore: models of the parts that decide, and what holds of them.
--
-- The program is a gateway that runs workers for a project and shows what they do in a document.
-- The parts below are modelled; how the program puts them together is not.
--
-- Acts (internal/domain/act). An act is the exchange that a user and the workers have in one node of
-- the document: a status, a mode, an actor, a goal, the selected worker and a timeline of events.
--   Act.antt          `CanTransition`, `IsTerminalStatus`, `Transition`, `AppendTimeline` and
--                     `StatusToMode` of act.go, `NormalizeActState` of mapper.go,
--                     `IsNodeCreateActorAllowed` of policy.go, `RouteInput`, `ShouldFallback` and
--                     `IsWorkerAllowed` of route.go, over the messages of
--                     gen/go/insightify/v1/ui.pb.go.
--   Act/Transitions   the table of transitions beside that of docs/act_mvp_spec.md.
--   Act/State         sequences of transitions of an act.
--   Act/Edits         sequences of transitions, added events and normalizations.
--   Act/Routing       the routing of an input and the lists of allowed workers and actors.
-- Texts are lists of code points. White space is that of `unicode.IsSpace`; `unicode.ToLower` is a
-- parameter, of one code point at a time, and a theorem that needs a law of it has it as a hypothesis. A
-- confidence is counted in tenths, since the source compares constants such as 0.8 with 0.5 and computes
-- none.
-- The pointer that the operations of act.go change is passed and returned; a null pointer is `none`.
--
-- The scheduler (internal/common/scheduler). It packs the ready nodes of a graph of tasks into chunks
-- of bounded weight and runs a bounded number of chunks at a time, until all targets are completed.
--   Scheduler/Sets     `IntSet`, as a list without repetition.
--   Scheduler/Graph    `computeIndegrees`, `buildReverseGraph`, `computeNeededNodes`, `toposortAny` and
--                      `descendantCounts`; below it the number of open predecessors of a node
--                      (Degrees), the loop over a row (Relax), the nodes that a search finds
--                      (Needed, Ancestors) and the end of the sort (Topo).
--   Scheduler/Chunk    `buildChunkDesc`; below it its chunks' weight (Capacity), order (Order, Members,
--                      Built) and maximality (Maximal).
--   Scheduler/Launch   `tryLaunch` with the reservation of permits (policy.go), and the nodes of a chunk
--                      that has finished; below it the invariant of the variables (InFlight, Sound,
--                      Completion).
--   Scheduler/Run      `ScheduleHeavierStart` with its main loop; below it the run's safety (Start,
--                      Receive, Invariant, Safety) and its fuel (Fuel).
-- A set is a list whose order stands for the order in which Go iterates over the map. The callbacks
-- (weights, `Run`, the broker, the policy of permits) are parameters. A weight, a sum of weights and a number of
-- permits is an `int` of 64 bits in two's complement, which wraps around; the capacity and the bound on parallel
-- chunks are natural numbers below 2 ^ 63, where 0 stands for the negative ones too. The select statement of the
-- main loop is a list of events: the context is cancelled, or the channel of one chunk
-- in flight is closed; when the list is used up the run is `waiting`. The goroutine that forwards a
-- closed channel is part of that event. A panic on an index out of range is an error value.
--
-- The memory cache (internal/cache/memory/lru_ttl.go), which the read-through caches keep their
-- documents and records in.
--   Cache/Memory       `LRUTTL` with `Get`, `Set`, `Delete`, `Clear`, `evictLocked` and `removeElement`;
--                      below it the list and the map (Index), their agreement (Consistency), the
--                      eviction (Eviction), sequences of calls (Runs), the order of use (Recency) and the
--                      contents (Retrieval, Storing).
-- A pointer to an element is a number, its handle. Equality of keys is a parameter. A method holds the
-- lock throughout, so it is one step; the clock is an argument of `Get` and `Set`. Bounds and sizes
-- have a sign where the source tests it; sums do not overflow.
--
-- The sessions of user interaction (internal/gateway/service/userinteraction): for each node of a run, the
-- inputs that a worker waits for, the messages that it shows, and the conversation of both.
--   Interaction            model.go, and what the methods of service.go and service_messages.go do to a
--                          session while they hold the lock.
--   Interaction/Service    the methods, with the checks of a request, the map of sessions, and the calls
--                          of the artifact store (persistence.go) and of `UISync` as effects.
--   Interaction/Requests   sequences of steps of all sessions; beside it what holds of them (Conversation,
--                          Queues, Waking), the events of a subscription (Events) and keys (Keys).
-- `Wait`, `WaitForInput` and `Subscribe` are modelled by one time around their loops, which is one step; any
-- sequence of steps is an interleaving of callers. The channel `changed` is a number that each
-- notification raises. The clock, and what `newInteractionID` returns, are in the request. The snapshot
-- of a conversation is the list of messages, without its JSON text; errors of the store are logged by
-- the source and have no effect.
--
-- The documents of the user interface (internal/cache/ui), behind the interface `Store` of
-- internal/gateway/repository/ui/repository.go.
--   Ui                 the messages, the interface, and the laws that a client relies on.
--   Ui/Memory          `MemoryStore` of memory_store.go; below it the loop over the operations (Effects),
--                      the methods (Laws), and what is read after any calls (Documents).
--   Ui/Cached          `CachedStore` of cached_store.go over a store and the memory cache; below it its
--                      answers to a sequence of requests (Coherence), with Cache/Memory/Coherence.
-- Of a node the stores look into the id alone; the rest is a parameter. A copy by `proto.Clone` is the
-- value itself, since values do not change. A Go map is a list of pairs in the order of first insertion
-- (Prelude/Dict), and `sort.Strings` is an insertion sort (Prelude/Sorting). `ApplyOps` of the memory store holds
-- the lock throughout. `GetDocument` gives it back after the lookup: `get_document_between` has the store at the
-- lookup, at the reading of the nodes and at that of the version, and `get_document` is the case that no call comes
-- in between, which the laws and the cache are about: there a request is served as a whole before the next. A
-- call inside the loop over the nodes, a concurrent use of a Go map, is outside.
--
-- The workspaces of projects and their tabs (internal/cache/uiworkspace), behind the interface `Store` of
-- internal/gateway/repository/uiworkspace/repository.go.
--   Workspaces         the types and the interface.
--   Workspaces/Memory  `MemoryStore` of memory_store.go; below it the order of tabs (Sorted), the invariant
--                      (Valid), and sequences of requests (Requests).
--   Workspaces/Cached  `CachedStore` of cached_store.go over a store and five memory caches; below it what it
--                      returns after a write (Staleness).
-- The decimal text of the clock's reading, which makes an id, comes with the request. Tabs are sorted by
-- insertion: their order indices differ, so that any sort gives the same.
--
-- The middleware for language models (internal/llm/middleware), which wraps a client in others.
--   Llm/Limits         the token buckets of rate_limit.go, `Acquire` and `AcquireN`, the clients `rateLimited`,
--                      `multiLimited` and `tokenDayLimited`, and `Wrap` of chain.go; below it what a wait
--                      takes (Waiting), what a request pays (Paying), and how many pass (Rates).
--   Llm/Credits        `Reserve`, `WithCredits` and the loop of `TakeCredit`; below it the interleavings of
--                      callers (Interleaving), their end (Progress), and the lease (Leases).
--   Llm/Retry          retry.go; below it the rounds of the loop (Rounds).
--   Llm/Usage          usage.go; below it the sums in the ledger (Tallies).
-- While a call waits, a list of events happens: ticks, other callers, cancellation, and the case that its own
-- `select` takes; when the list is used up the call is `waiting`. The streaming methods do what the others
-- do. The wrapped client, the context, the sleep and the count of tokens are parameters.
--
-- Utilities (internal/common/utils)
--   Utils              `UniqueStrings` of strutil.go and `Filter` of filter.go; below it what the former returns
--                      (Unique).
--   Utils/Uid          `UIDGenerator` of uid.go; below it the digits of numbers (Decimals) and the ids (Unique).
-- The tests of characters and the hash are parameters.
--
-- Loops run on fuel. `computeNeededNodes` and `toposortAny` take one node from a queue in each round,
-- `buildChunkDesc` puts one node into the chunk, and none comes twice, so the number of nodes (with
-- the targets, for the queue that starts as the targets) is enough; `evictLocked` removes an entry in
-- each round; the search for the number of an id meets each id in use at most once. Running out is a
-- result of its own, but in `pack` (of `buildChunkDesc`), in `evict_rounds` (of `evictLocked`) and in
-- `decimal_digits` (the digits of a number, fewer than one more than its value), which then return what they
-- have; lemmas show that they do not run out.
--
-- Not modelled: the text of errors, the caches on disk and in front of artifacts and projects, and the
-- differences of files, which are pure logic for the most part; and what is generated code or input and
-- output (the database, file systems, transport, prompts).
pub mod Prelude
pub mod Act
pub mod Scheduler
pub mod Cache
pub mod Interaction
pub mod Ui
pub mod Llm
pub mod Workspaces
pub mod Utils
mod Tests
