-- ===== src/Lib.antt =====
-- mcp-mux: the session manager, the remapped IDs, the supervisor's run loop with its correlation of
-- requests, the admission of a modern client, the sharing verdict, and the reaper's decision.
--
-- mcp-mux shares one upstream MCP server among several clients. The daemon (muxcore/daemon) starts
-- an owner for each upstream; the owner admits clients (shims) through a session manager
-- (muxcore/session). The supervisor (muxcore/supervisor) stands between a host and its engine and
-- keeps track of what is in flight while one engine generation replaces another.
--
-- Base, Map: shared names, decidable keys, lists, and Go's maps as association lists. The order in
-- which Go ranges over a map is not fixed; the laws do not speak of the list's order.
--
-- Session models muxcore/session/session_manager.go. Session/State is Manager with its four maps
-- and the last activities; a *Session is an address, and a heap gives the fields that the manager
-- reads and writes. Session/Admission has PreRegister, Bind and the revocations, Session/History
-- has RegisterSession, RemoveSession, LookupHistory, the sweeps and the export and import of the
-- bound history, Session/Inflight has TrackRequest, CompleteRequest, DrainInflight and
-- ResolveCallback. Session/Reconnect has RegisterReconnect: the lock is given up while the owner is
-- asked, so it is two critical sections with arbitrary work of other goroutines between them.
-- Session/World lists the critical sections as steps; its runs are the interleavings. A token that
-- generateToken makes is an argument, `none` where the system has no randomness. Times are
-- nanoseconds given to each method, 0 for Go's zero time, and never wrap.
--
-- Supervisor models muxcore/supervisor/correlation.go and queue.go, with the types of id.go and
-- frame.go. Supervisor/Scalar has the keys and roles, Supervisor/Tombstones the ring of the latest
-- 1,024 keys, Supervisor/Fences the sets of persistent fences, Supervisor/Records the records and
-- parseTaskMeta over a parameter for encoding/json. Supervisor/Registry is directionRegistry: its
-- monad gives the state back also where a method fails, as Go's methods leave what they wrote.
-- Registry/Register has canRegister, register and canBindTask, Registry/Tasks has updateTask and
-- finalizeTask, Registry/Complete has canComplete, complete and cancel, Registry/Retire has
-- retireGenerationChecked, Registry/Sort the
-- order of the requests that it returns, Registry/Progress has acceptProgress, with compareCanonicalNumbers in
-- Supervisor/Numbers, Registry/Retired has consumeRetiredResponse and consumeRetiredTaskStatus;
-- Registry/Fencing, Reuse, RetireSteps, Retirement and Once have proofs about them.
-- A progress is a text on which splitCanonicalNumber does not panic, as canonicalJSONNumber makes
-- it; Numbers/Value says what such texts stand for. sort.Slice is an insertion sort.
-- Supervisor/Queue is pendingQueue.
--
-- Supervisor/Runner models the loop of muxcore/supervisor/run.go with routing.go, replay.go,
-- finalization.go, modern.go and generation.go: the record is the runner struct, with what was
-- written to the host and to each child as logs. Runner/Lifecycle has terminate, writeHost,
-- writeChild, beginStart, finalizeCurrent and replaceCurrent, Runner/Validate validateHostRequest,
-- Runner/Delivery enqueueHost and deliverHostFirst, Runner/HostLifecycle, ModernHost and Host the
-- routing of host frames, Runner/Child that of child frames, Runner/Replay the replay of a new
-- generation, Runner/Flush the loops over the queue, Runner/Dormancy and Lease the dormant state,
-- Runner/Start handleStartAttempt and handleResolve, Runner/Events handleChildFrame, handleEvent
-- and Run. A timer is armed or not, and fires as an event; a goroutine is the event that it sends.
-- Each event comes with an Environment: the configuration, the answers of the transports and of the
-- child's end, the clock, the latest host frame that the reader has seen, and taskRequestSupported,
-- supportsListChanged, sameInitializeContract and modernSubscriptionKey as arbitrary functions. An
-- error frame of the supervisor's own is a constructor with the ID, the code and the message.
-- Logging, observation and the text of the final error are left out. flushPending and
-- flushReplayPings run on fuel, one round more than the queue holds. Runner/Reach says which
-- runners the loop comes by. Runner/Sound, Halted, Lost, Idle and the modules of Runner/Flush have
-- proofs.
--
-- Remap models muxcore/remap/remap.go, with which the owner makes the IDs of many clients unique on
-- one upstream. encoding/json on strings, strconv and strings.TrimSpace are a parameter, and
-- Remap/Format says what is relied on; an int has 64 bits.
--
-- Era models the wire values of muxcore/era/era.go and validateModernOpening of
-- muxcore/era/selector.go, which admits the first frame of a modern client. encoding/json, the walk
-- that finds duplicate keys and strings.TrimSpace are a parameter.
--
-- Classify models muxcore/classify: the verdict on a server from its tools' names, and what its
-- x-mux capability declares. encoding/json and strings.ToLower are a parameter.
--
-- Daemon models shouldEvict of muxcore/daemon/reaper.go, with signed durations that saturate.
--
-- All other functions are structural recursions on lists, so no fuel is needed. Counts and byte
-- sizes are natural numbers: the limits of the program keep them far below 2^63.
--
-- Not modelled: canonicalJSONNumber and the checks on a frame's JSON (id.go, frame.go), the owner
-- and the daemon but for the parts above, and what is input and output: connections, processes,
-- sockets, files and logs.
pub mod Base
pub mod Map
pub mod Session
pub mod Supervisor
pub mod Daemon
pub mod Remap
pub mod Era
pub mod Classify
