-- ===== src/Lib.antt =====
-- A verification library for t3code-client, the TypeScript client of a T3 Code server: the library
-- packages/t3code-lib, on which the CLI (t3code-cli), the MCP server (t3code-mcp) and the proxy
-- (t3code-proxy) stand. It models the transport core of packages/t3code-lib/src and its view of a
-- thread, in these layers. A path without a package is below
-- packages/t3code-lib/src.
--
--   * Channel (internal/asyncIterable.ts): the push-to-pull channel `createChannel`. Its variables are
--     the record Channel; `next`, `push`, `end`, `fail` and `return` are functions from a channel to a
--     channel and the effects in order: the promises settled, by ticket, and the callbacks
--     `onPull` and `onReturn`. Channel/Trace has sequences of calls.
--   * Json and Errors (errors.ts): JSON values, and the failures that the library raises.
--   * Wire/Envelope and Wire/Exit (wire/envelope.ts, wire/exit.ts): the envelopes of the
--     protocol, the decoder of one frame with the shapes that zod checks written out, and the
--     outcome of an exit.
--   * Rpc (transport/rpcConnection.ts): `RpcConnection`. Rpc/State has the table of requests and the
--     methods that calls and streams share, Rpc/Calls the calls and the envelopes, Rpc/Streams the
--     iterator of a stream, which stands on Channel, and Rpc/Events the event loop: every entry point
--     is one constructor of Event, and `run` takes any sequence of them.
--   * Socket (transport/socket.ts, transport/keepalive.ts, transport/socketClose.ts): `SocketTransport`.
--     Socket/State has the private fields and methods, Socket/Events the handlers of one WebSocket
--     and of the timers, which are stamped with the generation that made them.
--   * Thread (api/threadProjection.ts, api/threadDerived.ts, api/threadTracker.ts, api/threadWatch.ts,
--     api/watchRetry.ts, schemas/orchestration/boundedSnapshot.ts): one thread as its subscription tells
--     it. Thread/Records has the records with the fields that this code reads, Thread/Projection applies
--     an event to a projection, Thread/Derived reads requests, outcomes and the active run off it,
--     Thread/Tracker is `ThreadProjectionTracker`, with its calls in Thread/Calls, and Thread/Watch is the
--     loop of `watchThread`, of which every item, end and failure of the stream is an Event.
--   * Turn (api/turns.ts, api/turnAdoption.ts): the handle of a turn that was dispatched. Turn/Adoption
--     decides what run took the message, Turn/Handle is the class `Turn` with its promise `completion` and
--     one Channel for each consumer of `events()`; the items of `deps.watch` are events.
--   * Schedule/Update (api/scheduledTaskUpdate.ts, schemas/scheduledTask.ts): the payload that updates a
--     scheduled task, and what the write schema of schemas/scheduledTaskSchedule.ts refuses of it. What the server makes of it is a parameter of Schedule/Kept, with the rules that
--     the comments of schemas/scheduledTaskSchedule.ts document.
--   * Profiles (profiles/profileConfig.ts, profiles/profileManager.ts, profiles/environment.ts): the file
--     config.json with the named servers, in Profiles/Config, and `ProfileManager`, every method of which
--     is an operation of Profiles/Manager. `new URL` is a parameter, of which the theorems assume that
--     an origin it gives parses to itself.
--   * Follow (packages/t3code-cli/src/execution: followObservation.ts, followStream.ts, deadline.ts): what
--     a command that waits for a run sees of it. Follow/Observation is `FollowObservation`, which
--     applies the events of Thread/Watch to a projection of its own, Follow/Stream is `FollowStream`,
--     which prints texts as they grow, and Follow/Deadline is the chain of timers of a long timeout.
--     Follow/Run is `followRun` (follow.ts), which puts the two together: its loop over the watch, its
--     race with the turn, the deadline and the signals, as events, and its exit code, from Follow/Exit
--     (packages/t3code-cli/src/errors.ts).
--   * Redact (internal/redact.ts): what an error keeps of a value. Redact/Patterns has the regular
--     expressions, as functions on code points, and Redact the walk over a value of JSON.
--   * Proxy/Bridge (packages/t3code-proxy/src/bridge.ts): one direction of a bridge between two sockets,
--     with the pause of the source while too much is unsent. Proxy/Byline and Proxy/Frames
--     (byline.ts, frames.ts) put the line of the sender on the messages of a client and take it off a
--     text that is edited; Proxy/Units has the text operations that they use.
--
-- JavaScript runs one event at a time, so an interleaving is a sequence of events, and the theorems
-- quantify over all of them. A promise is a ticket, a number that its call brings along; the log
-- has what was settled, sent and told, the newest first. The ids of requests come from a parameter
-- `next_id`, which stands for `idGenerator` (internal/ids.ts draws a random UUID); a theorem on it
-- assumes that it does not repeat an id. Where `await socket.connect()` has settled, a call is one
-- event, and a stream goes on with a second event after that of its first `next`. What a WebSocket and
-- the runtime promise is the predicate IsValid of Socket/Progress: a socket opens once, it hears and
-- closes while it is attached, and neither loading nor calling its constructor throws; what follows
-- where that throws is in Socket/Stall. All functions are structurally recursive: there is no fuel.
--
-- Not modelled: the text of messages and log lines, delays of timers (internal/backoff.ts), the
-- parsing of pull request URLs (api/pullRequestKeys.ts, two parameters of
-- Thread/Projection), the order of `localeCompare` (a parameter of Thread/Derived), and the layers
-- above: HTTP, the other facades, the schemas, the rest of the CLI, the MCP server, the stores
-- of credentials and the service of the proxy.
pub mod Prelude
pub mod Channel
pub mod Json
pub mod Errors
pub mod Wire
pub mod Rpc
pub mod Socket
pub mod Thread
pub mod Proxy
pub mod Schedule
pub mod Turn
pub mod Profiles
pub mod Follow
pub mod Redact
