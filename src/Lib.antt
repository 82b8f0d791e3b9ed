-- ===== src/Lib.antt =====
-- Fake Artist: the game core of the browser client, frontend/p2p and the provider in
-- frontend/components that puts it together, as a model with its theorems.
--
-- One browser is the host and runs the engine; the others are guests. A command goes through a
-- transport to the engine, which changes the game's state and emits events: a state for everybody,
-- sanitized, a stroke for everybody, a role, a welcome or an error for one player. The host bridge
-- turns the events into frames for the guests, writes strokes and states into the log, and answers
-- guests that have missed strokes. Every browser, the host's too, keeps a replica of the state for
-- its user interface. Checkpoints of the state go to the server. When the host is gone, the guests
-- elect another: one of them is promoted and brings up an engine from what it has seen.
--
-- Files and code:
-- * Prelude and below: lists, Boolean tests, strings of UTF-16 code units, the stable sort.
-- * Models, Protocol: models.ts and protocol.ts, types of the state, commands, events and frames.
-- * Sanitize, Sanitize/Secrecy: sanitize.ts, and what a public state is.
-- * Engine/State, Random, Roster, Tally, Round, Play, Dispatch: the fields and methods of class
--   `Engine` in engine.ts, from `dispatch` to `broadcastState`; a method `handleJoin` is `handle_join`.
--   `prepareRoundServer` is `request_draw` up to its await and `finish_draw` behind it. The calls of
--   listeners are the list `out`, in their order.
-- * Engine/Frame, Flow, Secrecy, Told, Told/*, Undone, Invariant, Draws, Cards, Steps, Rounds, Verdict, Rejoin, Tally/*,
--   Random/Shuffle: the theorems on it.
-- * Replica, Replica/CatchUp: replica.ts; Replica/Order, Progress, Drain, Waiting: the order
--   of strokes, that they get through, the buffer, a request that is in flight.
-- * Transport, Transport/Wire: transport.ts, the three transports and the translation of frames.
-- * HostBridge, HostBridge/Secrecy, Authority, Sync, Wiring, Wiring/Closing: hostBridge.ts, what it sends,
--   whom a peer can speak for, how a guest catches up, and the subscriptions, also of checkpoint.ts.
-- * Election, Election/Order, Winner, Agreement: election.ts.
-- * Log, Log/Ranges, Meta, Clearing, Refinement: log.ts, with the stores of IndexedDB as lists of keys
--   and values.
-- * Checkpoint, Checkpoint/Flushing: checkpoint.ts, when a snapshot is posted.
-- * PeerHub, PeerHub/Candidates, Closing: peerHub.ts, the peers, their candidates, and lost connections.
-- * Signaling, Signaling/Backoff, Closing: signaling.ts, the socket that is opened again.
-- * Session, Session/Guest, Host, Switch: frontend/components/P2pGameProvider.jsx, the session of one
--   browser. `wireHost` and `wireGuest` with their handlers are `wire_host` and `wire_guest` with one
--   function for each handler; the fields of `refs` are those of `Host` and `Guest`. Session/Frame,
--   Failover, Mute, Mute/Events, Resync, Relaying, Succession, Lost, Creation: the theorems on it.
-- * Crypto, Crypto/Bits, Hex and EngineHttp: crypto.ts and engineHttp.ts, the commitment to the fake and
--   the drawer that asks the server.
-- * Canvas, Canvas/Events, Clamp, Sound, Submit, Turn: frontend/components/DrawCanvas.jsx, pointers and
--   view, over an interface of numbers.
-- * Views, Views/Scores, Buttons: frontend/components, what the pages show of a state and which commands
--   their forms send, against the engine.
-- * Tests and below: small runs, and the theorems at concrete inputs.
--
-- Parameters: `Env` holds the random numbers, the time of ids and the Unicode tables of
-- `toLowerCase`; the server's answer to a draw is an input of `finish_draw`. `World` adds the
-- descriptions that the browser makes for a peer, the stored name and the time. The
-- digest and UTF-8 are arguments of the commitment, and the numbers of the canvas a record of their
-- operations; its bounds need their order alone, not exact arithmetic. Decimal and hexadecimal
-- numerals recurse on fuel, one more than the number, and a number has at most as many digits.
--
-- Left out: listeners that call back into the engine before it returns, and the sharing of objects
-- between the engine and the host's own replica; fractions and NaN in configuration messages;
-- JavaScript's order of integer-like keys in the record of votes, on which no result depends;
-- what runs between the two sides of an await, but for the draw and the posts; the browser's connections, sockets,
-- timers and painting (exportPng.ts and the markup of the components), the handlers that
-- a promoted guest leaves on the signaling client; the demotion of a host, which leaves its handlers
-- there as well; and the server.
pub mod Prelude
pub mod Models
pub mod Protocol
pub mod Sanitize
pub mod Engine
pub mod Replica
pub mod Transport
pub mod HostBridge
pub mod Election
pub mod Log
pub mod Checkpoint
pub mod PeerHub
pub mod Signaling
pub mod Canvas
pub mod Crypto
pub mod EngineHttp
pub mod Session
pub mod Views
mod Tests
