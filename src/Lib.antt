-- ===== src/Lib.antt =====
-- Verification of vscreen, a server that gives browser instances to agents and clients as
-- streams.
--
-- The program's parts. Agents call tools that act on a browser instance. The lock manager
-- (crates/vscreen-server/src/lock_manager.rs) says which session may act on an instance: one
-- session with the exclusive lock, or any number of observers. The RTSP server
-- (crates/vscreen-rtsp) sends an instance's video and audio to clients: a connection reads requests
-- and answers them, the requests act on sessions, a session has tracks, a track has a stream, a
-- stream turns frames into payloads and payloads into RTP packets, and its health decides about it.
-- The server keeps bounded buffers of screenshots, actions and console lines for the agents
-- (crates/vscreen-server/src/memory.rs), and the registry of the instances
-- (crates/vscreen-server/src/state.rs), whose configuration vscreen-core validates. It asks a
-- vision model about screenshots (vision.rs), and drives the browser over a WebSocket
-- (crates/vscreen-cdp). Its HTTP API (handlers.rs, behind the middleware that asks for a token)
-- and its tools for agents (mcp) act on all of these.
--
-- The files:
--   Base: names that all modules share; tests on numbers, lists, association lists for the hash
--   maps, bytes, and texts as lists of bytes (Base/Text).
--   Core/Config, Core/Instance, Core/Errors: crates/vscreen-core/src/config.rs, instance.rs and
--   error.rs, with the error of the HTTP API that each error becomes.
--   Locks/State: the lock state of one instance (also crates/vscreen-core/src/instance.rs).
--   Locks/Acquire: `acquire_inner`. Locks/Promote: `try_promote`. Locks/Release:
--   `release_with_token`, `remove_from_queue` and `reap_expired` for one instance. Locks/Access:
--   `renew_with_token`, `check_access_with_token`, `is_held_by`, `is_auto_acquired`.
--   Locks/Range, Locks/Waits: the calls that take a time to live with the end of chrono's range, which
--   is a parameter, and `acquire_or_wait` whole, with what other threads do meanwhile as an argument.
--   Elsewhere `acquire_inner` and its callers are the calls within that range.
--   Locks/Manager: the manager's methods over all instances. `acquire_or_wait` is the sequence
--   `acquire`, `enqueue`, and `acquire` again or `give_up`; `release_with_token` also stands in
--   the two steps `release_entry` and `cleanup`, so that the steps of other threads can come in
--   between. A step under one entry of the map is atomic, as the map's entry guard makes it.
--   Rtsp/H264, Rtsp/Vp9: h264_packetizer.rs and vp9_packetizer.rs.
--   Rtsp/Health: health.rs. Rtsp/Session: session.rs, its manager in Rtsp/Session/Manager.
--   Rtsp/Quality: quality.rs. Rtsp/Sdp: sdp.rs.
--   Rtsp/Parser: parser.rs, with Parser/TransportHeader and Parser/Url for the headers and the
--   URLs, and Rtsp/Response for the responses.
--   Rtsp/Handler: handler.rs, its types in Rtsp/Reply and SETUP in Rtsp/Setup. A handler takes the
--   sessions and gives the response, the sessions and the aborted tasks. Handler/Cases is the
--   induction on the ways in which a request can end.
--   Rtsp/Connection: server.rs, the loop of one connection over all the bytes that its client
--   sends. Rtsp/Watchdog: a round of `run_watchdog` in the same file.
--   Rtsp/Transport: transport.rs, with the delivery in Output, the streams in Video and Audio, and
--   RTCP in Reports.
--   Server/Memory: memory.rs. Server/Registry: crates/vscreen-server/src/state.rs, where `create`
--   also stands in its two steps. Server/Vision: vision.rs, `extract_json`.
--   Server/Cursor: `CursorPosition` of crates/vscreen-server/src/supervisor.rs.
--   Server/Advisor: crates/vscreen-server/src/mcp/advisor.rs.
--   Cdp/Backoff, Cdp/Pending: crates/vscreen-cdp/src/client.rs, `backoff_delay` and the table of
--   the requests that wait for a response. Cdp/Input: crates/vscreen-cdp/src/input.rs, with the
--   events of crates/vscreen-core/src/event.rs. Cdp/Pages: the commands of client.rs that wait for
--   the answer of the page, which is a parameter. Cdp/Screencast: screencast.rs, with what client.rs
--   does for a screencast: its requests, a new connection, and the event of a frame.
--   Mcp/Gate: `require_lock` and `auto_acquire` of crates/vscreen-server/src/mcp/mod.rs, over the
--   lock manager. Mcp/LockTool: the tool `vscreen_lock` of the same file.
--   Http/Auth: crates/vscreen-server/src/middleware.rs. Http/State: what the handlers of
--   crates/vscreen-server/src/handlers.rs share. Http/Instances, Http/Memories, Http/Streams,
--   Http/Pages and Http/Input: the handlers, by what they act on. Http/Browser: what supervisor.rs
--   does for them; a supervisor is there the list of the input requests that were queued for its browser, that of the
--   commands that its page was asked, the cursor and the buffers; a parameter says which requests the channel to the
--   browser's connection takes and what the page answers. A request that was queued can still be lost.
--   The files below these hold lemmas and theorems and are named for what they prove; the files
--   whose names end in Tests hold runs on concrete inputs.
--
-- Conventions. A method that changes its object gives the new one. Times, UUIDs, tokens, the SSRC
-- and what the network takes are arguments. A UUID is a number, and a text where the RTSP server
-- reads it; a time is a number of milliseconds; an `f64` is an exact fraction, and in the input
-- handlers a value of a type with operations that are parameters. Counters wrap as in a release
-- build. A loop over a slice with an index is recursion on the rest of the slice. A text that the RTSP server reads or
-- writes is the list of its bytes in UTF-8, and `to_lowercase` is the one for ASCII. Where the rest
-- shrinks by a computed size (`fragment_loop`, `continuation_loop`), the recursion has fuel, the
-- length of the data, and the result is `none` if the fuel runs out; each round takes at least one
-- byte. The loop of a connection (`serve`) has fuel too, the number of the bytes sent and one more.
--
-- Not modelled: sockets, tasks and cancellation, logging and metrics; the bodies of the sender
-- tasks and the accept loop of the RTSP server; the tools of mcp other than the one for locks, and
-- the handlers of the HTTP API that hand on what a script in the page gives; the pipelines of a
-- supervisor; the WebSocket of the browser, the codecs, the WebRTC transport, the command line, and the tools in TypeScript.
pub mod Base
pub mod Core
pub mod Http
pub mod Locks
pub mod Mcp
pub mod Rtsp
pub mod Server
pub mod Cdp
