-- ===== src/Lib.antt =====
-- cli-pocket: a remote terminal workspace. A daemon on a host runs terminals; a client on another
-- device attaches to them, through a relay that joins the two connections into a pair.
--
-- The parts, from the terminal outwards, and how they interact.
--   Pty/Parser (crates/server/pty/src/parser.rs): `AnchorTracker`, which reads the output of a terminal
--     and keeps the cursor, the attributes, the modes, the charsets and the title. The crate vte, which
--     cuts the bytes into calls of `Perform`, is the parameter `Vte`: a state, and the calls that each
--     byte makes it make. `perform` is one call, `csi`, `execute_byte`, `sgr`, `mode_set`,
--     `parse_osc_title` are the methods of the same names, `advance_byte` and `advance` feed bytes.
--   Pty/Ring (crates/server/pty/src/ring.rs): `ScrollbackRing`, the window of the output that is kept for
--     clients that attach or come back, with anchors, the states of the tracker at some offsets. Each
--     method is a function of the same name; `evict` is the loop of `maybe_evict`. A `drain` beyond the
--     end of the bytes panics in Rust; here the function has no result then. The loop runs on fuel, one
--     turn for each byte of the window and one more, which is enough since each turn drops a byte.
--   Pty/Processor (crates/server/pty/src/terminal.rs): `ServerOutputProcessor`, which takes queries and
--     titles out of the output before the ring gets it. `verdict` is the chain of tests in the loop of
--     `process`, `scan` is the loop, with a turn for each byte as fuel, enough since each turn moves on.
--   Proto/Snapshot (crates/shared/proto/src/snapshot.rs): the state at an anchor and the escape sequences
--     that give it to a terminal. Text is the list of its code points; a number is written with at most
--     twenty digits, which is enough for 64 bits.
--   Proto/Wire and Proto/Codec (crates/shared/proto/src/relay.rs, codec.rs): relay frames. Postcard is the
--     parameter `Postcard`; `ReadsBack` is what its documentation promises.
--   Relay/Caps, Relay/Registry, Relay/Pairs (crates/relay/relay-core/src/caps.rs, registry.rs, pairs.rs,
--     guillotine.rs): the limits, the registered servers, and the pairs with their sweeper. A
--     compare-and-swap loop has the values that it finds as an argument, so that the other threads may
--     do anything in between. Relay/Caps/Tickets has all interleavings as a step relation.
--   Relay/State and Relay/Forward (crates/relay/relay-core/src/lib.rs, forward.rs): the tasks of the
--     connections, as actions on the shared state that end, fail or panic. The messages of a socket are a
--     list with the instants of their arrival; the channels' contents are the list `sent`. At a full queue
--     the task of a connection waits, which delays its actions and is left out; the sweeper waits in the
--     middle of a sweep, which is `waits` of the type `Progress`, and `has_room` says at which queues.
--   Daemon/Resume (crates/server/daemon-core/src/resume.rs): the tokens by which a client takes up a
--     session. HMAC-SHA256 is the parameter `Mac`.
--   Daemon/Clients (crates/server/daemon-core/src/client_db.rs): the paired clients and the revoked ones.
--     Keys are numbers, and writing a file is a Boolean that says whether it succeeds. Daemon/Clients/Files
--     has the two files and the task that reloads them, whose turn is cut in two where calls may come in.
--   Proto/Frames (crates/shared/proto/src/frame.rs, hello.rs, error.rs, terminal.rs): what a client and a
--     daemon say to each other: requests, responses, stream data and events.
--   Daemon/Errors, Daemon/Sessions (crates/server/daemon-core/src/session.rs, and of
--     crates/server/pty/src/terminal.rs what a session shares): `SessionManager`. The terminals are shared by
--     their numbers; `create` has its two halves, before and after the terminal is spawned, since other
--     connections run in between.
--   Daemon/Connection (crates/server/daemon-core/src/connection.rs): one connection of the daemon, its
--     answers to requests (Answers), the output that it passes on (Output), its streams (Streams), and the
--     loop (Loop). What it asks of others is the parameter `Outside`; the terminals that the reaper removes
--     while a request is handled are `reaped`. `pieces`, the cutting of output into frames, has the number
--     of its bytes as fuel, enough since each frame takes a byte at least. Daemon/Sample has test data.
--   Daemon/Handshake (crates/server/daemon-core/src/handshake.rs): whom the daemon lets in, by
--     `responder_handshake` and `anonymous_responder_handshake`. The Noise responders of crates/shared/crypto
--     are the parameter `Noise`, and what others do to the client database meanwhile is a function.
--   Daemon/Dialer (crates/server/daemon-core/src/relay_dialer.rs): the daemon's connection to the relay, the
--     transports of its pairs, and the delays between the attempts. What becomes of a send on a channel, the
--     receiver's doing, is a `Sending` that comes with each item of the stream.
--   Client/Reconnect, Client/Heartbeat, Client/Input (crates/client/client-core/src/reconnect.rs,
--     session.rs): the delays of reconnection, the heartbeat, and the joining of input. `collect` is the
--     loop of `batch_input_command` over the commands that arrive in time.
--   Client/Errors, Client/Runtime (crates/client/client-core/src/error.rs, session.rs): `RuntimeState`, the
--     frames for the commands of the user (Requests), and the handling of the frames of the daemon
--     (Responses, Streams). A reply is the number of its channel, and `answers` has what the channels were
--     given. `Run` (Replies) is a connection as a relation of its steps.
--   Client/Connection (crates/client/client-core/src/session.rs): `run_one_connection` with its queues, over
--     a list of turns: what the heartbeat, the channels and the transport do in each. `IsStable` (Moves) has
--     the moves that a turn is made of.
--   Client/Session (crates/client/client-core/src/session.rs): `run_session_loop`, over the list of what
--     happens to its attempts to connect.
--   Exchange: a client and a daemon together, the frames of one being handled by the other.
-- Prelude has the lists, words, byte strings, results and maps that these share.
--
-- Numbers are the native ones; 16-bit and 64-bit additions that saturate or wrap say so, and `usize` has
-- 64 bits. Identifiers, channels and instants are numbers.
--
-- Not modelled: metrics, log lines and the timers; the sockets, the terminal process and the HTTP server;
-- the cryptography of handshakes and frames (crates/shared/crypto), which rests on the crates snow and
-- spake2; JSON and the replacing of files; the settings, and the bindings that applications use.
-- Proto/Codec/Sample is a codec for tests only.
pub mod Prelude
pub mod Proto
pub mod Relay
pub mod Daemon
pub mod Pty
pub mod Client
pub mod Exchange
