-- ===== src/Daemon/Connection.antt =====
-- crates/server/daemon-core/src/connection.rs: what the daemon does with the frames of a client that is
-- connected, behind the encrypted channel. Each handler runs between two waits of its task. `sent` are the
-- frames that went out, oldest first.
pub mod Answers
pub mod Output
pub mod Streams
pub mod Loop
use cli_pocket.Prelude.{
  ℕ, zero, suc, ◌+◌, ◌-◌, ◌/◌, ◌%◌, min, ◌≡◌, Bool, true, false, String, Option, none, some, List,
  [], ◌∷◌, ◌++◌, Result, ok, err, leb, ltb, ◌==◌, if◌then◌else◌, length, u64_max,
}
use cli_pocket.Prelude.Dict.{Dict, lookup, insert, values}
use cli_pocket.Proto.Wire.{Bytes}
use cli_pocket.Proto.Snapshot.{Snapshot, AnchorState, render_prefix_from_anchor}
use cli_pocket.Proto.Frames.{
  TerminalId, StreamId, TerminalInfo, ServerConfig, ServerInfo, TerminalCreateParams, ProtocolError,
  ByeReason, RequestBody, RequestFrame, ResponseBody, ResponseError, OpenTerminalAck, HistoryPage,
  Frame, Hello, HelloOk, StreamDataFrame, response, protocol_version,
}
use cli_pocket.Pty.Ring.{ScrollbackRing, HistorySlice, snapshot_with_max_bytes, history_page}
use cli_pocket.Daemon.Errors.{DaemonError, DaemonResult, config, internal}
use cli_pocket.Daemon.Sessions.{
  Terminal, SessionManager, create, attach, kill, list, reap, write_input, resize,
}

abbrev pub u32_max : ℕ
u32_max = 4294967295

abbrev pub open_terminal_max_bytes : ℕ
open_terminal_max_bytes = 49152

-- What is outside: why a frame does not go out, if so (`EncryptedChannel::send_frame`, which encodes,
-- encrypts and sends); the new terminal and the answers of the system to its being resized or killed;
-- whether the configuration is saved; the time; the texts of errors.
pub record Outside (P : Type 0) : Type 0 where
  pub refused : Frame → Option DaemonError
  pub spawn : TerminalCreateParams → ℕ → DaemonResult (TerminalId × Terminal P)
  pub resized : TerminalId → ℕ → ℕ → Bool
  pub killed : TerminalId → DaemonResult (Unit {0})
  pub saved : ℕ → DaemonResult (Unit {0})
  pub now : ℕ
  pub display : ProtocolError → String
  pub to_string : DaemonError → String

-- `streams` has the terminal of each attached stream. The rest of a stream is the terminal itself, which
-- the session manager has, and the task that forwards its output.
pub record Connection (P : Type 0) : Type 0 where
  pub manager : SessionManager P
  pub streams : Dict TerminalId
  pub next_local_stream_id : StreamId
  pub scrollback_bytes : ℕ
  pub config_path : Bool
  pub sent : List Frame

-- The terminal of an attached stream, as `streams.map.values().find` finds it.
abbrev pub attached_to : TerminalId → List TerminalId → Bool
attached_to id [] = false
attached_to id (other ∷ rest) = if other == id then true else attached_to id rest

abbrev pub find_info : TerminalId → List TerminalInfo → Option TerminalInfo
find_info id [] = none
find_info id (info ∷ rest) =
    let later = find_info id rest in if info.terminal == id then some info else later

abbrev pub start_of : Snapshot → ℕ
start_of snapshot = snapshot.head_seq - length snapshot.bytes

-- The bytes of a character in UTF-8.
abbrev pub utf8 : ℕ → Bytes
utf8 c =
    if ltb c 128
    then c ∷ []
    else if ltb c 2048
    then (192 + c / 64) ∷ (128 + c % 64) ∷ []
    else if ltb c 65536
    then (224 + c / 4096) ∷ (128 + c / 64 % 64) ∷ (128 + c % 64) ∷ []
    else (240 + c / 262144) ∷ (128 + c / 4096 % 64) ∷ (128 + c / 64 % 64) ∷ (128 + c % 64) ∷ []

-- `String::into_bytes`, of the characters of a string.
abbrev pub into_bytes : List ℕ → Bytes
into_bytes [] = []
into_bytes (c ∷ rest) = utf8 c ++ into_bytes rest

abbrev pub page_of : TerminalId → HistorySlice → HistoryPage
page_of terminal slice = record {
  terminal_id = terminal;
  start_seq = slice.start_seq;
  end_seq = slice.end_seq;
  bytes = slice.bytes;
  has_more = slice.has_more;
}

module _ {P : Type 0} where
  unfoldable pub server_config_from_deps : Connection P → DaemonResult ServerConfig
  server_config_from_deps c =
      if leb c.scrollback_bytes u32_max
      then ok (record { scrollback_bytes = c.scrollback_bytes })
      else err (config "limits.scrollback_bytes exceeds u32::MAX")

  abbrev pub config_saved :
      DaemonResult (Unit {0})
      → ServerConfig
      → Connection P
      → DaemonResult ServerConfig × Connection P
  config_saved (err e) new c = (err e, c)
  config_saved (ok _) new c = (ok new, record c { scrollback_bytes = new.scrollback_bytes })

  abbrev pub changed :
      Option (Terminal P) → TerminalId → (Terminal P → Terminal P) → Connection P → Connection P
  changed none id f c = c
  changed (some t) id f c = record c {
    manager = record c.manager { terminals = insert id (f t) c.manager.terminals };
  }

  abbrev pub ack_of : StreamId → TerminalInfo → Terminal P → Snapshot → OpenTerminalAck
  ack_of stream info t snapshot = record {
    stream_id = stream;
    info = info;
    start_seq = start_of snapshot;
    end_seq = snapshot.head_seq;
    render_bytes = into_bytes (render_prefix_from_anchor snapshot.anchor_state) ++ snapshot.bytes;
    has_more_history = (history_page t.ring (some (start_of snapshot)) 1).has_more;
  }

  -- `clear_attached_streams`, the next number, and the reaper.
  abbrev pub cleared : List TerminalId → Connection P → Connection P
  cleared reaped c = record c {
    manager = reap reaped c.manager;
    streams = [];
    next_local_stream_id = min (c.next_local_stream_id + 1) u32_max;
  }

  -- The stream is attached once the answer is sent.
  abbrev pub attached_after :
      StreamId
      → TerminalId
      → DaemonResult (Unit {0}) × Connection P
      → DaemonResult (Unit {0}) × Connection P
  attached_after stream terminal (ok _, c) =
      (ok tt, record c { streams = insert stream terminal c.streams })
  attached_after stream terminal (err e, c) = (err e, c)

module _ {P : Type 0} (out : Outside P) where
  abbrev pub delivered :
      Option DaemonError → Frame → Connection P → DaemonResult (Unit {0}) × Connection P
  delivered none frame c = (ok tt, record c { sent = c.sent ++ frame ∷ [] })
  delivered (some e) frame c = (err e, c)

  unfoldable pub send_frame : Frame → Connection P → DaemonResult (Unit {0}) × Connection P
  send_frame frame c = delivered (out.refused frame) frame c

  abbrev pub send_ok_response :
      ℕ → ResponseBody → Connection P → DaemonResult (Unit {0}) × Connection P
  send_ok_response id body c = send_frame (response (record { id = id; result = ok body })) c

  abbrev pub send_error_response :
      ℕ → ProtocolError → Connection P → DaemonResult (Unit {0}) × Connection P
  send_error_response id code c =
      send_frame
        (response
          (record { id = id; result = err (record { code = code; message = out.display code }) }))
        c

  -- The answer to a request whose work gave a result.
  abbrev pub answer_with :
      {A : Type 0}
      → ℕ
      → (A → ResponseBody)
      → DaemonResult A
      → Connection P
      → DaemonResult (Unit {0}) × Connection P
  answer_with id body (ok a) c = send_ok_response id (body a) c
  answer_with id body (err e) c = send_error_response id (ProtocolError.other (out.to_string e)) c

  -- `usize` holds every `u32`.
  unfoldable pub apply_server_config_update :
      ServerConfig → Connection P → DaemonResult ServerConfig × Connection P
  apply_server_config_update new c =
      config_saved (if c.config_path then out.saved new.scrollback_bytes else ok tt) new c

  -- Does `f` to the terminal, which may no longer be registered, and acknowledges it.
  abbrev pub on_attached :
      ℕ
      → TerminalId
      → (Terminal P → Terminal P)
      → ResponseBody
      → Connection P
      → DaemonResult (Unit {0}) × Connection P
  on_attached id terminal f body c =
      if attached_to terminal (values c.streams)
      then send_ok_response id body (changed (lookup terminal c.manager.terminals) terminal f c)
      else send_error_response id ProtocolError.unknown_terminal c

  abbrev pub opened :
      ℕ
      → TerminalId
      → StreamId
      → Terminal P
      → Option TerminalInfo
      → Connection P
      → DaemonResult (Unit {0}) × Connection P
  opened id terminal stream t none c = send_error_response id ProtocolError.unknown_terminal c
  opened id terminal stream t (some info) c = attached_after stream terminal (
      send_ok_response id
        (ResponseBody.open_terminal
          (ack_of stream info t (snapshot_with_max_bytes t.ring open_terminal_max_bytes)))
        c)

  -- `reaped` are the terminals that the reaper takes out after `attach` and before `list`.
  abbrev pub opening :
      ℕ
      → TerminalId
      → List TerminalId
      → Option (Terminal P)
      → Connection P
      → DaemonResult (Unit {0}) × Connection P
  opening id terminal reaped none c = send_error_response id ProtocolError.unknown_terminal c
  opening id terminal reaped (some t) c =
      opened id terminal c.next_local_stream_id t
        (find_info terminal (list (reap reaped c.manager))) (cleared reaped c)

  unfoldable pub handle_open_terminal_request :
      ℕ → TerminalId → List TerminalId → Connection P → DaemonResult (Unit {0}) × Connection P
  handle_open_terminal_request id terminal reaped c =
      opening id terminal reaped (attach terminal c.manager) c

  abbrev pub paged :
      ℕ
      → TerminalId
      → Option ℕ
      → ℕ
      → Option (Terminal P)
      → Connection P
      → DaemonResult (Unit {0}) × Connection P
  paged id terminal before max_bytes none c =
      send_error_response id ProtocolError.unknown_terminal c
  paged id terminal before max_bytes (some t) c =
      send_ok_response id
        (ResponseBody.read_history (page_of terminal (history_page t.ring before max_bytes))) c

  unfoldable pub handle_history_read_request :
      ℕ → TerminalId → Option ℕ → ℕ → Connection P → DaemonResult (Unit {0}) × Connection P
  handle_history_read_request id terminal before max_bytes c =
      paged id terminal before max_bytes (attach terminal c.manager) c

  abbrev pub created :
      ℕ
      → DaemonResult TerminalInfo × SessionManager P
      → Connection P
      → DaemonResult (Unit {0}) × Connection P
  created id (r, manager) c =
      answer_with id ResponseBody.create_terminal r (record c { manager = manager })

  abbrev pub configured :
      ℕ → DaemonResult ServerConfig × Connection P → DaemonResult (Unit {0}) × Connection P
  configured id (r, c) = answer_with id ResponseBody.set_server_config r c

  unfoldable pub handle_request_body :
      ℕ → RequestBody → List TerminalId → Connection P → DaemonResult (Unit {0}) × Connection P
  handle_request_body id RequestBody.list_terminals reaped c =
      send_ok_response id (ResponseBody.list_terminals (list c.manager)) c
  handle_request_body id (RequestBody.create_terminal params) reaped c =
      created id (create (out.spawn params c.scrollback_bytes) out.now c.manager) c
  handle_request_body id (RequestBody.open_terminal terminal) reaped c =
      handle_open_terminal_request id terminal reaped c
  handle_request_body id (RequestBody.read_history terminal before max_bytes) reaped c =
      handle_history_read_request id terminal before max_bytes c
  handle_request_body id (RequestBody.kill_terminal terminal) reaped c =
      answer_with id (λ _. ResponseBody.kill_terminal)
        (kill (out.killed terminal) terminal c.manager) c
  handle_request_body id RequestBody.get_server_config reaped c =
      answer_with id ResponseBody.get_server_config (server_config_from_deps c) c
  handle_request_body id (RequestBody.set_server_config new) reaped c =
      configured id (apply_server_config_update new c)
  handle_request_body id (RequestBody.send_input terminal bytes) reaped c =
      on_attached id terminal (write_input bytes) ResponseBody.send_input c
  handle_request_body id (RequestBody.resize_terminal terminal cols rows) reaped c =
      on_attached id terminal (resize (out.resized terminal cols rows) cols rows)
        ResponseBody.resize_terminal c

  unfoldable pub handle_request :
      RequestFrame → List TerminalId → Connection P → DaemonResult (Unit {0}) × Connection P
  handle_request request reaped c = handle_request_body request.id request.body reaped c
