-- ===== src/Proto/Frames.antt =====
-- crates/shared/proto/src/frame.rs, hello.rs, error.rs and terminal.rs: what a client and a daemon send
-- each other within the encrypted channel. Identifiers, UUIDs too, are numbers; a record with a single
-- field (`Frame`, `EventFrame`, the newtypes) is that field.
use cli_pocket.Prelude.{ℕ, Bool, String, Option, List, Result}
use cli_pocket.Proto.Wire.{Bytes}

abbrev pub protocol_version : ℕ
protocol_version = 1

abbrev pub TerminalId : Type 0
TerminalId = ℕ

abbrev pub StreamId : Type 0
StreamId = ℕ

pub data ProtocolError : Type 0 where
  unknown_terminal unauthorized backpressure_exceeded protocol_mismatch : ProtocolError
  resource_exhausted resume_stale rate_limited : ProtocolError
  invalid_param other : String → ProtocolError

pub data ByeReason : Type 0 where
  normal revoked server_shutdown : ByeReason
  protocol_error : ProtocolError → ByeReason

pub data KillSignal : Type 0 where
  term hup kill : KillSignal

pub record TerminalCreateParams : Type 0 where
  pub cols : ℕ
  pub rows : ℕ
  pub cwd : Option String
  pub cmd : List String
  pub env : List (String × String)

pub record ServerConfig : Type 0 where
  pub scrollback_bytes : ℕ

pub record TerminalInfo : Type 0 where
  pub terminal : TerminalId
  pub cols : ℕ
  pub rows : ℕ
  pub created_at_unix_ms : ℕ
  pub label : Option String
  pub attached_clients : ℕ

pub record ResumeAttachment : Type 0 where
  pub terminal : TerminalId
  pub last_seq : ℕ

pub record ResumeToken : Type 0 where
  pub session_id : ℕ
  pub attachments : List ResumeAttachment

pub record Hello : Type 0 where
  pub protocol_min : ℕ
  pub protocol_max : ℕ
  pub resume : Option ResumeToken

pub record ServerInfo : Type 0 where
  pub server_version : String
  pub server_label : Option String

pub record HelloOk : Type 0 where
  pub protocol : ℕ
  pub server_info : ServerInfo
  pub session_id : ℕ
  pub resumed : Bool

pub data RequestBody : Type 0 where
  list_terminals : RequestBody
  create_terminal : TerminalCreateParams → RequestBody
  open_terminal : TerminalId → RequestBody
  read_history : TerminalId → Option ℕ → ℕ → RequestBody
  kill_terminal : TerminalId → RequestBody
  get_server_config : RequestBody
  set_server_config : ServerConfig → RequestBody
  send_input : TerminalId → Bytes → RequestBody
  resize_terminal : TerminalId → ℕ → ℕ → RequestBody

pub record OpenTerminalAck : Type 0 where
  pub stream_id : StreamId
  pub info : TerminalInfo
  pub start_seq : ℕ
  pub end_seq : ℕ
  pub render_bytes : Bytes
  pub has_more_history : Bool

pub record HistoryPage : Type 0 where
  pub terminal_id : TerminalId
  pub start_seq : ℕ
  pub end_seq : ℕ
  pub bytes : Bytes
  pub has_more : Bool

pub data ResponseBody : Type 0 where
  list_terminals : List TerminalInfo → ResponseBody
  create_terminal : TerminalInfo → ResponseBody
  open_terminal : OpenTerminalAck → ResponseBody
  read_history : HistoryPage → ResponseBody
  kill_terminal : ResponseBody
  get_server_config : ServerConfig → ResponseBody
  set_server_config : ServerConfig → ResponseBody
  send_input resize_terminal : ResponseBody

pub record ResponseError : Type 0 where
  pub code : ProtocolError
  pub message : String

pub record RequestFrame : Type 0 where
  pub id : ℕ
  pub body : RequestBody

pub record ResponseFrame : Type 0 where
  pub id : ℕ
  pub result : Result ResponseError ResponseBody

pub record StreamDataFrame : Type 0 where
  pub stream_id : StreamId
  pub seq : ℕ
  pub offset : Option ℕ
  pub bytes : Bytes
  pub last : Bool

pub data EventBody : Type 0 where
  connected : EventBody
  disconnected : String → EventBody
  terminal_created : TerminalInfo → EventBody
  error : ProtocolError → String → EventBody

pub data Frame : Type 0 where
  hello : Hello → Frame
  hello_ok : HelloOk → Frame
  ping pong : ℕ → Frame
  bye : ByeReason → Frame
  request : RequestFrame → Frame
  response : ResponseFrame → Frame
  stream_data : StreamDataFrame → Frame
  event : EventBody → Frame
