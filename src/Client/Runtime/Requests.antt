-- ===== src/Client/Runtime/Requests.antt =====
-- crates/client/client-core/src/session.rs: the frames for the commands of the session and of a terminal
-- (`frame_for_session_command`, `frame_for_command`).
use cli_pocket.Prelude.{ℕ, Option, none, some, ◌==◌, if◌then◌else◌}
use cli_pocket.Proto.Frames.{
  TerminalId, TerminalCreateParams, ServerConfig, RequestBody, Frame, request,
}
use cli_pocket.Client.Input.{TerminalCmd, input, resize, kill}
use cli_pocket.Client.Runtime.{
  RuntimeState, TerminalHandle, RequestTxn, take_request_id, record_request, clear_active_terminal,
  active_terminal,
}

-- `Shutdown` is left out: the loop ends on it before it asks for a frame.
pub data SessionCommand : Type 0 where
  create_terminal : TerminalCreateParams → ℕ → SessionCommand
  open_terminal : TerminalId → ℕ → SessionCommand
  list_terminals : ℕ → SessionCommand
  read_history : TerminalId → Option ℕ → ℕ → ℕ → SessionCommand
  get_server_config : ℕ → SessionCommand
  set_server_config : ServerConfig → ℕ → SessionCommand
  kill_terminal : TerminalId → ℕ → SessionCommand

abbrev pub request_frame : ℕ → RequestBody → Frame
request_frame request_id body = request (record { id = request_id; body = body })

-- The transaction and the request of a command.
abbrev pub txn_of : SessionCommand → RequestTxn
txn_of (create_terminal params reply) = RequestTxn.create_terminal reply
txn_of (open_terminal target reply) = RequestTxn.open_terminal target reply
txn_of (list_terminals reply) = RequestTxn.list_terminals reply
txn_of (read_history terminal before max_bytes reply) = RequestTxn.read_history terminal reply
txn_of (get_server_config reply) = RequestTxn.get_config reply
txn_of (set_server_config config reply) = RequestTxn.set_config reply
txn_of (kill_terminal terminal reply) = RequestTxn.kill_terminal (some reply)

abbrev pub body_of : SessionCommand → RequestBody
body_of (create_terminal params reply) = RequestBody.create_terminal params
body_of (open_terminal target reply) = RequestBody.open_terminal target
body_of (list_terminals reply) = RequestBody.list_terminals
body_of (read_history terminal before max_bytes reply) =
    RequestBody.read_history terminal before max_bytes
body_of (get_server_config reply) = RequestBody.get_server_config
body_of (set_server_config config reply) = RequestBody.set_server_config config
body_of (kill_terminal terminal reply) = RequestBody.kill_terminal terminal

abbrev pub cleared_if_shown : Option TerminalHandle → RuntimeState → RuntimeState
cleared_if_shown none s = s
cleared_if_shown (some handle) s = clear_active_terminal s

abbrev pub cleared_if : Option TerminalId → TerminalId → RuntimeState → RuntimeState
cleared_if none terminal s = s
cleared_if (some active) terminal s = if active == terminal then clear_active_terminal s else s

-- What a command does besides: opening a terminal gives the old one up, and so does killing it.
abbrev pub give_up : SessionCommand → RuntimeState → RuntimeState
give_up (open_terminal target reply) s = cleared_if_shown s.terminal s
give_up (kill_terminal terminal reply) s = cleared_if (active_terminal s) terminal s
give_up _ s = s

unfoldable pub frame_for_session_command : SessionCommand → RuntimeState → Frame × RuntimeState
frame_for_session_command cmd s =
    let (request_id, counted) = take_request_id s in
    (
      request_frame request_id (body_of cmd),
      give_up cmd (record_request request_id (txn_of cmd) counted),
    )

abbrev pub framed : RequestTxn → RequestBody → RuntimeState → Option Frame × RuntimeState
framed txn body s =
    let (request_id, counted) = take_request_id s in
    (some (request_frame request_id body), record_request request_id txn counted)

-- Only for the terminal that is active.
abbrev pub filtered :
    Option TerminalHandle
    → TerminalId
    → RequestTxn
    → RequestBody
    → RuntimeState
    → Option Frame × RuntimeState
filtered none terminal txn body s = (none, s)
filtered (some handle) terminal txn body s =
    if handle.info.terminal == terminal then framed txn body s else (none, s)

unfoldable pub frame_for_command : TerminalCmd → RuntimeState → Option Frame × RuntimeState
frame_for_command (input terminal bytes) s =
    filtered s.terminal terminal RequestTxn.send_input_ack (RequestBody.send_input terminal bytes) s
frame_for_command (resize terminal cols rows) s =
    filtered s.terminal terminal RequestTxn.resize_ack
      (RequestBody.resize_terminal terminal cols rows) s
frame_for_command (kill terminal) s =
    filtered s.terminal terminal (RequestTxn.kill_terminal none)
      (RequestBody.kill_terminal terminal) s
