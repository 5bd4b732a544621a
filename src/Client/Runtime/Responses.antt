-- ===== src/Client/Runtime/Responses.antt =====
-- crates/client/client-core/src/session.rs: what a frame of the daemon does (`handle_inbound_frame` and
-- the functions that it calls). Each returns its result and the state, which keeps what was done before
-- an error.
use cli_pocket.Prelude.{
  ℕ, Bool, true, false, Option, none, some, List, [], ◌∷◌, Result, ok, err, ◌==◌, ltb,
  if◌then◌else◌,
}
use cli_pocket.Prelude.Dict.{lookup, insert, values}
use cli_pocket.Proto.Frames.{
  StreamId, TerminalInfo, ServerConfig, OpenTerminalAck, HistoryPage, ResponseBody, ResponseError,
  ResponseFrame, StreamDataFrame, EventBody, Frame, ByeReason, ProtocolError,
}
use cli_pocket.Client.Errors.{
  ClientError, ClientEvent, Message, said, about, proto, closed, rejected, told,
}
use cli_pocket.Client.Runtime.{
  RuntimeState, StreamState, ActiveTerminalState, TerminalHandle, RequestTxn, Value, Action,
  Handled, send, emit, exit_with, nothing, answer, active_stream, update_active_seq, store_info,
  set_active, clear_active, remove_pending, fail_txn,
}

abbrev pub refuse : Message → RuntimeState → Handled
refuse message s = (err (proto message), s)

abbrev pub resolve : ℕ → Value → RuntimeState → Handled
resolve reply value s = (ok nothing, answer reply (ok value) s)

abbrev pub failed :
    ℕ
    → ClientError
    → Option RequestTxn
    → RuntimeState
    → Result ClientError (Unit {0}) × RuntimeState
failed request_id error none s = (err (proto (about "response for unknown request " request_id)), s)
failed request_id error (some txn) s = (ok tt, fail_txn error txn s)

unfoldable pub fail_request :
    ℕ → ClientError → RuntimeState → Result ClientError (Unit {0}) × RuntimeState
fail_request request_id error s =
    let (found, rest) = remove_pending request_id s in failed request_id error found rest

abbrev pub store_all : List TerminalInfo → RuntimeState → RuntimeState
store_all [] s = s
store_all (info ∷ infos) s = store_all infos (store_info info s)

-- What each kind of response does with the transaction that was removed, by its `let … else`.
abbrev pub listed_response : ℕ → List TerminalInfo → Option RequestTxn → RuntimeState → Handled
listed_response id terminals (some (RequestTxn.list_terminals reply)) s =
    resolve reply (Value.listed terminals) s
listed_response id terminals found s =
    refuse (about "terminal list response for unknown request " id) s

abbrev pub created_response : ℕ → TerminalInfo → Option RequestTxn → RuntimeState → Handled
created_response id info (some (RequestTxn.create_terminal reply)) s = (
  ok (emit (ClientEvent.terminal_created info)),
  answer reply (ok (Value.created info)) (store_info info s),
)
created_response id info found s =
    refuse (about "terminal create response for unknown request " id) s

abbrev pub page_response : ℕ → HistoryPage → Option RequestTxn → RuntimeState → Handled
page_response id page (some (RequestTxn.read_history terminal reply)) s =
    if terminal == page.terminal_id
    then resolve reply (Value.page page) s
    else refuse (said "history response terminal mismatch") s
page_response id page found s = refuse (about "history response for unknown request " id) s

abbrev pub killed_response : ℕ → Option RequestTxn → RuntimeState → Handled
killed_response id (some (RequestTxn.kill_terminal (some reply))) s = resolve reply Value.killed s
killed_response id (some (RequestTxn.kill_terminal none)) s = (ok nothing, s)
killed_response id found s = refuse (about "kill response for unknown request " id) s

abbrev pub got_config_response : ℕ → ServerConfig → Option RequestTxn → RuntimeState → Handled
got_config_response id config (some (RequestTxn.get_config reply)) s =
    resolve reply (Value.config config) s
got_config_response id config found s =
    refuse (about "server config get response for unknown request " id) s

abbrev pub set_config_response : ℕ → ServerConfig → Option RequestTxn → RuntimeState → Handled
set_config_response id config (some (RequestTxn.set_config reply)) s =
    resolve reply (Value.config config) s
set_config_response id config found s =
    refuse (about "server config set response for unknown request " id) s

-- `take_pending_ack`.
abbrev pub ack_response : ℕ → Option RequestTxn → RuntimeState → Handled
ack_response id (some RequestTxn.send_input_ack) s = (ok nothing, s)
ack_response id (some RequestTxn.resize_ack) s = (ok nothing, s)
ack_response id found s = refuse (about "ack response for unknown request " id) s

abbrev pub ended_at : StreamId → ℕ → Option ActiveTerminalState → Option ActiveTerminalState
ended_at stream end_seq none = none
ended_at stream end_seq (some active) =
    if active.stream == stream
    then some (record active { last_seq = some end_seq })
    else some active

abbrev pub completed : ℕ → StreamId → OpenTerminalAck → Option RequestTxn → RuntimeState → Handled
completed id stream ack (some (RequestTxn.open_terminal terminal reply)) s =
    if terminal == ack.info.terminal
    then resolve reply (Value.opened ack) (record s {
      active_streams =
          insert stream (record { terminal_id = ack.info.terminal; last_seq = ack.end_seq })
            s.active_streams;
      active = ended_at stream ack.end_seq s.active;
    })
    else refuse (said "open terminal response terminal mismatch") s
completed id stream ack found s = refuse (about "open terminal response for unknown request " id) s

unfoldable pub complete_open_terminal : ℕ → StreamId → OpenTerminalAck → RuntimeState → Handled
complete_open_terminal id stream ack s =
    let (found, rest) = remove_pending id s in completed id stream ack found rest

abbrev pub shown : OpenTerminalAck → RuntimeState → RuntimeState
shown ack s =
    record (set_active ack.info ack.stream_id (some ack.end_seq) (store_info ack.info s)) {
      terminal =
          some (record { info = ack.info; stream = ack.stream_id; last_seq = some ack.end_seq });
    }

abbrev pub opened_response : ℕ → OpenTerminalAck → Option RequestTxn → RuntimeState → Handled
opened_response id ack (some (RequestTxn.open_terminal terminal reply)) s =
    complete_open_terminal id ack.stream_id ack (shown ack s)
opened_response id ack found s = refuse (about "open terminal response for unknown request " id) s

abbrev pub removing : ℕ → (Option RequestTxn → RuntimeState → Handled) → RuntimeState → Handled
removing id f s = let (found, rest) = remove_pending id s in f found rest

unfoldable pub handle_response_body : ℕ → ResponseBody → RuntimeState → Handled
handle_response_body id (ResponseBody.list_terminals terminals) s =
    removing id (listed_response id terminals) (store_all terminals s)
handle_response_body id (ResponseBody.create_terminal info) s =
    removing id (created_response id info) s
handle_response_body id (ResponseBody.open_terminal ack) s =
    opened_response id ack (lookup id s.pending_requests) s
handle_response_body id (ResponseBody.read_history page) s = removing id (page_response id page) s
handle_response_body id ResponseBody.kill_terminal s = removing id (killed_response id) s
handle_response_body id (ResponseBody.get_server_config config) s =
    removing id (got_config_response id config) s
handle_response_body id (ResponseBody.set_server_config config) s =
    removing id (set_config_response id config) s
handle_response_body id ResponseBody.send_input s = removing id (ack_response id) s
handle_response_body id ResponseBody.resize_terminal s = removing id (ack_response id) s

abbrev pub done_with : Result ClientError (Unit {0}) × RuntimeState → Handled
done_with (ok _, s) = (ok nothing, s)
done_with (err e, s) = (err e, s)

abbrev pub by_result : ℕ → Result ResponseError ResponseBody → RuntimeState → Handled
by_result id (ok body) s = handle_response_body id body s
by_result id (err e) s = done_with (fail_request id (proto (said e.message)) s)

unfoldable pub handle_response_frame : ResponseFrame → RuntimeState → Handled
handle_response_frame response s = by_result response.id response.result s

unfoldable pub handle_event_frame : EventBody → RuntimeState → Action × RuntimeState
handle_event_frame (EventBody.terminal_created info) s =
    (emit (ClientEvent.terminal_created info), store_info info s)
handle_event_frame (EventBody.error e message) s = (emit (ClientEvent.error message), s)
handle_event_frame (EventBody.disconnected reason) s =
    (emit (ClientEvent.disconnected true (told reason)), s)
handle_event_frame EventBody.connected s = (nothing, s)

-- The checks against the active terminal.
abbrev pub stream_fault : Option ActiveTerminalState → StreamState → ℕ → Option Message
stream_fault none state seq = none
stream_fault (some active) state seq =
    if active.terminal == state.terminal_id
    then if ltb seq state.last_seq then some (said "output sequence moved backwards") else none
    else some (said "output terminal mismatch")

abbrev pub output_to : Option TerminalHandle → StreamDataFrame → RuntimeState → Handled
output_to none frame s = (ok nothing, s)
output_to (some handle) frame s = (
  ok (emit (ClientEvent.terminal_output handle.info.terminal frame.seq frame.bytes)),
  update_active_seq frame.seq
      (record s { terminal = some (record handle { last_seq = some frame.seq }) }),
)

abbrev pub accepted : Option Message → StreamState → StreamDataFrame → RuntimeState → Handled
accepted (some fault) state frame s = refuse fault s
accepted none state frame s = output_to s.terminal frame (record s {
  active_streams =
      insert frame.stream_id (record { terminal_id = state.terminal_id; last_seq = frame.seq })
        s.active_streams;
})

abbrev pub is_stream : StreamId → Option StreamId → Bool
is_stream stream none = false
is_stream stream (some active) = active == stream

abbrev pub at_offset : Option ℕ → StreamState → StreamDataFrame → RuntimeState → Handled
at_offset (some _) state frame s = refuse (said "output stream chunk must not include offset") s
at_offset none state frame s =
    if is_stream frame.stream_id (active_stream s)
    then accepted (stream_fault s.active state frame.seq) state frame s
    else (ok nothing, s)

abbrev pub on_stream : Option StreamState → StreamDataFrame → RuntimeState → Handled
on_stream none frame s = refuse (said "stream data on unknown stream") s
on_stream (some state) frame s = at_offset frame.offset state frame s

unfoldable pub handle_stream_data_frame : StreamDataFrame → RuntimeState → Handled
handle_stream_data_frame frame s = on_stream (lookup frame.stream_id s.active_streams) frame s

unfoldable pub is_recoverable_bye : ByeReason → Bool
is_recoverable_bye ByeReason.server_shutdown = true
is_recoverable_bye (ByeReason.protocol_error ProtocolError.backpressure_exceeded) = true
is_recoverable_bye _ = false

abbrev pub handled : Action × RuntimeState → Handled
handled (action, s) = (ok action, s)

unfoldable pub handle_inbound_frame : Frame → RuntimeState → Handled
handle_inbound_frame (Frame.response response) s = handle_response_frame response s
handle_inbound_frame (Frame.stream_data frame) s = handle_stream_data_frame frame s
handle_inbound_frame (Frame.event event) s = handled (handle_event_frame event s)
handle_inbound_frame (Frame.bye reason) s =
    (ok (exit_with (err (if is_recoverable_bye reason then closed else rejected reason))), s)
handle_inbound_frame (Frame.ping nonce) s = (ok (send (Frame.pong nonce)), s)
handle_inbound_frame _ s = (ok nothing, s)

abbrev pub fail_all : ClientError → List RequestTxn → RuntimeState → RuntimeState
fail_all error [] s = s
fail_all error (txn ∷ txns) s = fail_all error txns (fail_txn error txn s)

unfoldable pub fail_all_pending_requests : ClientError → RuntimeState → RuntimeState
fail_all_pending_requests error s =
    let failed = fail_all error (values s.pending_requests) (record s { pending_requests = [] }) in
    clear_active (record failed { active_streams = [] })
