-- ===== src/Client/Connection/Quiet.antt =====
-- crates/client/client-core/src/session.rs: a frame of the daemon never makes the client send a request, nor
-- does it touch the queues of commands.
use cli_pocket.Prelude.{
  ℕ, ◌≡◌, refl, Bool, true, false, Option, none, some, List, Result, ok, err, if◌then◌else◌, ◌==◌,
}
use cli_pocket.Prelude.Dict.{lookup}
use cli_pocket.Proto.Frames.{
  TerminalInfo, Frame, pong, ResponseBody, ResponseError, OpenTerminalAck, HistoryPage,
  StreamDataFrame, EventBody, ServerConfig,
}
use cli_pocket.Client.Errors.{ClientError, Message, proto, said}
use cli_pocket.Client.Runtime.{
  RuntimeState, StreamState, TerminalHandle, RequestTxn, Action, send, emit, exit_with, nothing,
  Handled, active_stream, remove_pending,
}
use cli_pocket.Client.Runtime.Responses.{
  handle_inbound_frame, handle_response_frame, handle_response_body, handle_stream_data_frame,
  handle_event_frame, fail_request, complete_open_terminal, store_all, listed_response,
  created_response, page_response, killed_response, got_config_response, set_config_response,
  ack_response, completed, shown, opened_response, failed, done_with, by_result, stream_fault,
  output_to, accepted, is_stream, at_offset, on_stream,
}

-- The answer to a ping is the only frame.
abbrev pub is_quiet : Action → Bool
is_quiet (send (pong nonce)) = true
is_quiet (emit event) = true
is_quiet (exit_with result) = true
is_quiet nothing = true
is_quiet _ = false

abbrev pub quiet : Result ClientError Action → Bool
quiet (ok action) = is_quiet action
quiet (err e) = true

abbrev IsQuiet : Handled → Type 0
IsQuiet h = quiet h.0 ≡ true

branches-IsQuiet : (b : Bool) (x y : Handled) → IsQuiet x → IsQuiet y → IsQuiet (if b then x else y)
branches-IsQuiet true x y p q = p
branches-IsQuiet false x y p q = q

module _ (id : ℕ) (s : RuntimeState) where
  listed-IsQuiet :
      (terminals : List TerminalInfo) (found : Option RequestTxn)
      → IsQuiet (listed_response id terminals found s)
  listed-IsQuiet terminals (some (RequestTxn.list_terminals reply)) = refl
  listed-IsQuiet terminals none = refl
  listed-IsQuiet terminals (some other) = refl

  created-IsQuiet :
      (info : TerminalInfo) (found : Option RequestTxn) → IsQuiet (created_response id info found s)
  created-IsQuiet info (some (RequestTxn.create_terminal reply)) = refl
  created-IsQuiet info none = refl
  created-IsQuiet info (some other) = refl

  page-IsQuiet :
      (page : HistoryPage) (found : Option RequestTxn) → IsQuiet (page_response id page found s)
  page-IsQuiet page (some (RequestTxn.read_history terminal reply)) =
      branches-IsQuiet (terminal == page.terminal_id) _ _ refl refl
  page-IsQuiet page none = refl
  page-IsQuiet page (some other) = refl

  killed-IsQuiet : (found : Option RequestTxn) → IsQuiet (killed_response id found s)
  killed-IsQuiet (some (RequestTxn.kill_terminal (some reply))) = refl
  killed-IsQuiet (some (RequestTxn.kill_terminal none)) = refl
  killed-IsQuiet none = refl
  killed-IsQuiet (some other) = refl

  got_config-IsQuiet :
      (config : ServerConfig) (found : Option RequestTxn)
      → IsQuiet (got_config_response id config found s)
  got_config-IsQuiet config (some (RequestTxn.get_config reply)) = refl
  got_config-IsQuiet config none = refl
  got_config-IsQuiet config (some other) = refl

  set_config-IsQuiet :
      (config : ServerConfig) (found : Option RequestTxn)
      → IsQuiet (set_config_response id config found s)
  set_config-IsQuiet config (some (RequestTxn.set_config reply)) = refl
  set_config-IsQuiet config none = refl
  set_config-IsQuiet config (some other) = refl

  ack-IsQuiet : (found : Option RequestTxn) → IsQuiet (ack_response id found s)
  ack-IsQuiet (some RequestTxn.send_input_ack) = refl
  ack-IsQuiet (some RequestTxn.resize_ack) = refl
  ack-IsQuiet none = refl
  ack-IsQuiet (some other) = refl

  failed-IsQuiet :
      (e : ClientError) (found : Option RequestTxn) → IsQuiet (done_with (failed id e found s))
  failed-IsQuiet e none = refl
  failed-IsQuiet e (some txn) = refl

  completed-IsQuiet :
      (ack : OpenTerminalAck) (found : Option RequestTxn)
      → IsQuiet (completed id ack.stream_id ack found s)
  completed-IsQuiet ack (some (RequestTxn.open_terminal terminal reply)) =
      branches-IsQuiet (terminal == ack.info.terminal) _ _ refl refl
  completed-IsQuiet ack none = refl
  completed-IsQuiet ack (some other) = refl

opened-IsQuiet :
    (id : ℕ) (s : RuntimeState) (ack : OpenTerminalAck) (found : Option RequestTxn)
    → IsQuiet (opened_response id ack found s)
unfolding complete_open_terminal remove_pending
opened-IsQuiet id s ack (some (RequestTxn.open_terminal terminal reply)) =
    completed-IsQuiet id (remove_pending id (shown ack s)).1 ack
      (lookup id (shown ack s).pending_requests)
opened-IsQuiet id s ack none = refl
opened-IsQuiet id s ack (some other) = refl

body-IsQuiet :
    (id : ℕ) (s : RuntimeState) (body : ResponseBody) → IsQuiet (handle_response_body id body s)
unfolding handle_response_body remove_pending
body-IsQuiet id s (ResponseBody.list_terminals terminals) =
    listed-IsQuiet id (remove_pending id (store_all terminals s)).1 terminals
      (lookup id (store_all terminals s).pending_requests)
body-IsQuiet id s (ResponseBody.create_terminal info) =
    created-IsQuiet id (remove_pending id s).1 info (lookup id s.pending_requests)
body-IsQuiet id s (ResponseBody.open_terminal ack) =
    opened-IsQuiet id s ack (lookup id s.pending_requests)
body-IsQuiet id s (ResponseBody.read_history page) =
    page-IsQuiet id (remove_pending id s).1 page (lookup id s.pending_requests)
body-IsQuiet id s ResponseBody.kill_terminal =
    killed-IsQuiet id (remove_pending id s).1 (lookup id s.pending_requests)
body-IsQuiet id s (ResponseBody.get_server_config config) =
    got_config-IsQuiet id (remove_pending id s).1 config (lookup id s.pending_requests)
body-IsQuiet id s (ResponseBody.set_server_config config) =
    set_config-IsQuiet id (remove_pending id s).1 config (lookup id s.pending_requests)
body-IsQuiet id s ResponseBody.send_input =
    ack-IsQuiet id (remove_pending id s).1 (lookup id s.pending_requests)
body-IsQuiet id s ResponseBody.resize_terminal =
    ack-IsQuiet id (remove_pending id s).1 (lookup id s.pending_requests)

result-IsQuiet :
    (id : ℕ) (s : RuntimeState) (r : Result ResponseError ResponseBody) → IsQuiet (by_result id r s)
unfolding fail_request remove_pending
result-IsQuiet id s (ok body) = body-IsQuiet id s body
result-IsQuiet id s (err e) =
    failed-IsQuiet id (remove_pending id s).1 (proto (said e.message))
      (lookup id s.pending_requests)

output-IsQuiet :
    (frame : StreamDataFrame) (s : RuntimeState) (shown : Option TerminalHandle)
    → IsQuiet (output_to shown frame s)
output-IsQuiet frame s none = refl
output-IsQuiet frame s (some handle) = refl

accepted-IsQuiet :
    (state : StreamState) (frame : StreamDataFrame) (s : RuntimeState) (fault : Option Message)
    → IsQuiet (accepted fault state frame s)
accepted-IsQuiet state frame s (some fault) = refl
accepted-IsQuiet state frame s none = output-IsQuiet frame _ s.terminal

offset-IsQuiet :
    (state : StreamState) (frame : StreamDataFrame) (s : RuntimeState) (o : Option ℕ)
    → IsQuiet (at_offset o state frame s)
offset-IsQuiet state frame s (some _) = refl
offset-IsQuiet state frame s none =
    branches-IsQuiet (is_stream frame.stream_id (active_stream s)) _ _
      (accepted-IsQuiet state frame s (stream_fault s.active state frame.seq)) refl

stream-IsQuiet :
    (frame : StreamDataFrame) (s : RuntimeState) (found : Option StreamState)
    → IsQuiet (on_stream found frame s)
stream-IsQuiet frame s none = refl
stream-IsQuiet frame s (some state) = offset-IsQuiet state frame s frame.offset

event-IsQuiet :
    (event : EventBody) (s : RuntimeState) → is_quiet (handle_event_frame event s).0 ≡ true
unfolding handle_event_frame
event-IsQuiet EventBody.connected s = refl
event-IsQuiet (EventBody.disconnected reason) s = refl
event-IsQuiet (EventBody.terminal_created info) s = refl
event-IsQuiet (EventBody.error e message) s = refl

pub handle_inbound_frame-IsQuiet :
    (frame : Frame) (s : RuntimeState) → IsQuiet (handle_inbound_frame frame s)
unfolding handle_inbound_frame handle_response_frame handle_stream_data_frame
handle_inbound_frame-IsQuiet (Frame.response response) s =
    result-IsQuiet response.id s response.result
handle_inbound_frame-IsQuiet (Frame.stream_data frame) s =
    stream-IsQuiet frame s (lookup frame.stream_id s.active_streams)
handle_inbound_frame-IsQuiet (Frame.event event) s = event-IsQuiet event s
handle_inbound_frame-IsQuiet (Frame.bye reason) s = refl
handle_inbound_frame-IsQuiet (Frame.ping nonce) s = refl
handle_inbound_frame-IsQuiet _ s = refl
