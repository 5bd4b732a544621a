-- ===== src/Client/Tests.antt =====
-- crates/client/client-core: the theorems of the client at concrete values.
use cli_pocket.Prelude.{ℕ, ◌+◌, ◌<◌, ◌≡◌, ◌≢◌, refl, false, List, [], ◌∷◌, ◌++◌, arith}
use cli_pocket.Prelude.{true, none, some, ok, err}
use cli_pocket.Prelude.Dict.{lookup, insert, remove}
use cli_pocket.Proto.Frames.{
  TerminalInfo, OpenTerminalAck, ResponseBody, Frame, StreamDataFrame, ByeReason,
}
use cli_pocket.Client.Errors.{proto, said, closed, connect_timeout, connecting, disconnected, shown}
use cli_pocket.Client.Runtime.{
  RuntimeState, ActiveTerminalState, fresh, nothing, exit_with, take_request_id, record_request,
  remove_pending, set_active, store_info,
}
use cli_pocket.Client.Runtime.Requests.{SessionCommand, frame_for_session_command}
use cli_pocket.Client.Runtime.Responses.{
  handle_inbound_frame, handle_response_frame, handle_response_body, complete_open_terminal,
  handle_stream_data_frame, is_recoverable_bye,
}
use cli_pocket.Client.Runtime.Synced.{IsSynced}
use cli_pocket.Client.Runtime.Streams.{IsHandledAs, stream_data_exact, output_after_give_up}
use cli_pocket.Client.Runtime.Replies.{IsNumbered}
use cli_pocket.Client.Runtime.Replies.Runs.{Run, here, next, inbound, Run-IsSynced}
use cli_pocket.Client.Session.{
  Attempt, Backoff, event, run_session_loop, should_retry_after_disconnect,
}
use cli_pocket.Client.Session.Retries.{
  bye_is_final, AreRetryable, AreDoubling, pauses, pauses_double,
}
use cli_pocket.Client.Heartbeat.{HeartbeatState, poll, wait, sleep_ms, sleep_exact}
use cli_pocket.Client.Input.{TerminalCmd, input, resize, kill, try_merge_input_command, collect}
use cli_pocket.Client.Input.Batch.{AreApart, collect_overtakes}

abbrev quiet : HeartbeatState
quiet = record { last_inbound_at_ms = 500; ping_outstanding = false }

sleep_exact_example :
    ((poll quiet (4000 + sleep_ms quiet 4000)).1 ≢ wait)
    × ((early : ℕ) → early < 4000 + sleep_ms quiet 4000 → (poll quiet early).1 ≡ wait)
unfolding poll
sleep_exact_example = sleep_exact quiet 4000 (omega arith) refl

abbrev queue : List TerminalCmd
queue = input 1 (104 ∷ []) ∷ input 1 (105 ∷ []) ∷ resize 1 80 24 ∷ input 1 (106 ∷ []) ∷ []

abbrev controls_between : List TerminalCmd
controls_between = resize 1 80 24 ∷ kill 1 ∷ []

between-AreApart : AreApart 1 controls_between
unfolding try_merge_input_command
between-AreApart = (λ bytes. refl, (λ bytes. refl, tt))

collect_overtakes_example :
    collect (controls_between ++ input 1 (104 ∷ []) ∷ []) (input 1 (103 ∷ [])) []
    ≡ (input 1 ((103 ∷ []) ++ (104 ∷ [])), controls_between)
collect_overtakes_example =
    collect_overtakes 1 (103 ∷ []) (104 ∷ []) controls_between between-AreApart

abbrev info : TerminalInfo
info = record {
  terminal = 7;
  cols = 80;
  rows = 24;
  created_at_unix_ms = 1000;
  label = none;
  attached_clients = 0;
}

abbrev ack : OpenTerminalAck
ack = record {
  stream_id = 1;
  info = info;
  start_seq = 90;
  end_seq = 100;
  render_bytes = [];
  has_more_history = true;
}

abbrev start : RuntimeState
start = fresh none []

abbrev open_shell : SessionCommand
open_shell = SessionCommand.open_terminal 7 33

abbrev opening : RuntimeState
opening = (frame_for_session_command open_shell start).1

abbrev opened_frame : Frame
opened_frame = Frame.response (record { id = 1; result = ok (ResponseBody.open_terminal ack) })

start-IsNumbered : IsNumbered start
unfolding lookup
start-IsNumbered id txn e = cc

taken : (handle_inbound_frame opened_frame opening).0 ≡ ok nothing
unfolding handle_inbound_frame handle_response_frame handle_response_body complete_open_terminal
    remove_pending frame_for_session_command take_request_id record_request lookup insert remove
    set_active store_info
taken = refl

opened-Run : Run opening (handle_inbound_frame opened_frame opening).1
opened-Run = next here (inbound opened_frame nothing taken)

opening-IsSynced : IsSynced opening
unfolding frame_for_session_command take_request_id record_request
opening-IsSynced = tt

Run-IsSynced_example : IsSynced (handle_inbound_frame opened_frame opening).1
Run-IsSynced_example = Run-IsSynced opening-IsSynced opened-Run

abbrev active : ActiveTerminalState
active = record { terminal = 7; stream = 1; last_seq = some 100 }

abbrev shown_shell : RuntimeState
shown_shell = record {
  active = some active;
  info_cache = [];
  pending_requests = [];
  active_streams = (1, record { terminal_id = 7; last_seq = 100 }) ∷ [];
  terminal = some (record { info = info; stream = 1; last_seq = some 100 });
  answers = [];
  next_request_id = 2;
}

shown_shell-IsSynced : IsSynced shown_shell
unfolding lookup
shown_shell-IsSynced = (refl, refl, refl, (100, refl, refl))

abbrev output : StreamDataFrame
output = record { stream_id = 1; seq = 102; offset = none; bytes = 104 ∷ 105 ∷ []; last = false }

stream_data_exact_example :
    IsHandledAs output shown_shell active 100 (handle_stream_data_frame output shown_shell)
stream_data_exact_example =
    stream_data_exact output shown_shell active 100 refl shown_shell-IsSynced refl refl

output_after_give_up_example :
    (handle_stream_data_frame output
      (frame_for_session_command (SessionCommand.open_terminal 8 34) shown_shell).1).0
    ≡ err (proto (said "stream data on unknown stream"))
output_after_give_up_example =
    output_after_give_up (SessionCommand.open_terminal 8 34) output shown_shell active
      shown_shell-IsSynced refl tt refl

abbrev backoff : Backoff
backoff = record { start = 200; max_ms = 5000; mul_x10 = 20 }

-- The daemon shuts down.
abbrev shut_down : Attempt
shut_down = record {
  stop_before = false;
  connect = ok tt;
  stop_after = false;
  reached_connected = true;
  outcome = err closed;
  stop_late = false;
  random = 128;
}

shutdown_closes :
    (handle_inbound_frame (Frame.bye ByeReason.server_shutdown) start).0
    ≡ ok (exit_with (err closed))
unfolding handle_inbound_frame is_recoverable_bye
shutdown_closes = refl

bye_is_final_example :
    run_session_loop backoff (shut_down ∷ shut_down ∷ []) true 200
    ≡ event connecting ∷ event (disconnected false (shown closed)) ∷ []
bye_is_final_example =
    bye_is_final ByeReason.server_shutdown start closed backoff shut_down (shut_down ∷ []) true 200
      shutdown_closes refl refl refl refl

abbrev unreachable : Attempt
unreachable = record shut_down { connect = err (connect_timeout 15000) }

unreachable-AreRetryable : AreRetryable (unreachable ∷ unreachable ∷ [])
unfolding should_retry_after_disconnect
unreachable-AreRetryable = (
  (connect_timeout 15000, refl, refl),
  refl,
  refl,
  ((connect_timeout 15000, refl, refl), refl, refl, tt),
)

pauses_double_example :
    AreDoubling 5000 0
      (unreachable ∷ unreachable ∷ [])
      (pauses (run_session_loop backoff (unreachable ∷ unreachable ∷ []) true 200))
pauses_double_example =
    pauses_double backoff 200 (omega arith) (omega arith) (omega arith) (omega arith)
      (unreachable ∷ unreachable ∷ []) unreachable-AreRetryable (omega arith, (omega arith, tt))
