-- ===== src/Client/Connection/Tests.antt =====
-- crates/client/client-core/src/session.rs: the theorems of a connection at concrete values.
use cli_pocket.Prelude.{◌<◌, ◌≡◌, refl, List, [], ◌∷◌, ◌++◌, none, some, ok, err, arith}
use cli_pocket.Prelude.Dict.{lookup, insert}
use cli_pocket.Proto.Frames.{TerminalInfo}
use cli_pocket.Client.Errors.{closed, transport, said}
use cli_pocket.Client.Input.{input}
use cli_pocket.Client.Runtime.{
  TerminalHandle, take_request_id, record_request, fail_txn, answer, clear_active,
}
use cli_pocket.Client.Runtime.Requests.{SessionCommand, frame_for_session_command}
use cli_pocket.Client.Runtime.Responses.{fail_all_pending_requests}
use cli_pocket.Client.Runtime.Replies.{IsNumbered, IsAnswered, AnswersStand}
use cli_pocket.Client.Connection.{
  Link, Turn, timed_out, work, terminal_command, session_command, shutdown, broken, take_turn,
  of_session, act, serve, run_one_connection,
}
use cli_pocket.Client.Connection.Requests.{
  before_setup, requests_in, requests_for, requests_in_order,
}
use cli_pocket.Client.Connection.Typing.{Subsequence, inputs_in, typed_by, input_in_order}
use cli_pocket.Client.Connection.Settled.{queue_front_settled}
use cli_pocket.Client.Input.{typed}

abbrev info : TerminalInfo
info = record {
  terminal = 7;
  cols = 80;
  rows = 24;
  created_at_unix_ms = 1000;
  label = none;
  attached_clients = 0;
}

abbrev shell : TerminalHandle
shell = record { info = info; stream = 1; last_seq = some 100 }

abbrev ask : SessionCommand
ask = SessionCommand.list_terminals 40

abbrev configure : SessionCommand
configure = SessionCommand.get_server_config 41

-- The queued request goes out, then a new one, then input for the terminal and for another one; the
-- last sending fails.
abbrev turns : List Turn
turns =
    work [] shutdown none
    ∷ work (5 ∷ []) (session_command configure) none
    ∷ work [] (terminal_command (input 7 (104 ∷ [])) (input 7 (105 ∷ []) ∷ [])) none
    ∷ work [] (terminal_command (input 8 (106 ∷ [])) []) none
    ∷ work [] (terminal_command (input 7 (107 ∷ [])) []) (some closed)
    ∷ []

requests_in_order_example :
    let l =
      (run_one_connection (ok (3, none)) turns (before_setup (some shell) [] [] (ask ∷ []))).1 in
    requests_in l.sent ++ requests_for l.pending_session_cmds
    ≡ requests_for (ask ∷ []) ++ requests_for l.asked
requests_in_order_example = requests_in_order (ok (3, none)) turns (some shell) [] [] (ask ∷ [])

input_in_order_example :
    let l =
      (run_one_connection (ok (3, none)) turns (before_setup (some shell) [] [] (ask ∷ []))).1 in
    Subsequence
      (typed_by 7 [] ++ typed_by 7 l.entered)
      (typed 7 (inputs_in l.sent) ++ typed_by 7 l.pending_cmds)
input_in_order_example = input_in_order (ok (3, none)) turns (some shell) [] [] (ask ∷ []) 7

abbrev link : Link
link = before_setup none [] [] []

link-IsNumbered : IsNumbered link.runtime
unfolding lookup
link-IsNumbered id txn e = cc

abbrev cut_off : Link
cut_off =
    (serve (work [] shutdown none ∷ timed_out ∷ [])
      (record link { pending_session_cmds = ask ∷ [] })).1

cut_off_small : cut_off.runtime.next_request_id < 4294967295
unfolding serve take_turn of_session act frame_for_session_command take_request_id record_request
    fail_all_pending_requests fail_txn answer clear_active insert lookup
cut_off_small = omega arith

cut_off_lem :
    serve (work [] shutdown none ∷ timed_out ∷ []) (record link { pending_session_cmds = ask ∷ [] })
    ≡ (broken (err (transport (said "heartbeat timeout"))), cut_off)
unfolding serve take_turn of_session act
cut_off_lem = refl

queue_front_settled_example :
    IsAnswered cut_off.runtime 40 × AnswersStand link.runtime cut_off.runtime
queue_front_settled_example =
    queue_front_settled ask [] [] shutdown (timed_out ∷ []) link
      (err (transport (said "heartbeat timeout"))) cut_off link-IsNumbered cut_off_lem cut_off_small
