-- ===== src/Client/Connection.antt =====
-- crates/client/client-core/src/session.rs: one connection of the client (`run_one_connection`), with the
-- queues of commands that outlive it. What the world does in one turn of the loop is a `Turn`.
pub mod Quiet
pub mod Moves
pub mod Requests
pub mod Typing
pub mod Leading
pub mod Settled
mod Tests
use cli_pocket.Prelude.{ℕ, String, Option, none, some, List, [], ◌∷◌, ◌++◌, map, Result, ok, err}
use cli_pocket.Proto.Frames.{Frame, ping}
use cli_pocket.Client.Errors.{ClientError, ClientEvent, connected, closed, transport, said}
use cli_pocket.Client.Input.{TerminalCmd, input, collect, coalesce_pending_input_front}
use cli_pocket.Client.Runtime.{
  RuntimeState, Handled, Action, send, send_pending_command, drop_pending_command,
  send_pending_session_command, emit, exit_with, nothing, fresh,
}
use cli_pocket.Client.Runtime.Requests.{
  SessionCommand, frame_for_session_command, frame_for_command,
}
use cli_pocket.Client.Runtime.Responses.{handle_inbound_frame, fail_all_pending_requests}

-- `sent` has the frames that were sent, `told` the events; `asked` and `entered` have the commands that
-- were taken from the two channels.
pub record Link : Type 0 where
  pub runtime : RuntimeState
  pub pending_cmds : List TerminalCmd
  pub pending_session_cmds : List SessionCommand
  pub sent : List Frame
  pub told : List ClientEvent
  pub asked : List SessionCommand
  pub entered : List TerminalCmd

-- What the `select` of the three sources gives: `hung_up` is a channel that is closed; a command of a
-- terminal comes with those that arrive within the window of `batch_input_command`.
pub data Choice : Type 0 where
  session_command : SessionCommand → Choice
  shutdown hung_up : Choice
  terminal_command : TerminalCmd → List TerminalCmd → Choice
  inbound : Result ClientError Frame → Choice

-- What the heartbeat says first. The last argument is the error of sending, if it fails; the pings are
-- those that `recv_with_heartbeat` sends meanwhile. A choice is looked at if no command waits.
pub data Turn : Type 0 where
  beat : ℕ → Option ClientError → Turn
  timed_out : Turn
  work : List ℕ → Choice → Option ClientError → Turn

-- The loop goes on, or breaks with a result, or the function returns at once.
pub data Course : Type 0 where
  go_on : Course
  broken : Result ClientError (Unit {0}) → Course
  left : Result ClientError (Unit {0}) → Course

abbrev pub tail {ℓ} : {A : Type ℓ} → List A → List A
tail [] = []
tail (x ∷ xs) = xs

unfoldable pub batch_input_command : TerminalCmd → List TerminalCmd → TerminalCmd × List TerminalCmd
batch_input_command (input terminal bytes) later = collect later (input terminal bytes) []
batch_input_command first_cmd later = (first_cmd, [])

-- The commands that it takes from the channel.
abbrev pub taken : TerminalCmd → List TerminalCmd → List TerminalCmd
taken (input terminal bytes) later = input terminal bytes ∷ later
taken first_cmd later = first_cmd ∷ []

-- `send_encrypted(..).await?`, and what follows.
abbrev pub sending : Option ClientError → Frame → Link → Link → Course × Link
sending none frame before after = (go_on, record after { sent = before.sent ++ frame ∷ [] })
sending (some error) frame before after = (left (err error), before)

unfoldable pub act : Option ClientError → Action → Link → Course × Link
act wire (send frame) l = sending wire frame l l
act wire (send_pending_command frame) l =
    sending wire frame l (record l { pending_cmds = tail l.pending_cmds })
act wire drop_pending_command l = (go_on, record l { pending_cmds = tail l.pending_cmds })
act wire (send_pending_session_command frame) l =
    sending wire frame l (record l { pending_session_cmds = tail l.pending_session_cmds })
act wire (emit event) l = (go_on, record l { told = l.told ++ event ∷ [] })
act wire (exit_with result) l = (broken result, l)
act wire nothing l = (go_on, l)

abbrev pub queued_action : List SessionCommand → Option Frame → Action
queued_action [] none = drop_pending_command
queued_action [] (some frame) = send_pending_command frame
queued_action (_ ∷ _) none = nothing
queued_action (_ ∷ _) (some frame) = send_pending_session_command frame

abbrev pub queued : Option ClientError → Option Frame × RuntimeState → Link → Course × Link
queued wire (frame, runtime) l =
    act wire (queued_action l.pending_session_cmds frame) (record l { runtime = runtime })

abbrev pub with_frame : Frame × RuntimeState → Option Frame × RuntimeState
with_frame (frame, runtime) = (some frame, runtime)

unfoldable pub of_session : Option ClientError → SessionCommand → Link → Course × Link
of_session wire cmd l = queued wire (with_frame (frame_for_session_command cmd l.runtime)) l

-- The front of the queue of terminal commands, which is joined with what follows it.
abbrev pub of_front : Option ClientError → List TerminalCmd → Link → Course × Link
of_front wire [] l = (left (err closed), record l { pending_cmds = [] })
of_front wire (cmd ∷ cmds) l =
    queued wire (frame_for_command cmd l.runtime) (record l { pending_cmds = cmd ∷ cmds })

unfoldable pub of_queue : Option ClientError → Link → Course × Link
of_queue wire l = of_front wire (coalesce_pending_input_front l.pending_cmds) l

abbrev pub of_terminal : Option ClientError → TerminalCmd × List TerminalCmd → Link → Course × Link
of_terminal wire (cmd, deferred) l =
    queued wire (frame_for_command cmd l.runtime)
      (record l { pending_cmds = l.pending_cmds ++ cmd ∷ deferred })

abbrev pub handled_action : Option ClientError → Handled → Link → Course × Link
handled_action wire (err error, runtime) l = (left (err error), record l { runtime = runtime })
handled_action wire (ok action, runtime) l = act wire action (record l { runtime = runtime })

unfoldable pub of_choice : Option ClientError → Choice → Link → Course × Link
of_choice wire (session_command cmd) l = of_session wire cmd (record l {
  pending_session_cmds = l.pending_session_cmds ++ cmd ∷ [];
  asked = l.asked ++ cmd ∷ [];
})
of_choice wire shutdown l = (left (ok tt), l)
of_choice wire hung_up l = (left (err closed), l)
of_choice wire (terminal_command cmd later) l =
    of_terminal wire (batch_input_command cmd later)
      (record l { entered = l.entered ++ taken cmd later })
of_choice wire (inbound (err error)) l = (left (err error), l)
of_choice wire (inbound (ok frame)) l = handled_action wire (handle_inbound_frame frame l.runtime) l

abbrev pub of_queues :
    List ℕ
    → Choice
    → Option ClientError
    → List SessionCommand
    → List TerminalCmd
    → Link
    → Course × Link
of_queues pings choice wire (cmd ∷ cmds) waiting l = of_session wire cmd l
of_queues pings choice wire [] (cmd ∷ cmds) l = of_queue wire l
of_queues pings choice wire [] [] l =
    of_choice wire choice (record l { sent = l.sent ++ map ping pings })

unfoldable pub take_turn : Turn → Link → Course × Link
take_turn (beat nonce wire) l = sending wire (ping nonce) l l
take_turn timed_out l = (broken (err (transport (said "heartbeat timeout"))), l)
take_turn (work pings choice wire) l =
    of_queues pings choice wire l.pending_session_cmds l.pending_cmds l

abbrev pub error_of : Result ClientError (Unit {0}) → ClientError
error_of (ok _) = closed
error_of (err error) = error

abbrev pub failing : ClientError → Link → Link
failing error l = record l { runtime = fail_all_pending_requests error l.runtime }

-- The rest of the turns, or the end.
abbrev pub onwards : Course × Link → (Link → Course × Link) → Course × Link
onwards (go_on, l) rest = rest l
onwards (broken result, l) rest = (broken result, failing (error_of result) l)
onwards (left result, l) rest = (left result, l)

unfoldable pub serve : List Turn → Link → Course × Link
serve [] l = (go_on, l)
serve (turn ∷ turns) l = onwards (take_turn turn l) (serve turns)

-- The connection is set up with a session number and a label, or is not.
unfoldable pub run_one_connection :
    Result ClientError (ℕ × Option String) → List Turn → Link → Course × Link
run_one_connection (err error) turns l = (left (err error), l)
run_one_connection (ok (session_id, server_label)) turns l = serve turns (record l {
  runtime = fresh l.runtime.terminal l.runtime.answers;
  told = l.told ++ connected session_id server_label ∷ [];
})
