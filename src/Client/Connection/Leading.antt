-- ===== src/Client/Connection/Leading.antt =====
-- crates/client/client-core/src/session.rs: the runtime states of a connection come from one another as in
-- `Run`.
use cli_pocket.Prelude.{
  ℕ, ◌+◌, ◌<◌, ◌≡◌, refl, subst, min, Option, none, some, List, [], ◌∷◌, ◌++◌, map, Result, ok, err,
  ◌==◌, true, false, if◌then◌else◌, arith,
}
use cli_pocket.Proto.Frames.{TerminalId, RequestBody, Frame, ping}
use cli_pocket.Client.Errors.{ClientError}
use cli_pocket.Client.Input.{TerminalCmd, input, resize, kill, coalesce_pending_input_front}
use cli_pocket.Client.Runtime.{
  RuntimeState, TerminalHandle, RequestTxn, Action, send, send_pending_command,
  drop_pending_command, send_pending_session_command, emit, exit_with, nothing, take_request_id,
  record_request, u32_max,
}
use cli_pocket.Client.Runtime.Requests.{
  SessionCommand, frame_for_session_command, frame_for_command, filtered, framed, txn_of,
}
use cli_pocket.Client.Runtime.Responses.{handle_inbound_frame, fail_all_pending_requests}
use cli_pocket.Client.Runtime.Replies.Inbound.{HandledFrom, handle_inbound_frame-IsHandled}
use cli_pocket.Client.Runtime.Replies.Runs.{Step, Run, here, next, give_up-Same}
use cli_pocket.Client.Connection.{
  Link, Choice, session_command, shutdown, hung_up, terminal_command, inbound, Turn, beat,
  timed_out, work, Course, go_on, broken, left, batch_input_command, taken, act, queued, of_session,
  of_front, of_queue, handled_action, of_choice, of_queues, take_turn, onwards, error_of, serve,
  queued_action,
}

Run-trans : {s t u : RuntimeState} → Run s t → Run t u → Run s u
Run-trans r here = r
Run-trans r (next q st) = next (Run-trans r q) st

-- If the request numbers stay below the limit, one state comes from the other by a `Run`.
abbrev pub Leads : RuntimeState → RuntimeState → Type 0
Leads s t = t.next_request_id < u32_max → (s.next_request_id < u32_max) × Run s t

Leads-self : (s : RuntimeState) → Leads s s
Leads-self s small = (small, here)

Leads-trans : (s t u : RuntimeState) → Leads s t → Leads t u → Leads s u
Leads-trans s t u p q small =
    let (between, after) = q small in
    let (first, before) = p between in (first, Run-trans before after)

abbrev GoesFrom : RuntimeState → Course → Link → Type 0
GoesFrom s (left result) l = Unit {0}
GoesFrom s (broken result) l = Leads s l.runtime
GoesFrom s go_on l = Leads s l.runtime

abbrev Goes : RuntimeState → Course × Link → Type 0
Goes s (course, l) = GoesFrom s course l

counted : (n : ℕ) → min (n + 1) u32_max < u32_max → n < u32_max
counted n small = ground arith

pub session_command-Leads :
    (cmd : SessionCommand) (s : RuntimeState) → Leads s (frame_for_session_command cmd s).1
unfolding frame_for_session_command take_request_id record_request
session_command-Leads cmd s small =
    let framed = record_request s.next_request_id (txn_of cmd) (take_request_id s).1 in
    let first =
      counted s.next_request_id (subst (λ n. n < u32_max) ((give_up-Same cmd framed).2) small) in
    (first, next here (Step.session_command cmd first))

filtered-Leads :
    (o : Option TerminalHandle) (terminal : TerminalId) (txn : RequestTxn) (body : RequestBody)
    (s : RuntimeState)
    → (filtered o terminal txn body s).1.next_request_id < u32_max
    → s.next_request_id < u32_max
unfolding take_request_id record_request
filtered-Leads none terminal txn body s small = small
filtered-Leads (some handle) terminal txn body s small =
    elim (handle.info.terminal == terminal)
        as (λ b.
          (if b then framed txn body s else (none, s)).1.next_request_id < u32_max
          → s.next_request_id < u32_max) [
            | true ↦ λ h. counted s.next_request_id h
            | false ↦ λ h. h
          ]
      small

command-first :
    (cmd : TerminalCmd) (s : RuntimeState)
    → (frame_for_command cmd s).1.next_request_id < u32_max
    → s.next_request_id < u32_max
unfolding frame_for_command
command-first (input terminal bytes) s h =
    filtered-Leads s.terminal terminal RequestTxn.send_input_ack
      (RequestBody.send_input terminal bytes) s h
command-first (resize terminal cols rows) s h =
    filtered-Leads s.terminal terminal RequestTxn.resize_ack
      (RequestBody.resize_terminal terminal cols rows) s h
command-first (kill terminal) s h =
    filtered-Leads s.terminal terminal (RequestTxn.kill_terminal none)
      (RequestBody.kill_terminal terminal) s h

command-Leads : (cmd : TerminalCmd) (s : RuntimeState) → Leads s (frame_for_command cmd s).1
command-Leads cmd s small =
    let first = command-first cmd s small in (first, next here (Step.terminal_command cmd first))

inbound-Leads :
    (frame : Frame) (action : Action) (s : RuntimeState)
    → (handle_inbound_frame frame s).0 ≡ ok action
    → Leads s (handle_inbound_frame frame s).1
inbound-Leads frame action s e small =
    let h =
      subst (λ r. HandledFrom s r (handle_inbound_frame frame s).1) e
        (handle_inbound_frame-IsHandled frame s) in
    (subst (λ n. n < u32_max) h.counter small, next here (Step.inbound frame action e))

act-Goes :
    (s : RuntimeState) (wire : Option ClientError) (action : Action) (l : Link)
    → Leads s l.runtime
    → Goes s (act wire action l)
unfolding act
act-Goes s none (send frame) l h = h
act-Goes s none (send_pending_command frame) l h = h
act-Goes s none (send_pending_session_command frame) l h = h
act-Goes s (some e) (send frame) l h = tt
act-Goes s (some e) (send_pending_command frame) l h = tt
act-Goes s (some e) (send_pending_session_command frame) l h = tt
act-Goes s wire drop_pending_command l h = h
act-Goes s wire (emit event) l h = h
act-Goes s wire (exit_with result) l h = h
act-Goes s wire nothing l h = h

queued-Goes :
    (s : RuntimeState) (wire : Option ClientError) (frame : Option Frame) (runtime : RuntimeState)
    (l : Link)
    → Leads s runtime
    → Goes s (queued wire (frame, runtime) l)
queued-Goes s wire frame runtime l h =
    act-Goes s wire (queued_action l.pending_session_cmds frame) (record l { runtime = runtime }) h

session-Goes :
    (wire : Option ClientError) (cmd : SessionCommand) (l : Link)
    → Goes l.runtime (of_session wire cmd l)
unfolding of_session
session-Goes wire cmd l =
    queued-Goes l.runtime wire (some (frame_for_session_command cmd l.runtime).0)
      (frame_for_session_command cmd l.runtime).1 l (session_command-Leads cmd l.runtime)

front-Goes :
    (wire : Option ClientError) (cmds : List TerminalCmd) (l : Link)
    → Goes l.runtime (of_front wire cmds l)
front-Goes wire [] l = tt
front-Goes wire (cmd ∷ cmds) l =
    queued-Goes l.runtime wire (frame_for_command cmd l.runtime).0
      (frame_for_command cmd l.runtime).1 (record l { pending_cmds = cmd ∷ cmds })
      (command-Leads cmd l.runtime)

handled-Goes :
    (s : RuntimeState) (wire : Option ClientError) (r : Result ClientError Action)
    (runtime : RuntimeState) (l : Link)
    → ((action : Action) → r ≡ ok action → Leads s runtime)
    → Goes s (handled_action wire (r, runtime) l)
handled-Goes s wire (err e) runtime l h = tt
handled-Goes s wire (ok action) runtime l h =
    act-Goes s wire action (record l { runtime = runtime }) (h action refl)

choice-Goes :
    (wire : Option ClientError) (choice : Choice) (l : Link)
    → Goes l.runtime (of_choice wire choice l)
unfolding of_choice
choice-Goes wire (session_command cmd) l = session-Goes wire cmd (record l {
  pending_session_cmds = l.pending_session_cmds ++ cmd ∷ [];
  asked = l.asked ++ cmd ∷ [];
})
choice-Goes wire shutdown l = tt
choice-Goes wire hung_up l = tt
choice-Goes wire (terminal_command cmd later) l =
    let batch = batch_input_command cmd later in
    queued-Goes l.runtime wire (frame_for_command batch.0 l.runtime).0
      (frame_for_command batch.0 l.runtime).1
      (record l {
        pending_cmds = l.pending_cmds ++ batch.0 ∷ batch.1;
        entered = l.entered ++ taken cmd later;
      })
      (command-Leads batch.0 l.runtime)
choice-Goes wire (inbound (err e)) l = tt
choice-Goes wire (inbound (ok frame)) l =
    handled-Goes l.runtime wire (handle_inbound_frame frame l.runtime).0
      (handle_inbound_frame frame l.runtime).1 l
      (λ action e. inbound-Leads frame action l.runtime e)

queues-Goes :
    (pings : List ℕ) (choice : Choice) (wire : Option ClientError) (p : List SessionCommand)
    (c : List TerminalCmd) (l : Link)
    → Goes l.runtime (of_queues pings choice wire p c l)
unfolding of_queue
queues-Goes pings choice wire (cmd ∷ cmds) c l = session-Goes wire cmd l
queues-Goes pings choice wire [] (cmd ∷ cmds) l =
    front-Goes wire (coalesce_pending_input_front l.pending_cmds) l
queues-Goes pings choice wire [] [] l =
    choice-Goes wire choice (record l { sent = l.sent ++ map ping pings })

turn-Goes : (turn : Turn) (l : Link) → Goes l.runtime (take_turn turn l)
unfolding take_turn
turn-Goes (beat nonce none) l = Leads-self l.runtime
turn-Goes (beat nonce (some e)) l = tt
turn-Goes timed_out l = Leads-self l.runtime
turn-Goes (work pings choice wire) l =
    queues-Goes pings choice wire l.pending_session_cmds l.pending_cmds l

-- The state in which a connection broke off, before its requests were failed.
pub record Broke (s : RuntimeState) (result : Result ClientError (Unit {0})) (l : Link)
    : Type 0 where
  pub last : RuntimeState
  pub leads : Leads s last
  pub failed_all : l.runtime ≡ fail_all_pending_requests (error_of result) last

abbrev pub EndsFrom : RuntimeState → Course → Link → Type 0
EndsFrom s (broken result) l = Broke s result l
EndsFrom s (left result) l = Unit {0}
EndsFrom s go_on l = Unit {0}

abbrev pub Ends : RuntimeState → Course × Link → Type 0
Ends s (course, l) = EndsFrom s course l

onwards-Ends :
    (s : RuntimeState) (course : Course) (l : Link) (rest : Link → Course × Link)
    → GoesFrom s course l
    → (Leads s l.runtime → Ends s (rest l))
    → Ends s (onwards (course, l) rest)
onwards-Ends s go_on l rest h k = k h
onwards-Ends s (left result) l rest h k = tt
onwards-Ends s (broken result) l rest h k = record {
  last = l.runtime;
  leads = h;
  failed_all = refl;
}

further :
    (s t : RuntimeState) (course : Course) (l : Link)
    → Leads s t
    → EndsFrom t course l
    → EndsFrom s course l
further s t (broken result) l h b = record {
  last = b.last;
  leads = Leads-trans s t b.last h b.leads;
  failed_all = b.failed_all;
}
further s t (left result) l h b = tt
further s t go_on l h b = tt

pub serve-Ends : (turns : List Turn) (l : Link) → Ends l.runtime (serve turns l)
unfolding serve
serve-Ends [] l = tt
serve-Ends (turn ∷ turns) l =
    onwards-Ends l.runtime (take_turn turn l).0 (take_turn turn l).1 (serve turns)
      (turn-Goes turn l)
      (λ h.
        let after = (take_turn turn l).1 in
        further l.runtime after.runtime (serve turns after).0 (serve turns after).1 h
          (serve-Ends turns after))
