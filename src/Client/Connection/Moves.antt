-- ===== src/Client/Connection/Moves.antt =====
-- crates/client/client-core/src/session.rs: the moves that the turns of a connection are made of. What holds
-- through each of the moves holds through the connection.
use cli_pocket.Prelude.{
  ℕ, String, ◌≡◌, refl, true, Option, none, some, List, [], ◌∷◌, ◌++◌, map, Result, ok, err,
}
use cli_pocket.Proto.Frames.{Frame, ping, pong}
use cli_pocket.Client.Errors.{ClientError, ClientEvent, connected}
use cli_pocket.Client.Input.{TerminalCmd, coalesce_pending_input_front}
use cli_pocket.Client.Runtime.{
  RuntimeState, Action, send, emit, exit_with, nothing, fresh, take_request_id,
}
use cli_pocket.Client.Runtime.Requests.{
  SessionCommand, frame_for_session_command, frame_for_command, request_frame, body_of,
}
use cli_pocket.Client.Runtime.Responses.{handle_inbound_frame, fail_all_pending_requests}
use cli_pocket.Client.Connection.{
  Link, Choice, session_command, shutdown, hung_up, terminal_command, inbound, Turn, beat,
  timed_out, work, Course, go_on, broken, left, batch_input_command, taken, act, queued, of_session,
  of_front, of_queue, handled_action, of_choice, of_queues, take_turn, onwards, error_of, serve,
  run_one_connection,
}
use cli_pocket.Client.Connection.Quiet.{is_quiet, quiet, handle_inbound_frame-IsQuiet}

pub record IsStable (M : Link → Type 0) : Type 0 where
  pub changed :
      (l : Link) (runtime : RuntimeState) (told : List ClientEvent)
      → M l
      → M (record l { runtime = runtime; told = told })
  pub pinged : (l : Link) (ns : List ℕ) → M l → M (record l { sent = l.sent ++ map ping ns })
  pub ponged : (l : Link) (n : ℕ) → M l → M (record l { sent = l.sent ++ pong n ∷ [] })
  pub asking :
      (l : Link) (cmd : SessionCommand)
      → M l
      → M (record l {
        pending_session_cmds = l.pending_session_cmds ++ cmd ∷ [];
        asked = l.asked ++ cmd ∷ [];
      })
  pub request_sent :
      (l : Link) (cmd : SessionCommand) (cmds : List SessionCommand) (id : ℕ)
      → M (record l { pending_session_cmds = cmd ∷ cmds })
      → M (record l {
        pending_session_cmds = cmds;
        sent = l.sent ++ request_frame id (body_of cmd) ∷ [];
      })
  pub joined :
      (l : Link) → M l → M (record l { pending_cmds = coalesce_pending_input_front l.pending_cmds })
  pub entering :
      (l : Link) (cmd : TerminalCmd) (later : List TerminalCmd)
      → M (record l { pending_cmds = [] })
      → M (record l {
        pending_cmds = (batch_input_command cmd later).0 ∷ (batch_input_command cmd later).1;
        entered = l.entered ++ taken cmd later;
      })
  pub command_sent :
      (l : Link) (cmd : TerminalCmd) (cmds : List TerminalCmd) (s : RuntimeState) (frame : Frame)
      → (frame_for_command cmd s).0 ≡ some frame
      → M (record l { pending_cmds = cmd ∷ cmds })
      → M (record l { pending_cmds = cmds; sent = l.sent ++ frame ∷ [] })
  pub command_dropped :
      (l : Link) (cmd : TerminalCmd) (cmds : List TerminalCmd)
      → M (record l { pending_cmds = cmd ∷ cmds })
      → M (record l { pending_cmds = cmds })

module _ (M : Link → Type 0) (stable : IsStable M) where
  quiet-act :
      (wire : Option ClientError) (action : Action) (l : Link)
      → is_quiet action ≡ true
      → M l
      → M (act wire action l).1
  unfolding act
  quiet-act none (send (pong n)) l q h = stable.ponged l n h
  quiet-act (some e) (send (pong n)) l q h = h
  quiet-act wire (emit event) l q h = stable.changed l l.runtime (l.told ++ event ∷ []) h
  quiet-act wire (exit_with result) l q h = h
  quiet-act wire nothing l q h = h
  quiet-act wire _ l q h = cc

  session_lem :
      (wire : Option ClientError) (cmd : SessionCommand) (cmds : List SessionCommand) (l : Link)
      → M (record l { pending_session_cmds = cmd ∷ cmds })
      → M (of_session wire cmd (record l { pending_session_cmds = cmd ∷ cmds })).1
  unfolding of_session frame_for_session_command act
  session_lem none cmd cmds l h =
      stable.changed
        (record l {
          pending_session_cmds = cmds;
          sent = l.sent ++ request_frame (take_request_id l.runtime).0 (body_of cmd) ∷ [];
        })
        (frame_for_session_command cmd l.runtime).1 l.told
        (stable.request_sent l cmd cmds (take_request_id l.runtime).0 h)
  session_lem (some e) cmd cmds l h =
      stable.changed (record l { pending_session_cmds = cmd ∷ cmds })
        (frame_for_session_command cmd l.runtime).1 l.told h

  frame_lem :
      (wire : Option ClientError) (cmd : TerminalCmd) (cmds : List TerminalCmd)
      (s runtime : RuntimeState) (l : Link) (o : Option Frame)
      → (frame_for_command cmd s).0 ≡ o
      → M (record l { pending_session_cmds = []; pending_cmds = cmd ∷ cmds })
      → M
          (queued wire
            (o, runtime)
            (record l { pending_session_cmds = []; pending_cmds = cmd ∷ cmds })).1
  unfolding act
  frame_lem wire cmd cmds s runtime l none e h =
      stable.command_dropped (record l { runtime = runtime; pending_session_cmds = [] }) cmd cmds
        (stable.changed (record l { pending_session_cmds = []; pending_cmds = cmd ∷ cmds }) runtime
          l.told h)
  frame_lem none cmd cmds s runtime l (some frame) e h =
      stable.command_sent (record l { runtime = runtime; pending_session_cmds = [] }) cmd cmds s
        frame e
        (stable.changed (record l { pending_session_cmds = []; pending_cmds = cmd ∷ cmds }) runtime
          l.told h)
  frame_lem (some x) cmd cmds s runtime l (some frame) e h =
      stable.changed (record l { pending_session_cmds = []; pending_cmds = cmd ∷ cmds }) runtime
        l.told h

  front_lem :
      (wire : Option ClientError) (cmds : List TerminalCmd) (l : Link)
      → M (record l { pending_session_cmds = []; pending_cmds = cmds })
      → M (of_front wire cmds (record l { pending_session_cmds = [] })).1
  front_lem wire [] l h = h
  front_lem wire (cmd ∷ cmds) l h =
      frame_lem wire cmd cmds l.runtime (frame_for_command cmd l.runtime).1 l
        (frame_for_command cmd l.runtime).0 refl h

  queue_lem :
      (wire : Option ClientError) (cmds : List TerminalCmd) (l : Link)
      → M (record l { pending_session_cmds = []; pending_cmds = cmds })
      → M (of_queue wire (record l { pending_session_cmds = []; pending_cmds = cmds })).1
  unfolding of_queue
  queue_lem wire cmds l h =
      front_lem wire (coalesce_pending_input_front cmds) (record l { pending_cmds = cmds })
        (stable.joined (record l { pending_session_cmds = []; pending_cmds = cmds }) h)

  handled_lem :
      (wire : Option ClientError) (r : Result ClientError Action) (s : RuntimeState) (l : Link)
      → quiet r ≡ true
      → M l
      → M (handled_action wire (r, s) l).1
  handled_lem wire (ok action) s l q h =
      quiet-act wire action (record l { runtime = s }) q (stable.changed l s l.told h)
  handled_lem wire (err e) s l q h = stable.changed l s l.told h

  choice_lem :
      (wire : Option ClientError) (choice : Choice) (l : Link)
      → M (record l { pending_session_cmds = []; pending_cmds = [] })
      → M (of_choice wire choice (record l { pending_session_cmds = []; pending_cmds = [] })).1
  unfolding of_choice
  choice_lem wire (session_command cmd) l h =
      session_lem wire cmd [] (record l { pending_cmds = []; asked = l.asked ++ cmd ∷ [] })
        (stable.asking (record l { pending_session_cmds = []; pending_cmds = [] }) cmd h)
  choice_lem wire shutdown l h = h
  choice_lem wire hung_up l h = h
  choice_lem wire (terminal_command cmd later) l h =
      let batch = batch_input_command cmd later in
      frame_lem wire batch.0 batch.1 l.runtime (frame_for_command batch.0 l.runtime).1
        (record l { entered = l.entered ++ taken cmd later })
        (frame_for_command batch.0 l.runtime).0 refl
        (stable.entering (record l { pending_session_cmds = []; pending_cmds = [] }) cmd later h)
  choice_lem wire (inbound (err e)) l h = h
  choice_lem wire (inbound (ok frame)) l h =
      handled_lem wire (handle_inbound_frame frame l.runtime).0
        (handle_inbound_frame frame l.runtime).1
        (record l { pending_session_cmds = []; pending_cmds = [] })
        (handle_inbound_frame-IsQuiet frame l.runtime) h

  queues_lem :
      (pings : List ℕ) (choice : Choice) (wire : Option ClientError) (p : List SessionCommand)
      (c : List TerminalCmd) (l : Link)
      → M (record l { pending_session_cmds = p; pending_cmds = c })
      → M
          (of_queues pings choice wire p c
            (record l { pending_session_cmds = p; pending_cmds = c })).1
  queues_lem pings choice wire (cmd ∷ cmds) c l h =
      session_lem wire cmd cmds (record l { pending_cmds = c }) h
  queues_lem pings choice wire [] (cmd ∷ cmds) l h = queue_lem wire (cmd ∷ cmds) l h
  queues_lem pings choice wire [] [] l h =
      choice_lem wire choice (record l { sent = l.sent ++ map ping pings })
        (stable.pinged (record l { pending_session_cmds = []; pending_cmds = [] }) pings h)

  turn_lem : (turn : Turn) (l : Link) → M l → M (take_turn turn l).1
  unfolding take_turn
  turn_lem (beat nonce none) l h = stable.pinged l (nonce ∷ []) h
  turn_lem (beat nonce (some e)) l h = h
  turn_lem timed_out l h = h
  turn_lem (work pings choice wire) l h =
      queues_lem pings choice wire l.pending_session_cmds l.pending_cmds l h

  onwards_lem :
      (course : Course) (l : Link) (rest : Link → Course × Link)
      → M l
      → ((k : Link) → M k → M (rest k).1)
      → M (onwards (course, l) rest).1
  onwards_lem go_on l rest h k = k l h
  onwards_lem (broken result) l rest h k =
      stable.changed l (fail_all_pending_requests (error_of result) l.runtime) l.told h
  onwards_lem (left result) l rest h k = h

  serve_lem : (turns : List Turn) (l : Link) → M l → M (serve turns l).1
  unfolding serve
  serve_lem [] l h = h
  serve_lem (turn ∷ turns) l h =
      onwards_lem (take_turn turn l).0 (take_turn turn l).1 (serve turns) (turn_lem turn l h)
        (λ k g. serve_lem turns k g)

  pub run_one_connection_lem :
      (setup : Result ClientError (ℕ × Option String)) (turns : List Turn) (l : Link)
      → M l
      → M (run_one_connection setup turns l).1
  unfolding run_one_connection
  run_one_connection_lem (err e) turns l h = h
  run_one_connection_lem (ok (session_id, server_label)) turns l h = serve_lem turns _ (
      stable.changed l (fresh l.runtime.terminal l.runtime.answers)
        (l.told ++ connected session_id server_label ∷ []) h)
