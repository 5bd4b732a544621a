-- ===== src/Exchange/Tests.antt =====
-- A client and its daemon: the theorems at concrete values.
use cli_pocket.Prelude.{◌≡◌, refl, false, none, some, List, [], ◌∷◌, ok, err, arith}
use cli_pocket.Prelude.Dict.{lookup, insert}
use cli_pocket.Pty.Ring.{snapshot_with_max_bytes, find_last, snapshot_from_anchor}
use cli_pocket.Proto.Frames.{TerminalInfo, RequestBody, RequestFrame, request}
use cli_pocket.Client.Errors.{proto, said}
use cli_pocket.Client.Runtime.{
  RuntimeState, ActiveTerminalState, fresh, take_request_id, record_request,
}
use cli_pocket.Client.Runtime.Requests.{SessionCommand, frame_for_session_command, txn_of}
use cli_pocket.Client.Runtime.Synced.{IsSynced}
use cli_pocket.Client.Runtime.Responses.{handle_stream_data_frame}
use cli_pocket.Daemon.Sessions.{attach}
use cli_pocket.Daemon.Connection.{
  Connection, ack_of, open_terminal_max_bytes, handle_request, handle_request_body, send_frame,
  handle_history_read_request,
}
use cli_pocket.Daemon.Connection.Output.{OutputChunk, OutboundOutput, live_output_frames}
use cli_pocket.Daemon.Sample.{shell, outside}
use cli_pocket.Exchange.Requests.{GetsAnswer, request_answered}
use cli_pocket.Exchange.Opening.{opening_overlap}

abbrev connection : Connection (Unit {0})
connection = record {
  manager = record { registered = (7, 1000) ∷ []; terminals = (7, shell) ∷ []; max_terminals = 1 };
  streams = [];
  next_local_stream_id = 1;
  scrollback_bytes = 1000;
  config_path = false;
  sent = [];
}

-- Asks for the page of history before the end.
abbrev ask : SessionCommand
ask = SessionCommand.read_history 7 none 10 33

abbrev asked : RequestFrame
asked = record { id = 1; body = RequestBody.read_history 7 none 10 }

asking : RuntimeState
asking = (frame_for_session_command ask (fresh none [])).1

page_sent : (handle_request outside asked [] connection).0 ≡ ok tt
unfolding handle_request handle_request_body handle_history_read_request attach lookup send_frame
page_sent = refl

page_pending : lookup 1 asking.pending_requests ≡ some (txn_of ask)
unfolding asking frame_for_session_command take_request_id record_request lookup insert
page_pending = refl

page_asked : (frame_for_session_command ask (fresh none [])).0 ≡ request asked
unfolding frame_for_session_command take_request_id
page_asked = refl

request_answered_example :
    GetsAnswer 33 asking connection (handle_request outside asked [] connection).1
request_answered_example =
    request_answered outside [] ask (fresh none []) asking connection asked page_asked page_pending
      page_sent

abbrev info : TerminalInfo
info = record {
  terminal = 7;
  cols = 80;
  rows = 24;
  created_at_unix_ms = 1000;
  label = none;
  attached_clients = 0;
}

abbrev active : ActiveTerminalState
active = record { terminal = 7; stream = 1; last_seq = some 5 }

abbrev opened : RuntimeState
opened = record {
  active = some active;
  info_cache = [];
  pending_requests = [];
  active_streams = (1, record { terminal_id = 7; last_seq = 5 }) ∷ [];
  terminal = some (record { info = info; stream = 1; last_seq = some 5 });
  answers = [];
  next_request_id = 2;
}

opened-IsSynced : IsSynced opened
unfolding lookup
opened-IsSynced = (refl, refl, refl, (5, refl, refl))

ends_at_head :
    active.last_seq
    ≡ some
        (ack_of active.stream info shell
          (snapshot_with_max_bytes shell.ring open_terminal_max_bytes)).end_seq
unfolding snapshot_with_max_bytes find_last snapshot_from_anchor
ends_at_head = refl

abbrev early : OutputChunk
early = record { seq_at_end = 4; bytes = 100 ∷ [] }

opening_overlap_example :
    (f : OutboundOutput) × (rest : List OutboundOutput) × (live_output_frames 1 7 early
      ≡ ok (f ∷ rest))
    × (handle_stream_data_frame f.frame opened
        ≡ (err (proto (said "output sequence moved backwards")), opened))
opening_overlap_example =
    opening_overlap opened active info shell early opened-IsSynced refl ends_at_head (omega arith)
      (omega arith) (omega arith) (omega arith)
