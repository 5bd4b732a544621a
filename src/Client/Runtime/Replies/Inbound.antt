-- ===== src/Client/Runtime/Replies/Inbound.antt =====
-- crates/client/client-core/src/session.rs: no frame of the daemon loses a reply, unless it ends the connection.
use cli_pocket.Prelude.{
  ℕ, ◌≡◌, refl, sym, ap, Bool, true, false, Option, none, some, List, [], ◌∷◌, Result, ok, err,
  ◌==◌, if◌then◌else◌, Bool-cases, inl, inr,
}
use cli_pocket.Prelude.Dict.{lookup, remove}
use cli_pocket.Proto.Frames.{
  TerminalInfo, Frame, ResponseBody, ResponseError, OpenTerminalAck, HistoryPage, StreamDataFrame,
  EventBody, ServerConfig,
}
use cli_pocket.Client.Errors.{ClientError, Message, proto, said}
use cli_pocket.Client.Runtime.{
  RuntimeState, StreamState, TerminalHandle, RequestTxn, Action, Handled, active_stream,
  update_active_seq, store_info, set_active, remove_pending,
}
use cli_pocket.Client.Runtime.Responses.{
  handle_inbound_frame, handle_response_frame, handle_response_body, handle_stream_data_frame,
  handle_event_frame, fail_request, complete_open_terminal, store_all, listed_response,
  created_response, page_response, killed_response, got_config_response, set_config_response,
  ack_response, completed, shown, opened_response, failed, done_with, by_result, stream_fault,
  output_to, accepted, is_stream, at_offset, on_stream,
}
use cli_pocket.Client.Runtime.Replies.{IsHandled, IsWithout, resolved, silent, failed_txn}

abbrev pub HandledFrom : RuntimeState → Result ClientError Action → RuntimeState → Type 0
HandledFrom s (ok action) t = IsHandled s t
HandledFrom s (err e) t = Unit {0}

abbrev pub Handles : RuntimeState → Handled → Type 0
Handles s h = HandledFrom s h.0 h.1

-- What is not about requests.
pub untouched :
    (s t : RuntimeState)
    → t.pending_requests ≡ s.pending_requests
    → t.answers ≡ s.answers
    → t.next_request_id ≡ s.next_request_id
    → IsHandled s t
untouched s t p a n = record {
  carried = record {
    kept = λ reply value e. rw a e;
    owed = λ reply o. inl (o.0, o.1, rw p (o.2), o.3);
  };
  fewer = λ id txn e. rw (← p) e;
  counter = n;
}

module _ (id : ℕ) (s t : RuntimeState) (w : IsWithout id s t) where
  listed_lem :
      (terminals : List TerminalInfo) (found : Option RequestTxn)
      → lookup id s.pending_requests ≡ found
      → Handles s (listed_response id terminals found t)
  listed_lem terminals (some (RequestTxn.list_terminals reply)) e =
      resolved id s t w (RequestTxn.list_terminals reply) e reply _ refl
  listed_lem terminals none e = tt
  listed_lem terminals (some other) e = tt

  created_lem :
      (info : TerminalInfo) (found : Option RequestTxn)
      → lookup id s.pending_requests ≡ found
      → Handles s (created_response id info found t)
  unfolding store_info
  created_lem info (some (RequestTxn.create_terminal reply)) e =
      resolved id s (store_info info t)
        (record { pending = w.pending; answers = w.answers; counter = w.counter })
        (RequestTxn.create_terminal reply) e reply _ refl
  created_lem info none e = tt
  created_lem info (some other) e = tt

  page_lem :
      (page : HistoryPage) (found : Option RequestTxn)
      → lookup id s.pending_requests ≡ found
      → Handles s (page_response id page found t)
  page_lem page (some (RequestTxn.read_history terminal reply)) e =
      elim (Bool-cases (terminal == page.terminal_id)) [
        | inl same ↦
            rw same (resolved id s t w (RequestTxn.read_history terminal reply) e reply _ refl)
        | inr other ↦ rw other tt
      ]
  page_lem page none e = tt
  page_lem page (some other) e = tt

  killed_lem :
      (found : Option RequestTxn)
      → lookup id s.pending_requests ≡ found
      → Handles s (killed_response id found t)
  killed_lem (some (RequestTxn.kill_terminal (some reply))) e =
      resolved id s t w (RequestTxn.kill_terminal (some reply)) e reply _ refl
  killed_lem (some (RequestTxn.kill_terminal none)) e =
      silent id s t w (RequestTxn.kill_terminal none) e refl
  killed_lem none e = tt
  killed_lem (some other) e = tt

  got_config_lem :
      (config : ServerConfig) (found : Option RequestTxn)
      → lookup id s.pending_requests ≡ found
      → Handles s (got_config_response id config found t)
  got_config_lem config (some (RequestTxn.get_config reply)) e =
      resolved id s t w (RequestTxn.get_config reply) e reply _ refl
  got_config_lem config none e = tt
  got_config_lem config (some other) e = tt

  set_config_lem :
      (config : ServerConfig) (found : Option RequestTxn)
      → lookup id s.pending_requests ≡ found
      → Handles s (set_config_response id config found t)
  set_config_lem config (some (RequestTxn.set_config reply)) e =
      resolved id s t w (RequestTxn.set_config reply) e reply _ refl
  set_config_lem config none e = tt
  set_config_lem config (some other) e = tt

  ack_lem :
      (found : Option RequestTxn)
      → lookup id s.pending_requests ≡ found
      → Handles s (ack_response id found t)
  ack_lem (some RequestTxn.send_input_ack) e = silent id s t w RequestTxn.send_input_ack e refl
  ack_lem (some RequestTxn.resize_ack) e = silent id s t w RequestTxn.resize_ack e refl
  ack_lem none e = tt
  ack_lem (some other) e = tt

  failed_lem :
      (x : ClientError) (found : Option RequestTxn)
      → lookup id s.pending_requests ≡ found
      → Handles s (done_with (failed id x found t))
  failed_lem x none e = tt
  failed_lem x (some txn) e = failed_txn id s t x txn w e

  completed_lem :
      (ack : OpenTerminalAck) (found : Option RequestTxn)
      → lookup id s.pending_requests ≡ found
      → Handles s (completed id ack.stream_id ack found t)
  completed_lem ack (some (RequestTxn.open_terminal terminal reply)) e =
      elim (Bool-cases (terminal == ack.info.terminal)) [
        | inl same ↦ rw same (
            resolved id s _
              (record { pending = w.pending; answers = w.answers; counter = w.counter })
              (RequestTxn.open_terminal terminal reply) e reply _ refl)
        | inr other ↦ rw other tt
      ]
  completed_lem ack none e = tt
  completed_lem ack (some other) e = tt

removed : (id : ℕ) (s : RuntimeState) → IsWithout id s (remove_pending id s).1
unfolding remove_pending
removed id s = record { pending = refl; answers = refl; counter = refl }

pub store_all_same :
    (infos : List TerminalInfo) (s : RuntimeState)
    → ((store_all infos s).pending_requests ≡ s.pending_requests)
      × ((store_all infos s).answers ≡ s.answers)
      × ((store_all infos s).next_request_id ≡ s.next_request_id)
unfolding store_info
store_all_same [] s = (refl, refl, refl)
store_all_same (info ∷ infos) s = store_all_same infos (store_info info s)

removed_stored :
    (id : ℕ) (infos : List TerminalInfo) (s : RuntimeState)
    → IsWithout id s (remove_pending id (store_all infos s)).1
unfolding remove_pending
removed_stored id infos s =
    let same = store_all_same infos s in
    record { pending = ap (remove id) (same.0); answers = same.1; counter = same.2 }

opened_lem :
    (id : ℕ) (ack : OpenTerminalAck) (found : Option RequestTxn) (s : RuntimeState)
    → Handles s (opened_response id ack found s)
unfolding complete_open_terminal remove_pending set_active store_info
opened_lem id ack (some (RequestTxn.open_terminal terminal reply)) s =
    completed_lem id s (remove_pending id (shown ack s)).1
      (record { pending = refl; answers = refl; counter = refl }) ack (lookup id s.pending_requests)
      refl
opened_lem id ack none s = tt
opened_lem id ack (some other) s = tt

handle_response_body_lem :
    (id : ℕ) (body : ResponseBody) (s : RuntimeState) → Handles s (handle_response_body id body s)
unfolding handle_response_body remove_pending
handle_response_body_lem id (ResponseBody.list_terminals terminals) s =
    listed_lem id s (remove_pending id (store_all terminals s)).1 (removed_stored id terminals s)
      terminals (lookup id (store_all terminals s).pending_requests)
      (ap (lookup id) (sym ((store_all_same terminals s).0)))
handle_response_body_lem id (ResponseBody.create_terminal info) s =
    created_lem id s (remove_pending id s).1 (removed id s) info _ refl
handle_response_body_lem id (ResponseBody.open_terminal ack) s =
    opened_lem id ack (lookup id s.pending_requests) s
handle_response_body_lem id (ResponseBody.read_history page) s =
    page_lem id s (remove_pending id s).1 (removed id s) page _ refl
handle_response_body_lem id ResponseBody.kill_terminal s =
    killed_lem id s (remove_pending id s).1 (removed id s) _ refl
handle_response_body_lem id (ResponseBody.get_server_config config) s =
    got_config_lem id s (remove_pending id s).1 (removed id s) config _ refl
handle_response_body_lem id (ResponseBody.set_server_config config) s =
    set_config_lem id s (remove_pending id s).1 (removed id s) config _ refl
handle_response_body_lem id ResponseBody.send_input s =
    ack_lem id s (remove_pending id s).1 (removed id s) _ refl
handle_response_body_lem id ResponseBody.resize_terminal s =
    ack_lem id s (remove_pending id s).1 (removed id s) _ refl

by_result_lem :
    (id : ℕ) (r : Result ResponseError ResponseBody) (s : RuntimeState)
    → Handles s (by_result id r s)
unfolding fail_request remove_pending
by_result_lem id (ok body) s = handle_response_body_lem id body s
by_result_lem id (err e) s =
    failed_lem id s (remove_pending id s).1 (removed id s) (proto (said e.message)) _ refl

output_lem :
    (o : Option TerminalHandle) (frame : StreamDataFrame) (s t : RuntimeState)
    → IsHandled s t
    → Handles s (output_to o frame t)
unfolding update_active_seq
output_lem none frame s t h = h
output_lem (some handle) frame s t h = record {
  carried = record { kept = h.carried.kept; owed = h.carried.owed };
  fewer = h.fewer;
  counter = h.counter;
}

accepted_lem :
    (fault : Option Message) (state : StreamState) (frame : StreamDataFrame) (s : RuntimeState)
    → Handles s (accepted fault state frame s)
accepted_lem (some fault) state frame s = tt
accepted_lem none state frame s = output_lem s.terminal frame s _ (untouched s _ refl refl refl)

on_stream_lem :
    (frame : StreamDataFrame) (s : RuntimeState) (found : Option StreamState)
    → Handles s (on_stream found frame s)
on_stream_lem frame s none = tt
on_stream_lem frame s (some state) = offset frame.offset
  where
    on_active :
        (b : Bool)
        → Handles s (
            if b
            then accepted (stream_fault s.active state frame.seq) state frame s
            else (ok Action.nothing, s))
    on_active true = accepted_lem (stream_fault s.active state frame.seq) state frame s
    on_active false = untouched s s refl refl refl

    offset : (o : Option ℕ) → Handles s (at_offset o state frame s)
    offset (some _) = tt
    offset none = on_active (is_stream frame.stream_id (active_stream s))

event_lem : (event : EventBody) (s : RuntimeState) → IsHandled s (handle_event_frame event s).1
unfolding handle_event_frame store_info
event_lem EventBody.connected s = untouched s _ refl refl refl
event_lem (EventBody.disconnected reason) s = untouched s _ refl refl refl
event_lem (EventBody.terminal_created info) s = untouched s _ refl refl refl
event_lem (EventBody.error e message) s = untouched s _ refl refl refl

pub handle_inbound_frame-IsHandled :
    (frame : Frame) (s : RuntimeState) → Handles s (handle_inbound_frame frame s)
unfolding handle_inbound_frame handle_response_frame handle_stream_data_frame
handle_inbound_frame-IsHandled (Frame.response response) s =
    by_result_lem response.id response.result s
handle_inbound_frame-IsHandled (Frame.stream_data frame) s =
    on_stream_lem frame s (lookup frame.stream_id s.active_streams)
handle_inbound_frame-IsHandled (Frame.event event) s = event_lem event s
handle_inbound_frame-IsHandled (Frame.bye reason) s = untouched s s refl refl refl
handle_inbound_frame-IsHandled (Frame.ping nonce) s = untouched s s refl refl refl
handle_inbound_frame-IsHandled _ s = untouched s s refl refl refl
