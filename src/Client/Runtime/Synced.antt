-- ===== src/Client/Runtime/Synced.antt =====
-- crates/client/client-core/src/session.rs: the handle that the user has, the active terminal, and the
-- state of its stream tell the same.
use cli_pocket.Prelude.{
  ℕ, ◌≡◌, refl, Bool, true, false, Option, none, some, List, [], ◌∷◌, Result, ok, err, ◌==◌,
  if◌then◌else◌, Bool-cases, Option-cases, inl, inr, arith, ==_self,
}
use cli_pocket.Prelude.Dict.{Dict, lookup, insert, contains_key, lookup-insert}
use cli_pocket.Proto.Frames.{
  TerminalInfo, Frame, ResponseBody, ResponseError, RequestBody, OpenTerminalAck, HistoryPage,
  StreamDataFrame, EventBody, ServerConfig,
}
use cli_pocket.Client.Errors.{ClientError, proto, said}
use cli_pocket.Client.Input.{TerminalCmd, input, resize, kill}
use cli_pocket.Client.Runtime.{
  RuntimeState, StreamState, ActiveTerminalState, TerminalHandle, RequestTxn, Action, Handled,
  Answer, answer, active_stream, active_terminal, Value, stream_of, update_active_seq, store_info,
  set_active, clear_active, clear_active_terminal, remove_pending, record_request, take_request_id,
  fail_txn,
}
use cli_pocket.Client.Runtime.Requests.{
  SessionCommand, frame_for_session_command, frame_for_command, filtered, give_up, txn_of, framed,
  cleared_if, cleared_if_shown,
}
use cli_pocket.Client.Runtime.Responses.{
  handle_inbound_frame, handle_response_frame, handle_response_body, handle_stream_data_frame,
  handle_event_frame, fail_request, complete_open_terminal, store_all, listed_response,
  created_response, page_response, killed_response, got_config_response, set_config_response,
  ack_response, completed, shown, opened_response, failed, done_with, by_result, stream_fault,
  accepted, is_stream, at_offset, on_stream, ended_at, resolve,
}

abbrev pub Synced : Option TerminalHandle → Option ActiveTerminalState → Dict StreamState → Type 0
Synced none none streams = Unit {0}
Synced (some handle) (some active) streams =
    (handle.info.terminal ≡ active.terminal)
    × (handle.stream ≡ active.stream)
    × (handle.last_seq ≡ active.last_seq)
    × ((seq : ℕ) × (active.last_seq ≡ some seq)
        × (lookup active.stream streams
            ≡ some (record { terminal_id = active.terminal; last_seq = seq })))
Synced none (some active) streams = ⊥
Synced (some handle) none streams = ⊥

abbrev pub IsSynced : RuntimeState → Type 0
IsSynced s = Synced s.terminal s.active s.active_streams

-- Of what is handled without an error.
abbrev pub Keeps : Result ClientError Action → RuntimeState → Type 0
Keeps (ok action) s = IsSynced s
Keeps (err e) s = Unit {0}

abbrev pub KeepsSynced : Handled → Type 0
KeepsSynced h = Keeps h.0 h.1

pub answer-IsSynced :
    (reply : ℕ) (value : Answer) (s : RuntimeState) → IsSynced s → IsSynced (answer reply value s)
unfolding answer
answer-IsSynced reply value s h =
    elim (contains_key reply s.answers)
      as (λ b. IsSynced (if b then s else record s { answers = insert reply value s.answers })) [
        | true ↦ h
        | false ↦ h
      ]

fail_txn-IsSynced :
    (e : ClientError) (txn : RequestTxn) (s : RuntimeState)
    → IsSynced s
    → IsSynced (fail_txn e txn s)
unfolding fail_txn
fail_txn-IsSynced e (RequestTxn.open_terminal _ reply) s h = answer-IsSynced reply (err e) s h
fail_txn-IsSynced e (RequestTxn.read_history _ reply) s h = answer-IsSynced reply (err e) s h
fail_txn-IsSynced e (RequestTxn.create_terminal reply) s h = answer-IsSynced reply (err e) s h
fail_txn-IsSynced e (RequestTxn.list_terminals reply) s h = answer-IsSynced reply (err e) s h
fail_txn-IsSynced e (RequestTxn.get_config reply) s h = answer-IsSynced reply (err e) s h
fail_txn-IsSynced e (RequestTxn.set_config reply) s h = answer-IsSynced reply (err e) s h
fail_txn-IsSynced e RequestTxn.send_input_ack s h = h
fail_txn-IsSynced e RequestTxn.resize_ack s h = h
fail_txn-IsSynced e (RequestTxn.kill_terminal none) s h = h
fail_txn-IsSynced e (RequestTxn.kill_terminal (some reply)) s h = answer-IsSynced reply (err e) s h

store_all-IsSynced :
    (infos : List TerminalInfo) (s : RuntimeState) → IsSynced s → IsSynced (store_all infos s)
unfolding store_info
store_all-IsSynced [] s h = h
store_all-IsSynced (info ∷ infos) s h = store_all-IsSynced infos (store_info info s) h

clear_active_terminal-IsSynced : (s : RuntimeState) → IsSynced (clear_active_terminal s)
unfolding clear_active_terminal clear_active
clear_active_terminal-IsSynced s = tt

give_up-IsSynced : (cmd : SessionCommand) (s : RuntimeState) → IsSynced s → IsSynced (give_up cmd s)
unfolding active_terminal
give_up-IsSynced (SessionCommand.open_terminal target reply) s h =
    elim s.terminal as (λ t. IsSynced (cleared_if_shown t s)) [
      | none ↦ h
      | some _ ↦ clear_active_terminal-IsSynced s
    ]
give_up-IsSynced (SessionCommand.kill_terminal terminal reply) s h =
    elim (active_terminal s) as (λ t. IsSynced (cleared_if t terminal s)) [
      | none ↦ h
      | some active ↦
          elim (active == terminal) as (λ b. IsSynced (if b then clear_active_terminal s else s)) [
            | true ↦ clear_active_terminal-IsSynced s
            | false ↦ h
          ]
    ]
give_up-IsSynced (SessionCommand.create_terminal params reply) s h = h
give_up-IsSynced (SessionCommand.list_terminals reply) s h = h
give_up-IsSynced (SessionCommand.read_history terminal before max_bytes reply) s h = h
give_up-IsSynced (SessionCommand.get_server_config reply) s h = h
give_up-IsSynced (SessionCommand.set_server_config config reply) s h = h

pub frame_for_session_command-IsSynced :
    (cmd : SessionCommand) (s : RuntimeState)
    → IsSynced s
    → IsSynced (frame_for_session_command cmd s).1
unfolding frame_for_session_command take_request_id record_request
frame_for_session_command-IsSynced cmd s h =
    give_up-IsSynced cmd (record_request s.next_request_id (txn_of cmd) (take_request_id s).1) h

filtered-IsSynced :
    (o : Option TerminalHandle) (terminal : ℕ) (txn : RequestTxn) (body : RequestBody)
    (s : RuntimeState)
    → IsSynced s
    → IsSynced (filtered o terminal txn body s).1
unfolding take_request_id record_request
filtered-IsSynced none terminal txn body s h = h
filtered-IsSynced (some handle) terminal txn body s h =
    elim (handle.info.terminal == terminal)
      as (λ b. IsSynced (if b then framed txn body s else (none, s)).1) [ true ↦ h | false ↦ h ]

pub frame_for_command-IsSynced :
    (cmd : TerminalCmd) (s : RuntimeState) → IsSynced s → IsSynced (frame_for_command cmd s).1
unfolding frame_for_command
frame_for_command-IsSynced (input terminal bytes) s h =
    filtered-IsSynced s.terminal terminal _ _ s h
frame_for_command-IsSynced (resize terminal cols rows) s h =
    filtered-IsSynced s.terminal terminal _ _ s h
frame_for_command-IsSynced (kill terminal) s h = filtered-IsSynced s.terminal terminal _ _ s h

resolve-IsSynced :
    (reply : ℕ) (value : Value) (s : RuntimeState)
    → IsSynced s
    → KeepsSynced (resolve reply value s)
resolve-IsSynced reply value s h = answer-IsSynced reply (ok value) s h

-- The entry that an insertion leaves for its stream.
lookup_self : (k : ℕ) (v : StreamState) (m : Dict StreamState) → lookup k (insert k v m) ≡ some v
lookup_self k v m = ground (arith, lookup-insert k k v m)

opened-Synced :
    (ack : OpenTerminalAck) (t : Option TerminalHandle) (a : Option ActiveTerminalState)
    (streams : Dict StreamState)
    → t ≡ some (record { info = ack.info; stream = ack.stream_id; last_seq = some ack.end_seq })
    → a
      ≡ some (record {
        terminal = ack.info.terminal;
        stream = ack.stream_id;
        last_seq = some ack.end_seq;
      })
    → Synced t (ended_at ack.stream_id ack.end_seq a) (
        insert ack.stream_id
          (record { terminal_id = ack.info.terminal; last_seq = ack.end_seq })
          streams)
opened-Synced ack t a streams et ea =
    rw (et, ea, ==_self ack.stream_id)
      (refl, refl, refl, (ack.end_seq, refl, lookup_self ack.stream_id _ streams))

completed-IsSynced :
    (id : ℕ) (ack : OpenTerminalAck) (found : Option RequestTxn) (s : RuntimeState)
    → (s.terminal
        ≡ some (record { info = ack.info; stream = ack.stream_id; last_seq = some ack.end_seq }))
    → (s.active
        ≡ some (record {
          terminal = ack.info.terminal;
          stream = ack.stream_id;
          last_seq = some ack.end_seq;
        }))
    → KeepsSynced (completed id ack.stream_id ack found s)
completed-IsSynced id ack none s t a = tt
completed-IsSynced id ack (some (RequestTxn.open_terminal terminal reply)) s t a =
    elim (Bool-cases (terminal == ack.info.terminal)) [
      | inl same ↦ rw same (
          resolve-IsSynced reply (Value.opened ack) _
            (opened-Synced ack s.terminal s.active s.active_streams t a))
      | inr other ↦ rw other tt
    ]
completed-IsSynced id ack (some (RequestTxn.read_history _ _)) s t a = tt
completed-IsSynced id ack (some (RequestTxn.create_terminal _)) s t a = tt
completed-IsSynced id ack (some (RequestTxn.list_terminals _)) s t a = tt
completed-IsSynced id ack (some (RequestTxn.get_config _)) s t a = tt
completed-IsSynced id ack (some (RequestTxn.set_config _)) s t a = tt
completed-IsSynced id ack (some RequestTxn.send_input_ack) s t a = tt
completed-IsSynced id ack (some RequestTxn.resize_ack) s t a = tt
completed-IsSynced id ack (some (RequestTxn.kill_terminal _)) s t a = tt

-- A frame of the active stream that passed the checks moves all the numbers alike.
moved-Synced :
    (handle : TerminalHandle) (active : ActiveTerminalState) (state : StreamState)
    (frame : StreamDataFrame) (streams : Dict StreamState)
    → Synced (some handle) (some active) streams
    → stream_fault (some active) state frame.seq ≡ none
    → (active.stream == frame.stream_id) ≡ true
    → Synced
        (some (record handle { last_seq = some frame.seq }))
        (some (record active { last_seq = some frame.seq }))
        (insert frame.stream_id
          (record { terminal_id = state.terminal_id; last_seq = frame.seq })
          streams)
moved-Synced handle active state frame streams h fine same = (
  h.0,
  h.1,
  refl,
  (
    frame.seq,
    refl,
    ground (
      arith,
      lookup-insert frame.stream_id active.stream
          (record { terminal_id = state.terminal_id; last_seq = frame.seq }) streams,
    ),
  ),
)

accepted-IsSynced :
    (t : Option TerminalHandle) (a : Option ActiveTerminalState) (state : StreamState)
    (frame : StreamDataFrame) (s : RuntimeState)
    → s.terminal ≡ t
    → s.active ≡ a
    → is_stream frame.stream_id (stream_of a) ≡ true
    → Synced t a s.active_streams
    → KeepsSynced (accepted (stream_fault a state frame.seq) state frame s)
unfolding update_active_seq
accepted-IsSynced none none state frame s et ea e h = cc
accepted-IsSynced none (some active) state frame s et ea e h = absurd h
accepted-IsSynced (some handle) none state frame s et ea e h = absurd h
accepted-IsSynced (some handle) (some active) state frame s et ea e h =
    elim (Option-cases (stream_fault (some active) state frame.seq)) [
      | inl fine ↦
          rw (fine, et, ea) (moved-Synced handle active state frame s.active_streams h fine e)
      | inr (m, fault) ↦ rw fault tt
    ]

handle_stream_data_frame-IsSynced :
    (frame : StreamDataFrame) (s : RuntimeState)
    → IsSynced s
    → KeepsSynced (handle_stream_data_frame frame s)
unfolding handle_stream_data_frame
handle_stream_data_frame-IsSynced frame s h = found (lookup frame.stream_id s.active_streams)
  where
    on_active :
        (state : StreamState) (b : Bool)
        → is_stream frame.stream_id (active_stream s) ≡ b
        → KeepsSynced (
            if b
            then accepted (stream_fault s.active state frame.seq) state frame s
            else (ok Action.nothing, s))
    on_active state true e =
        accepted-IsSynced s.terminal s.active state frame s refl refl (unfold active_stream in e) h
    on_active state false e = h

    offset : (o : Option ℕ) (state : StreamState) → KeepsSynced (at_offset o state frame s)
    offset (some _) state = tt
    offset none state = on_active state (is_stream frame.stream_id (active_stream s)) refl

    found : (o : Option StreamState) → KeepsSynced (on_stream o frame s)
    found none = tt
    found (some state) = offset frame.offset state

-- What the responses do with the transaction that they find.
module _ (id : ℕ) (s : RuntimeState) (h : IsSynced s) where
  listed-IsSynced :
      (terminals : List TerminalInfo) (found : Option RequestTxn)
      → KeepsSynced (listed_response id terminals found s)
  listed-IsSynced terminals (some (RequestTxn.list_terminals reply)) = resolve-IsSynced reply _ s h
  listed-IsSynced terminals none = tt
  listed-IsSynced terminals (some other) = tt

  created-IsSynced :
      (info : TerminalInfo) (found : Option RequestTxn)
      → KeepsSynced (created_response id info found s)
  unfolding store_info
  created-IsSynced info (some (RequestTxn.create_terminal reply)) =
      answer-IsSynced reply _ (store_info info s) h
  created-IsSynced info none = tt
  created-IsSynced info (some other) = tt

  page-IsSynced :
      (page : HistoryPage) (found : Option RequestTxn) → KeepsSynced (page_response id page found s)
  page-IsSynced page (some (RequestTxn.read_history terminal reply)) =
      elim (Bool-cases (terminal == page.terminal_id)) [
        | inl same ↦ rw same (resolve-IsSynced reply _ s h)
        | inr other ↦ rw other tt
      ]
  page-IsSynced page none = tt
  page-IsSynced page (some other) = tt

  killed-IsSynced : (found : Option RequestTxn) → KeepsSynced (killed_response id found s)
  killed-IsSynced (some (RequestTxn.kill_terminal (some reply))) = resolve-IsSynced reply _ s h
  killed-IsSynced (some (RequestTxn.kill_terminal none)) = h
  killed-IsSynced none = tt
  killed-IsSynced (some other) = tt

  got_config-IsSynced :
      (config : ServerConfig) (found : Option RequestTxn)
      → KeepsSynced (got_config_response id config found s)
  got_config-IsSynced config (some (RequestTxn.get_config reply)) = resolve-IsSynced reply _ s h
  got_config-IsSynced config none = tt
  got_config-IsSynced config (some other) = tt

  set_config-IsSynced :
      (config : ServerConfig) (found : Option RequestTxn)
      → KeepsSynced (set_config_response id config found s)
  set_config-IsSynced config (some (RequestTxn.set_config reply)) = resolve-IsSynced reply _ s h
  set_config-IsSynced config none = tt
  set_config-IsSynced config (some other) = tt

  ack-IsSynced : (found : Option RequestTxn) → KeepsSynced (ack_response id found s)
  ack-IsSynced (some RequestTxn.send_input_ack) = h
  ack-IsSynced (some RequestTxn.resize_ack) = h
  ack-IsSynced none = tt
  ack-IsSynced (some other) = tt

opened-IsSynced :
    (id : ℕ) (ack : OpenTerminalAck) (found : Option RequestTxn) (s : RuntimeState)
    → KeepsSynced (opened_response id ack found s)
unfolding complete_open_terminal remove_pending set_active
opened-IsSynced id ack (some (RequestTxn.open_terminal terminal reply)) s =
    completed-IsSynced id ack (lookup id (shown ack s).pending_requests)
      (remove_pending id (shown ack s)).1 refl refl
opened-IsSynced id ack none s = tt
opened-IsSynced id ack (some other) s = tt

handle_response_body-IsSynced :
    (id : ℕ) (body : ResponseBody) (s : RuntimeState)
    → IsSynced s
    → KeepsSynced (handle_response_body id body s)
unfolding handle_response_body remove_pending
handle_response_body-IsSynced id (ResponseBody.list_terminals terminals) s h =
    let t = store_all terminals s in
    listed-IsSynced id (remove_pending id t).1 (store_all-IsSynced terminals s h) terminals
      (lookup id t.pending_requests)
handle_response_body-IsSynced id (ResponseBody.create_terminal info) s h =
    created-IsSynced id (remove_pending id s).1 h info _
handle_response_body-IsSynced id (ResponseBody.open_terminal ack) s h =
    opened-IsSynced id ack (lookup id s.pending_requests) s
handle_response_body-IsSynced id (ResponseBody.read_history page) s h =
    page-IsSynced id (remove_pending id s).1 h page _
handle_response_body-IsSynced id ResponseBody.kill_terminal s h =
    killed-IsSynced id (remove_pending id s).1 h _
handle_response_body-IsSynced id (ResponseBody.get_server_config config) s h =
    got_config-IsSynced id (remove_pending id s).1 h config _
handle_response_body-IsSynced id (ResponseBody.set_server_config config) s h =
    set_config-IsSynced id (remove_pending id s).1 h config _
handle_response_body-IsSynced id ResponseBody.send_input s h =
    ack-IsSynced id (remove_pending id s).1 h _
handle_response_body-IsSynced id ResponseBody.resize_terminal s h =
    ack-IsSynced id (remove_pending id s).1 h _

failed-IsSynced :
    (id : ℕ) (e : ClientError) (found : Option RequestTxn) (s : RuntimeState)
    → IsSynced s
    → KeepsSynced (done_with (failed id e found s))
failed-IsSynced id e none s h = tt
failed-IsSynced id e (some txn) s h = fail_txn-IsSynced e txn s h

by_result-IsSynced :
    (id : ℕ) (r : Result ResponseError ResponseBody) (s : RuntimeState)
    → IsSynced s
    → KeepsSynced (by_result id r s)
unfolding fail_request remove_pending
by_result-IsSynced id (ok body) s h = handle_response_body-IsSynced id body s h
by_result-IsSynced id (err e) s h =
    failed-IsSynced id (proto (said e.message)) (lookup id s.pending_requests)
      (remove_pending id s).1 h

event-IsSynced :
    (event : EventBody) (s : RuntimeState) → IsSynced s → IsSynced (handle_event_frame event s).1
unfolding handle_event_frame store_info
event-IsSynced EventBody.connected s h = h
event-IsSynced (EventBody.disconnected reason) s h = h
event-IsSynced (EventBody.terminal_created info) s h = h
event-IsSynced (EventBody.error e message) s h = h

pub handle_inbound_frame-IsSynced :
    (frame : Frame) (s : RuntimeState) → IsSynced s → KeepsSynced (handle_inbound_frame frame s)
unfolding handle_inbound_frame handle_response_frame
handle_inbound_frame-IsSynced (Frame.response response) s h =
    by_result-IsSynced response.id response.result s h
handle_inbound_frame-IsSynced (Frame.stream_data frame) s h =
    handle_stream_data_frame-IsSynced frame s h
handle_inbound_frame-IsSynced (Frame.event event) s h = event-IsSynced event s h
handle_inbound_frame-IsSynced (Frame.bye reason) s h = h
handle_inbound_frame-IsSynced (Frame.ping nonce) s h = h
handle_inbound_frame-IsSynced _ s h = h
