-- ===== src/Exchange/Requests.antt =====
-- crates/client/client-core/src/session.rs and crates/server/daemon-core/src/connection.rs: the client takes
-- the daemon's answer to each of its requests.
use cli_pocket.Prelude.{
  ℕ, ◌≡◌, sym, ◌∙◌, ap, true, some, List, [], ◌∷◌, ◌++◌, Result, ok, err, ◌==◌, arith, subst,
}
use cli_pocket.Prelude.Dict.{lookup, insert}
use cli_pocket.Proto.Frames.{
  TerminalId, RequestFrame, ResponseBody, ResponseError, OpenTerminalAck, Frame, request, response,
}
use cli_pocket.Client.Errors.{ClientError, proto, said}
use cli_pocket.Client.Runtime.{
  RuntimeState, RequestTxn, Value, Action, Handled, remove_pending, store_info, set_active,
}
use cli_pocket.Client.Runtime.Requests.{SessionCommand, frame_for_session_command, txn_of, body_of}
use cli_pocket.Client.Runtime.Responses.{
  handle_inbound_frame, handle_response_frame, handle_response_body, fail_request, failed,
  done_with, complete_open_terminal, completed, opened_response, shown, ended_at, listed_response,
  created_response, page_response, killed_response, got_config_response, set_config_response,
  store_all,
}
use cli_pocket.Client.Runtime.Replies.{IsAnswered, answer-IsAnswered}
use cli_pocket.Client.Runtime.Replies.Inbound.{store_all_same}
use cli_pocket.Client.Runtime.Replies.Runs.{reply_to, reply_of_txn, fail_txn-IsAnswered}
use cli_pocket.Daemon.Errors.{DaemonResult}
use cli_pocket.Daemon.Connection.{Outside, Connection, handle_request}
use cli_pocket.Daemon.Connection.Answers.{Fits, FitsResult, Replied, handle_request_body_lem}

abbrev pub AcceptsFrom : ℕ → Result ClientError Action → RuntimeState → Type 0
AcceptsFrom reply (ok action) s = IsAnswered s reply
AcceptsFrom reply (err e) s = ⊥

-- The frame is no error, and the reply is answered.
abbrev pub Accepts : ℕ → Handled → Type 0
Accepts reply h = AcceptsFrom reply h.0 h.1

abbrev stream_added : OpenTerminalAck → RuntimeState → RuntimeState
stream_added ack u = record u {
  active_streams =
      insert ack.stream_id (record { terminal_id = ack.info.terminal; last_seq = ack.end_seq })
        u.active_streams;
  active = ended_at ack.stream_id ack.end_seq u.active;
}

module _ (id : ℕ) (t : RuntimeState) where
  opened-Accepts :
      (target reply : ℕ) (ack : OpenTerminalAck)
      → ack.info.terminal ≡ target
      → lookup id t.pending_requests ≡ some (RequestTxn.open_terminal target reply)
      → Accepts reply (opened_response id ack (lookup id t.pending_requests) t)
  unfolding complete_open_terminal remove_pending set_active store_info
  opened-Accepts target reply ack fits e =
      let u = (remove_pending id (shown ack t)).1 in
      let same : (target == ack.info.terminal) ≡ true = ground (arith, fits) in
      let done : Accepts reply
          (completed id ack.stream_id ack (some (RequestTxn.open_terminal target reply)) u) =
        rw same (answer-IsAnswered reply (ok (Value.opened ack)) (stream_added ack u)) in
      let after : Accepts reply (complete_open_terminal id ack.stream_id ack (shown ack t)) =
        subst (λ o. Accepts reply (completed id ack.stream_id ack o u)) (sym e) done in
      subst (λ o. Accepts reply (opened_response id ack o t)) (sym e) after

  body-Accepts :
      (cmd : SessionCommand) (body : ResponseBody)
      → lookup id t.pending_requests ≡ some (txn_of cmd)
      → Fits (body_of cmd) body
      → Accepts (reply_to cmd) (handle_response_body id body t)
  unfolding handle_response_body remove_pending
  body-Accepts (SessionCommand.list_terminals reply) (ResponseBody.list_terminals terminals) e
        fits =
      let u = store_all terminals t in
      let found : lookup id u.pending_requests ≡ some (RequestTxn.list_terminals reply) =
        ap (lookup id) ((store_all_same terminals t).0) ∙ e in
      subst (λ o. Accepts reply (listed_response id terminals o (remove_pending id u).1))
        (sym found) (answer-IsAnswered reply (ok (Value.listed terminals)) (remove_pending id u).1)
  body-Accepts (SessionCommand.create_terminal params reply) (ResponseBody.create_terminal info) e
        fits =
      let u = (remove_pending id t).1 in
      subst (λ o. Accepts reply (created_response id info o u)) (sym e)
        (answer-IsAnswered reply (ok (Value.created info)) (store_info info u))
  body-Accepts (SessionCommand.open_terminal target reply) (ResponseBody.open_terminal ack) e fits =
      opened-Accepts target reply ack fits e
  body-Accepts (SessionCommand.read_history terminal before max_bytes reply)
        (ResponseBody.read_history page) e fits =
      let u = (remove_pending id t).1 in
      let same : (terminal == page.terminal_id) ≡ true = ground (arith, fits) in
      subst (λ o. Accepts reply (page_response id page o u)) (sym e)
        (rw same (answer-IsAnswered reply (ok (Value.page page)) u))
  body-Accepts (SessionCommand.kill_terminal terminal reply) ResponseBody.kill_terminal e fits =
      let u = (remove_pending id t).1 in
      subst (λ o. Accepts reply (killed_response id o u)) (sym e)
        (answer-IsAnswered reply (ok Value.killed) u)
  body-Accepts (SessionCommand.get_server_config reply) (ResponseBody.get_server_config config) e
        fits =
      let u = (remove_pending id t).1 in
      subst (λ o. Accepts reply (got_config_response id config o u)) (sym e)
        (answer-IsAnswered reply (ok (Value.config config)) u)
  body-Accepts (SessionCommand.set_server_config new reply) (ResponseBody.set_server_config config)
        e fits =
      let u = (remove_pending id t).1 in
      subst (λ o. Accepts reply (set_config_response id config o u)) (sym e)
        (answer-IsAnswered reply (ok (Value.config config)) u)
  body-Accepts cmd body e fits = absurd fits

  -- A response with an error answers the reply with it.
  error-Accepts :
      (cmd : SessionCommand) (x : ClientError)
      → lookup id t.pending_requests ≡ some (txn_of cmd)
      → Accepts (reply_to cmd) (done_with (fail_request id x t))
  unfolding fail_request remove_pending
  error-Accepts cmd x e =
      let u = (remove_pending id t).1 in
      subst (λ o. Accepts (reply_to cmd) (done_with (failed id x o u))) (sym e)
        (fail_txn-IsAnswered x (txn_of cmd) u (reply_to cmd) (reply_of_txn cmd))

  response-Accepts :
      (cmd : SessionCommand) (result : Result ResponseError ResponseBody)
      → lookup id t.pending_requests ≡ some (txn_of cmd)
      → FitsResult (body_of cmd) result
      → Accepts
          (reply_to cmd)
          (handle_inbound_frame (response (record { id = id; result = result })) t)
  unfolding handle_inbound_frame handle_response_frame
  response-Accepts cmd (ok body) e fits = body-Accepts cmd body e fits
  response-Accepts cmd (err x) e fits = error-Accepts cmd (proto (said x.message)) e

-- What a handled request leaves for the client: the frame that went out, which the client accepts.
abbrev pub GetsAnswer : {P : Type 0} → ℕ → RuntimeState → Connection P → Connection P → Type 0
GetsAnswer reply t c d =
    (frame : Frame) × (d.sent ≡ c.sent ++ frame ∷ []) × Accepts reply (handle_inbound_frame frame t)

module _ {P : Type 0} (cmd : SessionCommand) (id : ℕ) (c : Connection P) (t : RuntimeState)
    (pending : lookup id t.pending_requests ≡ some (txn_of cmd)) where
  Replied-Accepts :
      (r : DaemonResult (Unit {0})) (d : Connection P)
      → Replied id (body_of cmd) c r d
      → r ≡ ok tt
      → GetsAnswer (reply_to cmd) t c d
  Replied-Accepts (ok u) d h e = (
    response (record { id = id; result = h.0 }),
    h.1,
    response-Accepts id t cmd (h.0) pending (h.2),
  )
  Replied-Accepts (err x) d h e = cc

-- When the daemon handles the request of a session command without an error, exactly one frame goes
-- out, and a client where this request is pending handles that frame without an error and answers
-- the command's reply.
pub request_answered :
    {P : Type 0} (out : Outside P) (reaped : List TerminalId) (cmd : SessionCommand)
    (s t : RuntimeState) (c : Connection P) (r : RequestFrame)
    → (frame_for_session_command cmd s).0 ≡ request r
    → lookup r.id t.pending_requests ≡ some (txn_of cmd)
    → (handle_request out r reaped c).0 ≡ ok tt
    → GetsAnswer (reply_to cmd) t c (handle_request out r reaped c).1
unfolding frame_for_session_command handle_request
request_answered out reaped cmd s t c r asked pending done =
    let body : body_of cmd ≡ r.body = cc asked in
    Replied-Accepts cmd r.id c t pending (handle_request out r reaped c).0
      (handle_request out r reaped c).1
      (subst
        (λ b. Replied r.id b c (handle_request out r reaped c).0 (handle_request out r reaped c).1)
        (sym body) (handle_request_body_lem out r.id r.body reaped c))
      done
