-- ===== src/Client/Connection/Settled.antt =====
-- crates/client/client-core/src/session.rs: what becomes of a request that was sent, when its
-- connection breaks off.
use cli_pocket.Prelude.{
  ℕ, ◌<◌, ◌≡◌, refl, sym, subst, ap, ◌∙◌, none, some, List, [], ◌∷◌, Result, err, true, false,
  if◌then◌else◌,
}
use cli_pocket.Prelude.Dict.{values, insert, contains_key}
use cli_pocket.Client.Errors.{ClientError}
use cli_pocket.Client.Runtime.{
  RuntimeState, RequestTxn, Answer, answer, fail_txn, clear_active, u32_max,
}
use cli_pocket.Client.Runtime.Requests.{SessionCommand, frame_for_session_command}
use cli_pocket.Client.Runtime.Responses.{fail_all, fail_all_pending_requests}
use cli_pocket.Client.Runtime.Replies.{IsAnswered, AnswersStand, IsNumbered}
use cli_pocket.Client.Runtime.Replies.Runs.{reply_to, replies_settled}
use cli_pocket.Client.Connection.{
  Link, Choice, Turn, work, broken, act, of_session, take_turn, error_of, serve,
}
use cli_pocket.Client.Connection.Leading.{session_command-Leads, Broke, Ends, serve-Ends}

answer-counter :
    (reply : ℕ) (value : Answer) (s : RuntimeState)
    → (answer reply value s).next_request_id ≡ s.next_request_id
unfolding answer
answer-counter reply value s =
    elim (contains_key reply s.answers)
      as (λ b.
        (if b then s else record s { answers = insert reply value s.answers }).next_request_id
        ≡ s.next_request_id) [ true ↦ refl | false ↦ refl ]

fail_txn-counter :
    (e : ClientError) (txn : RequestTxn) (s : RuntimeState)
    → (fail_txn e txn s).next_request_id ≡ s.next_request_id
unfolding fail_txn
fail_txn-counter e (RequestTxn.open_terminal terminal reply) s = answer-counter reply (err e) s
fail_txn-counter e (RequestTxn.read_history terminal reply) s = answer-counter reply (err e) s
fail_txn-counter e (RequestTxn.create_terminal reply) s = answer-counter reply (err e) s
fail_txn-counter e (RequestTxn.list_terminals reply) s = answer-counter reply (err e) s
fail_txn-counter e (RequestTxn.get_config reply) s = answer-counter reply (err e) s
fail_txn-counter e (RequestTxn.set_config reply) s = answer-counter reply (err e) s
fail_txn-counter e (RequestTxn.kill_terminal (some reply)) s = answer-counter reply (err e) s
fail_txn-counter e (RequestTxn.kill_terminal none) s = refl
fail_txn-counter e RequestTxn.send_input_ack s = refl
fail_txn-counter e RequestTxn.resize_ack s = refl

fail_all-counter :
    (e : ClientError) (txns : List RequestTxn) (s : RuntimeState)
    → (fail_all e txns s).next_request_id ≡ s.next_request_id
fail_all-counter e [] s = refl
fail_all-counter e (txn ∷ txns) s =
    fail_all-counter e txns (fail_txn e txn s) ∙ fail_txn-counter e txn s

failed-counter :
    (e : ClientError) (s : RuntimeState)
    → (fail_all_pending_requests e s).next_request_id ≡ s.next_request_id
unfolding fail_all_pending_requests clear_active
failed-counter e s =
    fail_all-counter e (values s.pending_requests) (record s { pending_requests = [] })

broken-settled :
    (cmd : SessionCommand) (s : RuntimeState) (result : Result ClientError (Unit {0})) (k : Link)
    → IsNumbered s
    → k.runtime.next_request_id < u32_max
    → Broke (frame_for_session_command cmd s).1 result k
    → IsAnswered k.runtime (reply_to cmd) × AnswersStand s k.runtime
broken-settled cmd s result k numbered small b =
    let last_small =
      subst (λ n. n < u32_max)
        (ap (λ r. r.next_request_id) b.failed_all ∙ failed-counter (error_of result) b.last)
        small in
    let (counted_small, run) = b.leads last_small in
    let (first, framing) = session_command-Leads cmd s counted_small in
    subst (λ r. IsAnswered r (reply_to cmd) × AnswersStand s r) (sym b.failed_all)
      (replies_settled cmd s b.last (error_of result) numbered first run)

-- A session command at the front of the queue whose request is sent on a connection has its reply
-- answered by the time the connection breaks off, whatever happens in between: the daemon's goodbye and
-- the heartbeat's end of patience leave no reply open, and no answer that was given is changed. The
-- request numbers that are open at first are below the next one, which is below the limit of 32 bits
-- at the end. (A connection that the function leaves at once, on an error, is not one that breaks off.)
pub queue_front_settled :
    (cmd : SessionCommand) (cmds : List SessionCommand) (pings : List ℕ) (choice : Choice)
    (turns : List Turn) (l : Link) (result : Result ClientError (Unit {0})) (k : Link)
    → IsNumbered l.runtime
    → serve (work pings choice none ∷ turns) (record l { pending_session_cmds = cmd ∷ cmds })
      ≡ (broken result, k)
    → k.runtime.next_request_id < u32_max
    → IsAnswered k.runtime (reply_to cmd) × AnswersStand l.runtime k.runtime
unfolding serve take_turn of_session act
queue_front_settled cmd cmds pings choice turns l result k numbered e small =
    let sent =
      (take_turn (work pings choice none) (record l { pending_session_cmds = cmd ∷ cmds })).1 in
    broken-settled cmd l.runtime result k numbered small
      (subst (λ r. Ends (frame_for_session_command cmd l.runtime).1 r) e (serve-Ends turns sent))
