-- ===== src/Client/Runtime/Replies/Runs.antt =====
-- crates/client/client-core/src/session.rs: the states that a connection goes through, from request to
-- request and frame to frame, and its end in `fail_all_pending_requests`.
use cli_pocket.Prelude.{
  ℕ, ◌<◌, ◌≡◌, refl, true, false, Option, none, some, [], ◌∷◌, ok, err, ◌==◌, if◌then◌else◌,
  Bool-cases, inl, inr, ◌⊎◌, arith, subst,
}
use cli_pocket.Prelude.Dict.{Dict, lookup, values, lookup-insert}
use cli_pocket.Proto.Frames.{Frame, RequestBody}
use cli_pocket.Client.Errors.{ClientError}
use cli_pocket.Client.Input.{TerminalCmd, input, resize, kill}
use cli_pocket.Client.Runtime.{
  RuntimeState, RequestTxn, TerminalHandle, Action, fail_txn, take_request_id, record_request,
  clear_active, clear_active_terminal, active_terminal, u32_max,
}
use cli_pocket.Client.Runtime.Requests.{
  SessionCommand, frame_for_session_command, frame_for_command, filtered, give_up, txn_of, framed,
  cleared_if, cleared_if_shown,
}
use cli_pocket.Client.Runtime.Responses.{handle_inbound_frame, fail_all, fail_all_pending_requests}
use cli_pocket.Client.Runtime.Synced.{
  IsSynced, Keeps, frame_for_session_command-IsSynced, frame_for_command-IsSynced,
  handle_inbound_frame-IsSynced,
}
use cli_pocket.Client.Runtime.Replies.{
  AnswersStand, IsCarried, IsHandled, IsOwed, IsAnswered, IsNumbered, IsAnswered-kept,
  IsCarried-self, IsCarried-trans, reply_of, kept-answer, answer-IsAnswered,
}
use cli_pocket.Client.Runtime.Replies.Inbound.{HandledFrom, handle_inbound_frame-IsHandled}

-- One turn of the connection: a command is framed, or a frame is handled without an error.
pub data Step (s : RuntimeState) : RuntimeState → Type 0 where
  session_command :
      (cmd : SessionCommand)
      → s.next_request_id < u32_max
      → Step s (frame_for_session_command cmd s).1
  terminal_command :
      (cmd : TerminalCmd) → s.next_request_id < u32_max → Step s (frame_for_command cmd s).1
  inbound :
      (frame : Frame) (action : Action)
      → (handle_inbound_frame frame s).0 ≡ ok action
      → Step s (handle_inbound_frame frame s).1

pub data Run (s : RuntimeState) : RuntimeState → Type 0 where
  here : Run s s
  next : {t u : RuntimeState} → Run s t → Step t u → Run s u

-- A request that is recorded under a new number.
module _ (s : RuntimeState) (txn : RequestTxn) (numbered : IsNumbered s)
    (small : s.next_request_id < u32_max) where
  abbrev recorded : RuntimeState
  recorded = record_request s.next_request_id txn (take_request_id s).1

  recorded-IsCarried : IsCarried s recorded
  unfolding record_request take_request_id
  recorded-IsCarried = record {
    kept = λ reply value e. e;
    owed = λ reply o. inl (
      o.0,
      o.1,
      ground
          (arith, numbered o.0 o.1 o.2, lookup-insert s.next_request_id o.0 txn s.pending_requests),
      o.3,
    );
  }

  recorded-IsNumbered : IsNumbered recorded
  unfolding record_request take_request_id
  recorded-IsNumbered id x e =
      ground (arith, numbered id x, lookup-insert s.next_request_id id txn s.pending_requests)

  recorded-IsOwed : (reply : ℕ) → reply_of txn ≡ some reply → IsOwed recorded reply
  unfolding record_request take_request_id
  recorded-IsOwed reply r = (
    s.next_request_id,
    txn,
    ground (arith, lookup-insert s.next_request_id s.next_request_id txn s.pending_requests),
    r,
  )

-- What does not concern the requests keeps all that is said of them.
abbrev pub Same : RuntimeState → RuntimeState → Type 0
Same s t =
    (t.pending_requests ≡ s.pending_requests)
    × (t.answers ≡ s.answers)
    × (t.next_request_id ≡ s.next_request_id)

clear_active_terminal-Same : (s : RuntimeState) → Same s (clear_active_terminal s)
unfolding clear_active_terminal clear_active
clear_active_terminal-Same s = (refl, refl, refl)

pub give_up-Same : (cmd : SessionCommand) (s : RuntimeState) → Same s (give_up cmd s)
give_up-Same (SessionCommand.open_terminal target reply) s =
    elim s.terminal as (λ t. Same s (cleared_if_shown t s)) [
      | none ↦ (refl, refl, refl)
      | some _ ↦ clear_active_terminal-Same s
    ]
give_up-Same (SessionCommand.kill_terminal terminal reply) s =
    elim (active_terminal s) as (λ t. Same s (cleared_if t terminal s)) [
      | none ↦ (refl, refl, refl)
      | some active ↦
          elim (active == terminal) as (λ b. Same s (if b then clear_active_terminal s else s)) [
            | true ↦ clear_active_terminal-Same s
            | false ↦ (refl, refl, refl)
          ]
    ]
give_up-Same (SessionCommand.create_terminal params reply) s = (refl, refl, refl)
give_up-Same (SessionCommand.list_terminals reply) s = (refl, refl, refl)
give_up-Same (SessionCommand.read_history terminal before max_bytes reply) s = (refl, refl, refl)
give_up-Same (SessionCommand.get_server_config reply) s = (refl, refl, refl)
give_up-Same (SessionCommand.set_server_config config reply) s = (refl, refl, refl)

Same-IsCarried : (s t u : RuntimeState) → Same t u → IsCarried s t → IsCarried s u
Same-IsCarried s t u e c = record {
  kept = λ reply value h. rw (e.1) (c.kept reply value h);
  owed = λ reply o. elim (c.owed reply o) [
    | inl still ↦ inl (still.0, still.1, rw (e.0) (still.2), still.3)
    | inr a ↦ inr (rw (e.1) a)
  ];
}

Same-IsNumbered : (t u : RuntimeState) → Same t u → IsNumbered t → IsNumbered u
Same-IsNumbered t u e n id txn h = rw (e.2) (n id txn (rw (← e.0) h))

-- A step keeps the numbers of the requests in order, and the replies.
abbrev Good : RuntimeState → RuntimeState → Type 0
Good s t = IsCarried s t × IsNumbered t

session_command-Good :
    (cmd : SessionCommand) (s : RuntimeState)
    → IsNumbered s
    → s.next_request_id < u32_max
    → Good s (frame_for_session_command cmd s).1
unfolding frame_for_session_command take_request_id
session_command-Good cmd s n small =
    let r = recorded s (txn_of cmd) n small in
    let e = give_up-Same cmd r in
    (
      Same-IsCarried s r (give_up cmd r) e (recorded-IsCarried s (txn_of cmd) n small),
      Same-IsNumbered r (give_up cmd r) e (recorded-IsNumbered s (txn_of cmd) n small),
    )

filtered-Good :
    (o : Option TerminalHandle) (terminal : ℕ) (txn : RequestTxn) (body : RequestBody)
    (s : RuntimeState)
    → IsNumbered s
    → s.next_request_id < u32_max
    → Good s (filtered o terminal txn body s).1
unfolding take_request_id
filtered-Good none terminal txn body s n small = (IsCarried-self s, n)
filtered-Good (some handle) terminal txn body s n small =
    elim (handle.info.terminal == terminal)
      as (λ b. Good s (if b then framed txn body s else (none, s)).1) [
        | true ↦ (recorded-IsCarried s txn n small, recorded-IsNumbered s txn n small)
        | false ↦ (IsCarried-self s, n)
      ]

terminal_command-Good :
    (cmd : TerminalCmd) (s : RuntimeState)
    → IsNumbered s
    → s.next_request_id < u32_max
    → Good s (frame_for_command cmd s).1
unfolding frame_for_command
terminal_command-Good (input terminal bytes) s n small =
    filtered-Good s.terminal terminal _ _ s n small
terminal_command-Good (resize terminal cols rows) s n small =
    filtered-Good s.terminal terminal _ _ s n small
terminal_command-Good (kill terminal) s n small = filtered-Good s.terminal terminal _ _ s n small

handled-Good : (s t : RuntimeState) → IsNumbered s → IsHandled s t → Good s t
handled-Good s t n h = (h.carried, λ id txn e. rw (h.counter) (n id txn (h.fewer id txn e)))

inbound-Good :
    (frame : Frame) (s : RuntimeState) (action : Action)
    → IsNumbered s
    → (handle_inbound_frame frame s).0 ≡ ok action
    → Good s (handle_inbound_frame frame s).1
inbound-Good frame s action n e = handled-Good s _ n (
    subst (λ r. HandledFrom s r (handle_inbound_frame frame s).1) e
      (handle_inbound_frame-IsHandled frame s))

step-Good : {s t : RuntimeState} → Step s t → IsNumbered s → Good s t
step-Good {s} (session_command cmd small) n = session_command-Good cmd s n small
step-Good {s} (terminal_command cmd small) n = terminal_command-Good cmd s n small
step-Good {s} (inbound frame action e) n = inbound-Good frame s action n e

Run-Good : {s t : RuntimeState} → Run s t → IsNumbered s → Good s t
Run-Good {s} here n = (IsCarried-self s, n)
Run-Good (next r st) n =
    let before = Run-Good r n in
    let after = step-Good st (before.1) in (IsCarried-trans (before.0) (after.0), after.1)

step-IsSynced : {s t : RuntimeState} → Step s t → IsSynced s → IsSynced t
step-IsSynced {s} (session_command cmd small) h = frame_for_session_command-IsSynced cmd s h
step-IsSynced {s} (terminal_command cmd small) h = frame_for_command-IsSynced cmd s h
step-IsSynced {s} (inbound frame action e) h =
    subst (λ r. Keeps r (handle_inbound_frame frame s).1) e
      (handle_inbound_frame-IsSynced frame s h)

-- Whatever commands are framed and whatever frames are handled without an error, as long as the
-- request numbers stay within 32 bits: the handle that the user has and the active terminal name
-- the same terminal, stream and last number, which are those in the table of streams, or there is
-- neither.
pub Run-IsSynced : {s t : RuntimeState} → IsSynced s → Run s t → IsSynced t
Run-IsSynced h here = h
Run-IsSynced h (next r st) = step-IsSynced st (Run-IsSynced h r)

-- Failing all requests.
same_some : (a b : ℕ) → some a ≡ some b → a ≡ b
same_some a b h = cc

none_ne : (b : ℕ) → none ≡ some b → ⊥
none_ne b h = cc

fail_txn-AnswersStand :
    (e : ClientError) (txn : RequestTxn) (s : RuntimeState) → AnswersStand s (fail_txn e txn s)
unfolding fail_txn
fail_txn-AnswersStand e (RequestTxn.open_terminal terminal reply) s = kept-answer reply (err e) s
fail_txn-AnswersStand e (RequestTxn.read_history terminal reply) s = kept-answer reply (err e) s
fail_txn-AnswersStand e (RequestTxn.create_terminal reply) s = kept-answer reply (err e) s
fail_txn-AnswersStand e (RequestTxn.list_terminals reply) s = kept-answer reply (err e) s
fail_txn-AnswersStand e (RequestTxn.get_config reply) s = kept-answer reply (err e) s
fail_txn-AnswersStand e (RequestTxn.set_config reply) s = kept-answer reply (err e) s
fail_txn-AnswersStand e (RequestTxn.kill_terminal (some reply)) s = kept-answer reply (err e) s
fail_txn-AnswersStand e RequestTxn.send_input_ack s = λ other v h. h
fail_txn-AnswersStand e RequestTxn.resize_ack s = λ other v h. h
fail_txn-AnswersStand e (RequestTxn.kill_terminal none) s = λ other v h. h

pub fail_txn-IsAnswered :
    (e : ClientError) (txn : RequestTxn) (s : RuntimeState) (asked : ℕ)
    → reply_of txn ≡ some asked
    → IsAnswered (fail_txn e txn s) asked
unfolding fail_txn
fail_txn-IsAnswered e (RequestTxn.open_terminal terminal reply) s asked r =
    rw (← same_some reply asked r) (answer-IsAnswered reply (err e) s)
fail_txn-IsAnswered e (RequestTxn.read_history terminal reply) s asked r =
    rw (← same_some reply asked r) (answer-IsAnswered reply (err e) s)
fail_txn-IsAnswered e (RequestTxn.create_terminal reply) s asked r =
    rw (← same_some reply asked r) (answer-IsAnswered reply (err e) s)
fail_txn-IsAnswered e (RequestTxn.list_terminals reply) s asked r =
    rw (← same_some reply asked r) (answer-IsAnswered reply (err e) s)
fail_txn-IsAnswered e (RequestTxn.get_config reply) s asked r =
    rw (← same_some reply asked r) (answer-IsAnswered reply (err e) s)
fail_txn-IsAnswered e (RequestTxn.set_config reply) s asked r =
    rw (← same_some reply asked r) (answer-IsAnswered reply (err e) s)
fail_txn-IsAnswered e (RequestTxn.kill_terminal (some reply)) s asked r =
    rw (← same_some reply asked r) (answer-IsAnswered reply (err e) s)
fail_txn-IsAnswered e RequestTxn.send_input_ack s asked r = absurd (none_ne asked r)
fail_txn-IsAnswered e RequestTxn.resize_ack s asked r = absurd (none_ne asked r)
fail_txn-IsAnswered e (RequestTxn.kill_terminal none) s asked r = absurd (none_ne asked r)

fail_all-AnswersStand :
    (e : ClientError) (m : Dict RequestTxn) (s : RuntimeState)
    → AnswersStand s (fail_all e (values m) s)
fail_all-AnswersStand e [] s reply v h = h
fail_all-AnswersStand e ((id, txn) ∷ m) s reply v h =
    fail_all-AnswersStand e m (fail_txn e txn s) reply v (fail_txn-AnswersStand e txn s reply v h)

fail_all-IsAnswered :
    (e : ClientError) (m : Dict RequestTxn) (s : RuntimeState) (id : ℕ) (txn : RequestTxn)
    (reply : ℕ)
    → lookup id m ≡ some txn
    → reply_of txn ≡ some reply
    → IsAnswered (fail_all e (values m) s) reply
unfolding lookup
fail_all-IsAnswered e [] s id txn reply h r = cc
fail_all-IsAnswered e ((other, x) ∷ m) s id txn reply h r = elim (Bool-cases (other == id)) [
  | inl same ↦
      let y : x ≡ txn = ground arith in
      IsAnswered-kept (fail_txn e x s) (fail_all e (values m) (fail_txn e x s)) reply
        (fail_all-AnswersStand e m (fail_txn e x s)) (fail_txn-IsAnswered e x s reply (rw y r))
  | inr ne ↦ fail_all-IsAnswered e m (fail_txn e x s) id txn reply (ground arith) r
]

module _ (e : ClientError) (t : RuntimeState) where
  end-AnswersStand : AnswersStand t (fail_all_pending_requests e t)
  unfolding fail_all_pending_requests clear_active
  end-AnswersStand = fail_all-AnswersStand e t.pending_requests (record t { pending_requests = [] })

  end-IsAnswered :
      (reply : ℕ)
      → IsOwed t reply ⊎ IsAnswered t reply
      → IsAnswered (fail_all_pending_requests e t) reply
  unfolding fail_all_pending_requests clear_active
  end-IsAnswered reply (inl o) =
      fail_all-IsAnswered e t.pending_requests (record t { pending_requests = [] }) o.0 o.1 reply
        o.2 o.3
  end-IsAnswered reply (inr a) =
      IsAnswered-kept t (fail_all_pending_requests e t) reply end-AnswersStand a

-- The reply that a command brings.
abbrev pub reply_to : SessionCommand → ℕ
reply_to (SessionCommand.create_terminal params reply) = reply
reply_to (SessionCommand.open_terminal target reply) = reply
reply_to (SessionCommand.list_terminals reply) = reply
reply_to (SessionCommand.read_history terminal before max_bytes reply) = reply
reply_to (SessionCommand.get_server_config reply) = reply
reply_to (SessionCommand.set_server_config config reply) = reply
reply_to (SessionCommand.kill_terminal terminal reply) = reply

pub reply_of_txn : (cmd : SessionCommand) → reply_of (txn_of cmd) ≡ some (reply_to cmd)
reply_of_txn (SessionCommand.create_terminal params reply) = refl
reply_of_txn (SessionCommand.open_terminal target reply) = refl
reply_of_txn (SessionCommand.list_terminals reply) = refl
reply_of_txn (SessionCommand.read_history terminal before max_bytes reply) = refl
reply_of_txn (SessionCommand.get_server_config reply) = refl
reply_of_txn (SessionCommand.set_server_config config reply) = refl
reply_of_txn (SessionCommand.kill_terminal terminal reply) = refl

IsOwed-after :
    (cmd : SessionCommand) (s : RuntimeState)
    → IsNumbered s
    → s.next_request_id < u32_max
    → IsOwed (frame_for_session_command cmd s).1 (reply_to cmd)
unfolding frame_for_session_command take_request_id
IsOwed-after cmd s n small =
    let o = recorded-IsOwed s (txn_of cmd) n small (reply_to cmd) (reply_of_txn cmd) in
    (o.0, o.1, rw ((give_up-Same cmd (recorded s (txn_of cmd) n small)).0) (o.2), o.3)

-- A session command that is framed under a number that is new and below the limit of 32 bits has
-- its reply answered once the connection, after any commands and any frames handled without an
-- error, fails all that is pending; and no answer that was given before is given again or changed.
pub replies_settled :
    (cmd : SessionCommand) (s t : RuntimeState) (e : ClientError)
    → IsNumbered s
    → s.next_request_id < u32_max
    → Run (frame_for_session_command cmd s).1 t
    → IsAnswered (fail_all_pending_requests e t) (reply_to cmd)
      × AnswersStand s (fail_all_pending_requests e t)
replies_settled cmd s t e n small r =
    let first = session_command-Good cmd s n small in
    let run = Run-Good r (first.1) in
    (
      end-IsAnswered e t (reply_to cmd) (run.0.owed (reply_to cmd) (IsOwed-after cmd s n small)),
      λ reply v h. end-AnswersStand e t reply v (run.0.kept reply v (first.0.kept reply v h)),
    )
