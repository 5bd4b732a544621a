-- ===== src/Client/Runtime/Streams.antt =====
-- crates/client/client-core/src/session.rs: what a frame of output does (`handle_stream_data_frame`), in
-- step with the active terminal and after the terminal was given up.
use cli_pocket.Prelude.{
  ℕ, ◌<◌, ◌≤◌, ◌≡◌, ◌≢◌, refl, ◌∙◌, ap, true, Option, none, some, ok, err, ◌==◌, ltb, Bool-cases,
  Option-cases, inl, inr, ◌⊎◌, arith, subst, ==_iff,
}
use cli_pocket.Prelude.Dict.{lookup, lookup-remove}
use cli_pocket.Proto.Frames.{StreamDataFrame}
use cli_pocket.Client.Errors.{ClientEvent, proto, said}
use cli_pocket.Client.Runtime.{
  RuntimeState, StreamState, ActiveTerminalState, TerminalHandle, Handled, emit, nothing,
  active_stream, active_terminal, update_active_seq, take_request_id, record_request, clear_active,
  clear_active_terminal, terminal_of,
}
use cli_pocket.Client.Runtime.Requests.{
  SessionCommand, frame_for_session_command, cleared_if, cleared_if_shown, give_up, txn_of,
}
use cli_pocket.Client.Runtime.Responses.{handle_stream_data_frame, on_stream}
use cli_pocket.Client.Runtime.Synced.{IsSynced, Synced}

-- A frame of the active stream is checked against the last number and shown, or refused.
abbrev pub OnActive : StreamDataFrame → RuntimeState → ActiveTerminalState → ℕ → Handled → Type 0
OnActive frame s a n h =
    (frame.seq < n → h ≡ (err (proto (said "output sequence moved backwards")), s))
    × (n ≤ frame.seq
        → (h.0 ≡ ok (emit (ClientEvent.terminal_output a.terminal frame.seq frame.bytes)))
          × (h.1.active ≡ some (record a { last_seq = some frame.seq })))

abbrev pub OnOther : StreamDataFrame → RuntimeState → Handled → Type 0
OnOther frame s h =
    (lookup frame.stream_id s.active_streams ≡ none
      → h ≡ (err (proto (said "stream data on unknown stream")), s))
    × ((state : StreamState)
        → lookup frame.stream_id s.active_streams ≡ some state
        → h ≡ (ok nothing, s))

module _ (frame : StreamDataFrame) (s : RuntimeState) (plain : frame.offset ≡ none) where
  active_case :
      (t : Option TerminalHandle) (a : ActiveTerminalState) (n : ℕ)
      → s.terminal ≡ t
      → s.active ≡ some a
      → a.last_seq ≡ some n
      → Synced t (some a) s.active_streams
      → frame.stream_id ≡ a.stream
      → OnActive frame s a n (handle_stream_data_frame frame s)
  unfolding handle_stream_data_frame active_stream update_active_seq
  active_case none a n et ea el h e = absurd h
  active_case (some handle) a n et ea el h e =
      let q : h.3.0 ≡ n = cc (h.3.1, el) in
      let look : lookup frame.stream_id s.active_streams
          ≡ some (record { terminal_id = a.terminal; last_seq = n }) =
        rw (e, ← q) (h.3.2) in
      (λ low. ground arith, λ high. (ground arith, ground arith))

  other_case :
      (a : ActiveTerminalState)
      → s.active ≡ some a
      → frame.stream_id ≢ a.stream
      → OnOther frame s (handle_stream_data_frame frame s)
  unfolding handle_stream_data_frame active_stream
  other_case a ea ne = (λ e. ground arith, λ state e. ground arith)

-- In a state in step with terminal `a`, whose last number is `n`.
pub stream_data_cases :
    (frame : StreamDataFrame) (s : RuntimeState) (a : ActiveTerminalState) (n : ℕ)
    → frame.offset ≡ none
    → IsSynced s
    → s.active ≡ some a
    → a.last_seq ≡ some n
    → (frame.stream_id ≡ a.stream → OnActive frame s a n (handle_stream_data_frame frame s))
      × (frame.stream_id ≢ a.stream → OnOther frame s (handle_stream_data_frame frame s))
stream_data_cases frame s a n plain h ea el = (
  λ e.
      active_case frame s plain s.terminal a n refl ea el
        (subst (λ o. Synced s.terminal o s.active_streams) ea h) e,
  other_case frame s plain a ea,
)

abbrev pub IsHandledAs : StreamDataFrame → RuntimeState → ActiveTerminalState → ℕ → Handled → Type 0
IsHandledAs frame s a n h =
    ((frame.stream_id ≡ a.stream)
      × (frame.seq < n)
      × (h ≡ (err (proto (said "output sequence moved backwards")), s)))
    ⊎ ((frame.stream_id ≡ a.stream)
        × (n ≤ frame.seq)
        × (h.0 ≡ ok (emit (ClientEvent.terminal_output a.terminal frame.seq frame.bytes)))
        × (h.1.active ≡ some (record a { last_seq = some frame.seq })))
    ⊎ ((frame.stream_id ≢ a.stream)
        × (lookup frame.stream_id s.active_streams ≡ none)
        × (h ≡ (err (proto (said "stream data on unknown stream")), s)))
    ⊎ ((frame.stream_id ≢ a.stream)
        × ((state : StreamState) × (lookup frame.stream_id s.active_streams ≡ some state)
            × (h ≡ (ok nothing, s))))

-- Where the handle and the active terminal agree, a frame without offset on the active stream is
-- refused, with the state as it was, if its number is below the last one, and is shown as output of
-- the active terminal with its bytes otherwise, whereupon its number is the last one. On another
-- stream it is refused when the stream is unknown and ignored when it is known, and the state stays
-- as it was.
pub stream_data_exact :
    (frame : StreamDataFrame) (s : RuntimeState) (a : ActiveTerminalState) (n : ℕ)
    → frame.offset ≡ none
    → IsSynced s
    → s.active ≡ some a
    → a.last_seq ≡ some n
    → IsHandledAs frame s a n (handle_stream_data_frame frame s)
stream_data_exact frame s a n plain h ea el =
    let cases = stream_data_cases frame s a n plain h ea el in
    elim (Bool-cases (frame.stream_id == a.stream)) [
      | inl same ↦
          let e = (==_iff frame.stream_id a.stream).0 same in
          elim (Bool-cases (ltb frame.seq n)) [
            | inl low ↦ inl (e, ground arith, (cases.0 e).0 (ground arith))
            | inr high ↦
                let shown = (cases.0 e).1 (ground arith) in
                inr (inl (e, ground arith, shown.0, shown.1))
          ]
      | inr other ↦
          let ne : frame.stream_id ≢ a.stream = λ e. ground arith in
          elim (Option-cases (lookup frame.stream_id s.active_streams)) [
            | inl absent ↦ inr (inr (inl (ne, absent, (cases.1 ne).0 absent)))
            | inr (state, there) ↦ inr (inr (inr (ne, (state, there, (cases.1 ne).1 state there))))
          ]
    ]

-- The commands that give the terminal `a` up.
abbrev pub GivesUp : ActiveTerminalState → SessionCommand → Type 0
GivesUp a (SessionCommand.open_terminal target reply) = Unit {0}
GivesUp a (SessionCommand.kill_terminal terminal reply) = terminal ≡ a.terminal
GivesUp a _ = ⊥

removed_stream :
    (a : ActiveTerminalState) (s : RuntimeState)
    → s.active ≡ some a
    → lookup a.stream (clear_active_terminal s).active_streams ≡ none
unfolding clear_active_terminal clear_active
removed_stream a s e = rw e (ground (arith, lookup-remove a.stream a.stream s.active_streams))

killed_stream :
    (a : ActiveTerminalState) (s : RuntimeState) (terminal : ℕ) (o : Option ℕ)
    → s.active ≡ some a
    → o ≡ some a.terminal
    → terminal ≡ a.terminal
    → lookup a.stream (cleared_if o terminal s).active_streams ≡ none
killed_stream a s terminal none e q g = cc
killed_stream a s terminal (some active) e q g =
    let same : (active == terminal) ≡ true = ground arith in rw same (removed_stream a s e)

given_up :
    (cmd : SessionCommand) (s : RuntimeState) (a : ActiveTerminalState)
    → IsSynced s
    → s.active ≡ some a
    → GivesUp a cmd
    → lookup a.stream (give_up cmd s).active_streams ≡ none
unfolding active_terminal
given_up (SessionCommand.open_terminal target reply) s a h e g =
    shown s.terminal (subst (λ o. Synced s.terminal o s.active_streams) e h)
  where
    shown :
        (t : Option TerminalHandle)
        → Synced t (some a) s.active_streams
        → lookup a.stream (cleared_if_shown t s).active_streams ≡ none
    shown none h = absurd h
    shown (some handle) h = removed_stream a s e
given_up (SessionCommand.kill_terminal terminal reply) s a h e g =
    killed_stream a s terminal (active_terminal s) e (ap terminal_of e) g
given_up (SessionCommand.create_terminal _ _) s a h e g = absurd g
given_up (SessionCommand.list_terminals _) s a h e g = absurd g
given_up (SessionCommand.read_history _ _ _ _) s a h e g = absurd g
given_up (SessionCommand.get_server_config _) s a h e g = absurd g
given_up (SessionCommand.set_server_config _ _) s a h e g = absurd g

-- Where the handle and the active terminal agree: once the request to open a terminal, or to kill
-- the active one, is framed, every frame of output of the stream that was active, which may be on
-- its way, is an error, and so ends the connection.
pub output_after_give_up :
    (cmd : SessionCommand) (frame : StreamDataFrame) (s : RuntimeState) (a : ActiveTerminalState)
    → IsSynced s
    → s.active ≡ some a
    → GivesUp a cmd
    → frame.stream_id ≡ a.stream
    → (handle_stream_data_frame frame (frame_for_session_command cmd s).1).0
      ≡ err (proto (said "stream data on unknown stream"))
unfolding frame_for_session_command handle_stream_data_frame take_request_id record_request
output_after_give_up cmd frame s a h e g f =
    let t = record_request s.next_request_id (txn_of cmd) (take_request_id s).1 in
    let gone : lookup frame.stream_id (give_up cmd t).active_streams ≡ none =
      ap (λ k. lookup k (give_up cmd t).active_streams) f ∙ given_up cmd t a h e g in
    ap (λ o. (on_stream o frame (give_up cmd t)).0) gone
