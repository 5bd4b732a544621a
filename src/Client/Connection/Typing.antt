-- ===== src/Client/Connection/Typing.antt =====
-- crates/client/client-core/src/session.rs: the input of a terminal on one connection, and the queue of what
-- was not sent.
use mathlib.Core.List.{append_assoc, append-nil}
use cli_pocket.Prelude.{
  ℕ, String, ◌≡◌, refl, sym, subst, ap, ◌∙◌, Option, none, some, List, [], ◌∷◌, ◌++◌, map, Result,
  ◌==◌, true, false, if◌then◌else◌,
}
use cli_pocket.Prelude.Dict.{Dict}
use cli_pocket.Proto.Wire.{Bytes}
use cli_pocket.Proto.Frames.{TerminalId, RequestBody, Frame, ping, pong, request}
use cli_pocket.Client.Errors.{ClientError}
use cli_pocket.Client.Input.{
  TerminalCmd, input, resize, kill, Event, key, events_of, events, typed, coalesce-events,
}
use cli_pocket.Client.Input.Batch.{events-append, typed-append, handed_out, collect-SameEffects}
use cli_pocket.Client.Runtime.{RuntimeState, TerminalHandle, Answer, RequestTxn, take_request_id}
use cli_pocket.Client.Runtime.Requests.{
  SessionCommand, body_of, frame_for_command, filtered, framed, request_frame,
}
use cli_pocket.Client.Connection.{Link, Turn, batch_input_command, taken, run_one_connection}
use cli_pocket.Client.Connection.Requests.{before_setup}
use cli_pocket.Client.Connection.Moves.{IsStable, run_one_connection_lem}

-- The second list is the first with some of its elements left out.
pub data Subsequence : Bytes → Bytes → Type 0 where
  done : Subsequence [] []
  keep : (b : ℕ) {xs ys : Bytes} → Subsequence xs ys → Subsequence (b ∷ xs) (b ∷ ys)
  skip : (b : ℕ) {xs ys : Bytes} → Subsequence xs ys → Subsequence (b ∷ xs) ys

Subsequence-self : (xs : Bytes) → Subsequence xs xs
Subsequence-self [] = done
Subsequence-self (b ∷ xs) = keep b (Subsequence-self xs)

Subsequence-trans : {xs ys zs : Bytes} → Subsequence xs ys → Subsequence ys zs → Subsequence xs zs
Subsequence-trans done q = q
Subsequence-trans (keep b p) (keep c q) = keep b (Subsequence-trans p q)
Subsequence-trans (keep b p) (skip c q) = skip b (Subsequence-trans p q)
Subsequence-trans (skip b p) q = skip b (Subsequence-trans p q)

Subsequence-append :
    {xs ys : Bytes} (zs : Bytes) → Subsequence xs ys → Subsequence (xs ++ zs) (ys ++ zs)
Subsequence-append zs done = Subsequence-self zs
Subsequence-append zs (keep b p) = keep b (Subsequence-append zs p)
Subsequence-append zs (skip b p) = skip b (Subsequence-append zs p)

left_out : (ys zs : Bytes) → Subsequence (ys ++ zs) zs
left_out [] zs = Subsequence-self zs
left_out (b ∷ ys) zs = skip b (left_out ys zs)

without_middle : (xs ys zs : Bytes) → Subsequence (xs ++ (ys ++ zs)) (xs ++ zs)
without_middle [] ys zs = left_out ys zs
without_middle (b ∷ xs) ys zs = keep b (without_middle xs ys zs)

abbrev pub input_of : RequestBody → List Event
input_of (RequestBody.send_input terminal bytes) = map (key terminal) bytes
input_of _ = []

abbrev pub inputs_of : Frame → List Event
inputs_of (request r) = input_of r.body
inputs_of _ = []

abbrev pub inputs_in : List Frame → List Event
inputs_in [] = []
inputs_in (frame ∷ frames) = inputs_of frame ++ inputs_in frames

inputs_in-append : (xs ys : List Frame) → inputs_in (xs ++ ys) ≡ inputs_in xs ++ inputs_in ys
inputs_in-append [] ys = refl
inputs_in-append (x ∷ xs) ys =
    ap (λ r. inputs_of x ++ r) (inputs_in-append xs ys)
    ∙ sym (append_assoc (inputs_of x) (inputs_in xs) (inputs_in ys))

inputs_in-pings : (ns : List ℕ) → inputs_in (map ping ns) ≡ []
inputs_in-pings [] = refl
inputs_in-pings (n ∷ ns) = inputs_in-pings ns

silent_lem :
    (sent more : List Frame) → inputs_in more ≡ [] → inputs_in (sent ++ more) ≡ inputs_in sent
silent_lem sent more e =
    inputs_in-append sent more ∙ ap (λ r. inputs_in sent ++ r) e ∙ append-nil (inputs_in sent)

session-silent :
    (id : ℕ) (cmd : SessionCommand) → inputs_in (request_frame id (body_of cmd) ∷ []) ≡ []
session-silent id (SessionCommand.create_terminal params reply) = refl
session-silent id (SessionCommand.open_terminal target reply) = refl
session-silent id (SessionCommand.list_terminals reply) = refl
session-silent id (SessionCommand.read_history terminal before max_bytes reply) = refl
session-silent id (SessionCommand.get_server_config reply) = refl
session-silent id (SessionCommand.set_server_config config reply) = refl
session-silent id (SessionCommand.kill_terminal terminal reply) = refl

-- What a frame types is what its command does.
abbrev Carries : ℕ → List Event → Option Frame → Type 0
Carries t es none = Unit {0}
Carries t es (some frame) = typed t (inputs_of frame) ≡ typed t es

framed-Carries :
    (t : ℕ) (es : List Event) (o : Option TerminalHandle) (terminal : TerminalId) (txn : RequestTxn)
    (body : RequestBody) (s : RuntimeState)
    → typed t (input_of body) ≡ typed t es
    → Carries t es (filtered o terminal txn body s).0
unfolding take_request_id
framed-Carries t es none terminal txn body s e = tt
framed-Carries t es (some handle) terminal txn body s e =
    elim (handle.info.terminal == terminal)
      as (λ b. Carries t es (if b then framed txn body s else (none, s)).0) [
        | true ↦ e
        | false ↦ tt
      ]

command-Carries :
    (t : ℕ) (cmd : TerminalCmd) (s : RuntimeState)
    → Carries t (events_of cmd) (frame_for_command cmd s).0
unfolding frame_for_command
command-Carries t (input terminal bytes) s =
    framed-Carries t (events_of (input terminal bytes)) s.terminal terminal _ _ s refl
command-Carries t (resize terminal cols rows) s = framed-Carries t [] s.terminal terminal _ _ s refl
command-Carries t (kill terminal) s = framed-Carries t [] s.terminal terminal _ _ s refl

batch-typed :
    (t : ℕ) (cmd : TerminalCmd) (later : List TerminalCmd)
    → typed t (events (handed_out (batch_input_command cmd later)))
      ≡ typed t (events (taken cmd later))
unfolding batch_input_command
batch-typed t (input terminal bytes) later = (collect-SameEffects later terminal bytes [] refl).0 t
batch-typed t (resize terminal cols rows) later = refl
batch-typed t (kill terminal) later = refl

-- What a terminal's program is typed by commands.
abbrev pub typed_by : ℕ → List TerminalCmd → Bytes
typed_by t cmds = typed t (events cmds)

typed_by-append :
    (t : ℕ) (cs ds : List TerminalCmd) → typed_by t (cs ++ ds) ≡ typed_by t cs ++ typed_by t ds
typed_by-append t cs ds =
    ap (typed t) (events-append cs ds) ∙ typed-append t (events cs) (events ds)

-- With `q`, the bytes that waited at first.
abbrev IsKept : ℕ → Bytes → Link → Type 0
IsKept t q l =
    Subsequence (q ++ typed_by t l.entered)
      (typed t (inputs_in l.sent) ++ typed_by t l.pending_cmds)

module _ (t : ℕ) (q : Bytes) where
  IsKept-silent :
      (l : Link) (more : List Frame)
      → inputs_in more ≡ []
      → IsKept t q l
      → IsKept t q (record l { sent = l.sent ++ more })
  IsKept-silent l more e h =
      subst
        (λ es. Subsequence (q ++ typed_by t l.entered) (typed t es ++ typed_by t l.pending_cmds))
        (sym (silent_lem l.sent more e)) h

  entering_lem :
      (l : Link) (cmd : TerminalCmd) (later : List TerminalCmd)
      → IsKept t q (record l { pending_cmds = [] })
      → Subsequence
          (q ++ typed_by t (l.entered ++ taken cmd later))
          (typed t (inputs_in l.sent) ++ typed_by t (handed_out (batch_input_command cmd later)))
  entering_lem l cmd later h =
      let before = q ++ typed_by t l.entered in
      let sent = typed t (inputs_in l.sent) in
      let new = typed_by t (taken cmd later) in
      subst (λ xs. Subsequence xs (sent ++ typed_by t (handed_out (batch_input_command cmd later))))
        (append_assoc q (typed_by t l.entered) new
          ∙ ap (λ r. q ++ r) (sym (typed_by-append t l.entered (taken cmd later))))
        (subst (λ ys. Subsequence (before ++ new) (sent ++ ys)) (sym (batch-typed t cmd later))
          (Subsequence-append new (subst (λ ys. Subsequence before ys) (append-nil sent) h)))

  IsKept-sent :
      (l : Link) (cmd : TerminalCmd) (cmds : List TerminalCmd) (s : RuntimeState) (frame : Frame)
      → (frame_for_command cmd s).0 ≡ some frame
      → IsKept t q (record l { pending_cmds = cmd ∷ cmds })
      → IsKept t q (record l { pending_cmds = cmds; sent = l.sent ++ frame ∷ [] })
  IsKept-sent l cmd cmds s frame e h =
      let sent = typed t (inputs_in l.sent) in
      subst (Subsequence (q ++ typed_by t l.entered))
        (ap (λ r. sent ++ r)
            (typed-append t (events_of cmd) (events cmds)
              ∙ ap (λ r. r ++ typed_by t cmds)
                  (sym (subst (Carries t (events_of cmd)) e (command-Carries t cmd s))))
          ∙ sym (append_assoc sent (typed t (inputs_of frame)) (typed_by t cmds))
          ∙ ap (λ r. r ++ typed_by t cmds)
              (sym (typed-append t (inputs_in l.sent) (inputs_of frame))
                ∙ ap (λ r. typed t (inputs_in l.sent ++ r)) (sym (append-nil (inputs_of frame)))
                ∙ ap (typed t) (sym (inputs_in-append l.sent (frame ∷ [])))))
        h

  IsKept-dropped :
      (l : Link) (cmd : TerminalCmd) (cmds : List TerminalCmd)
      → IsKept t q (record l { pending_cmds = cmd ∷ cmds })
      → IsKept t q (record l { pending_cmds = cmds })
  IsKept-dropped l cmd cmds h =
      let sent = typed t (inputs_in l.sent) in
      Subsequence-trans
        (subst (λ r. Subsequence (q ++ typed_by t l.entered) (sent ++ r))
          (typed-append t (events_of cmd) (events cmds)) h)
        (without_middle sent (typed t (events_of cmd)) (typed_by t cmds))

  IsKept-IsStable : IsStable (IsKept t q)
  IsKept-IsStable = record {
    changed = λ l runtime told h. h;
    pinged = λ l ns h. IsKept-silent l (map ping ns) (inputs_in-pings ns) h;
    ponged = λ l n h. IsKept-silent l (pong n ∷ []) refl h;
    asking = λ l cmd h. h;
    request_sent = λ l cmd cmds id h.
        IsKept-silent (record l { pending_session_cmds = cmds })
          (request_frame id (body_of cmd) ∷ []) (session-silent id cmd) h;
    joined = λ l h.
        subst
          (λ es. Subsequence (q ++ typed_by t l.entered) (typed t (inputs_in l.sent) ++ typed t es))
          (sym (coalesce-events l.pending_cmds)) h;
    entering = entering_lem;
    command_sent = IsKept-sent;
    command_dropped = IsKept-dropped;
  }

-- Whatever happens on a connection, and wherever it stops: the bytes that its frames type at a
-- terminal, followed by those that still wait in the queue, are a subsequence of those that waited
-- at first followed by those that were taken from the channel. So no byte is typed twice, none is made
-- up, and none overtakes another, though some may be left out.
pub input_in_order :
    (setup : Result ClientError (ℕ × Option String)) (turns : List Turn)
    (terminal : Option TerminalHandle) (answers : Dict Answer) (cmds : List TerminalCmd)
    (session_cmds : List SessionCommand) (t : ℕ)
    → let l =
        (run_one_connection setup turns (before_setup terminal answers cmds session_cmds)).1 in
      Subsequence
        (typed_by t cmds ++ typed_by t l.entered)
        (typed t (inputs_in l.sent) ++ typed_by t l.pending_cmds)
input_in_order setup turns terminal answers cmds session_cmds t =
    run_one_connection_lem (IsKept t (typed_by t cmds)) (IsKept-IsStable t (typed_by t cmds)) setup
      turns (before_setup terminal answers cmds session_cmds)
      (subst (λ xs. Subsequence xs (typed_by t cmds)) (sym (append-nil (typed_by t cmds)))
        (Subsequence-self (typed_by t cmds)))
