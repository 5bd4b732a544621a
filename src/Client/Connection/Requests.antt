-- ===== src/Client/Connection/Requests.antt =====
-- crates/client/client-core/src/session.rs: the requests of a session on one connection, and the queue of
-- those that were not sent.
use mathlib.Core.List.{append_assoc, append-nil}
use cli_pocket.Prelude.{
  ℕ, String, ◌≡◌, refl, sym, ap, ◌∙◌, Option, none, some, List, [], ◌∷◌, ◌++◌, map, Result, ◌==◌,
  true, false, if◌then◌else◌,
}
use cli_pocket.Prelude.Dict.{Dict}
use cli_pocket.Proto.Frames.{TerminalId, RequestBody, Frame, ping, pong, request}
use cli_pocket.Client.Errors.{ClientError}
use cli_pocket.Client.Input.{TerminalCmd, input, resize, kill}
use cli_pocket.Client.Runtime.{
  RuntimeState, TerminalHandle, Answer, RequestTxn, take_request_id, fresh,
}
use cli_pocket.Client.Runtime.Requests.{
  SessionCommand, body_of, frame_for_command, filtered, framed, request_frame,
}
use cli_pocket.Client.Connection.{Link, Turn, run_one_connection}
use cli_pocket.Client.Connection.Moves.{IsStable, run_one_connection_lem}

-- The requests that only a session makes; a terminal may ask for its own end too.
abbrev pub of_sessions : RequestBody → List RequestBody
of_sessions RequestBody.list_terminals = RequestBody.list_terminals ∷ []
of_sessions (RequestBody.create_terminal params) = RequestBody.create_terminal params ∷ []
of_sessions (RequestBody.open_terminal target) = RequestBody.open_terminal target ∷ []
of_sessions (RequestBody.read_history terminal before max_bytes) =
    RequestBody.read_history terminal before max_bytes ∷ []
of_sessions RequestBody.get_server_config = RequestBody.get_server_config ∷ []
of_sessions (RequestBody.set_server_config config) = RequestBody.set_server_config config ∷ []
of_sessions _ = []

abbrev pub of_frame : Frame → List RequestBody
of_frame (request r) = of_sessions r.body
of_frame _ = []

abbrev pub requests_in : List Frame → List RequestBody
requests_in [] = []
requests_in (frame ∷ frames) = of_frame frame ++ requests_in frames

abbrev pub requests_for : List SessionCommand → List RequestBody
requests_for [] = []
requests_for (cmd ∷ cmds) = of_sessions (body_of cmd) ++ requests_for cmds

-- A connection that is about to be set up, with the queues that earlier ones left.
abbrev pub before_setup :
    Option TerminalHandle → Dict Answer → List TerminalCmd → List SessionCommand → Link
before_setup terminal answers cmds session_cmds = record {
  runtime = fresh terminal answers;
  pending_cmds = cmds;
  pending_session_cmds = session_cmds;
  sent = [];
  told = [];
  asked = [];
  entered = [];
}

requests_in-append :
    (xs ys : List Frame) → requests_in (xs ++ ys) ≡ requests_in xs ++ requests_in ys
requests_in-append [] ys = refl
requests_in-append (x ∷ xs) ys =
    ap (λ r. of_frame x ++ r) (requests_in-append xs ys)
    ∙ sym (append_assoc (of_frame x) (requests_in xs) (requests_in ys))

requests_for-append :
    (xs ys : List SessionCommand) → requests_for (xs ++ ys) ≡ requests_for xs ++ requests_for ys
requests_for-append [] ys = refl
requests_for-append (x ∷ xs) ys =
    ap (λ r. of_sessions (body_of x) ++ r) (requests_for-append xs ys)
    ∙ sym (append_assoc (of_sessions (body_of x)) (requests_for xs) (requests_for ys))

requests_in-pings : (ns : List ℕ) → requests_in (map ping ns) ≡ []
requests_in-pings [] = refl
requests_in-pings (n ∷ ns) = requests_in-pings ns

-- No request of a session is among the frames that are added.
silent_lem :
    (sent more : List Frame) → requests_in more ≡ [] → requests_in (sent ++ more) ≡ requests_in sent
silent_lem sent more e =
    requests_in-append sent more ∙ ap (λ r. requests_in sent ++ r) e ∙ append-nil (requests_in sent)

abbrev in_option : Option Frame → List RequestBody
in_option none = []
in_option (some frame) = of_frame frame

framed-silent :
    (o : Option TerminalHandle) (terminal : TerminalId) (txn : RequestTxn) (body : RequestBody)
    (s : RuntimeState)
    → of_sessions body ≡ []
    → in_option (filtered o terminal txn body s).0 ≡ []
unfolding take_request_id
framed-silent none terminal txn body s e = refl
framed-silent (some handle) terminal txn body s e =
    elim (handle.info.terminal == terminal)
      as (λ b. in_option (if b then framed txn body s else (none, s)).0 ≡ []) [
        | true ↦ e
        | false ↦ refl
      ]

command-silent : (cmd : TerminalCmd) (s : RuntimeState) → in_option (frame_for_command cmd s).0 ≡ []
unfolding frame_for_command
command-silent (input terminal bytes) s = framed-silent s.terminal terminal _ _ s refl
command-silent (resize terminal cols rows) s = framed-silent s.terminal terminal _ _ s refl
command-silent (kill terminal) s = framed-silent s.terminal terminal _ _ s refl

-- With `q`, the requests that were queued at first.
abbrev IsBalanced : List RequestBody → Link → Type 0
IsBalanced q l =
    requests_in l.sent ++ requests_for l.pending_session_cmds ≡ q ++ requests_for l.asked

module _ (q : List RequestBody) where
  kept_silent :
      (l : Link) (more : List Frame)
      → requests_in more ≡ []
      → IsBalanced q l
      → IsBalanced q (record l { sent = l.sent ++ more })
  kept_silent l more e h =
      ap (λ r. r ++ requests_for l.pending_session_cmds) (silent_lem l.sent more e) ∙ h

  kept_asking :
      (l : Link) (cmd : SessionCommand)
      → IsBalanced q l
      → requests_in l.sent ++ requests_for (l.pending_session_cmds ++ cmd ∷ [])
        ≡ q ++ requests_for (l.asked ++ cmd ∷ [])
  kept_asking l cmd h =
      ap (λ r. requests_in l.sent ++ r) (requests_for-append l.pending_session_cmds (cmd ∷ []))
      ∙ sym (
          append_assoc (requests_in l.sent) (requests_for l.pending_session_cmds)
            (requests_for (cmd ∷ [])))
      ∙ ap (λ r. r ++ requests_for (cmd ∷ [])) h
      ∙ append_assoc q (requests_for l.asked) (requests_for (cmd ∷ []))
      ∙ ap (λ r. q ++ r) (sym (requests_for-append l.asked (cmd ∷ [])))

  kept_sent :
      (l : Link) (cmd : SessionCommand) (cmds : List SessionCommand) (id : ℕ)
      → IsBalanced q (record l { pending_session_cmds = cmd ∷ cmds })
      → requests_in (l.sent ++ request_frame id (body_of cmd) ∷ []) ++ requests_for cmds
        ≡ q ++ requests_for l.asked
  kept_sent l cmd cmds id h =
      ap (λ r. r ++ requests_for cmds)
        (requests_in-append l.sent (request_frame id (body_of cmd) ∷ []))
      ∙ append_assoc (requests_in l.sent) (of_sessions (body_of cmd) ++ []) (requests_for cmds)
      ∙ ap (λ r. requests_in l.sent ++ (r ++ requests_for cmds))
          (append-nil (of_sessions (body_of cmd)))
      ∙ h

  IsBalanced-IsStable : IsStable (IsBalanced q)
  IsBalanced-IsStable = record {
    changed = λ l runtime told h. h;
    pinged = λ l ns h. kept_silent l (map ping ns) (requests_in-pings ns) h;
    ponged = λ l n h. kept_silent l (pong n ∷ []) refl h;
    asking = kept_asking;
    request_sent = kept_sent;
    joined = λ l h. h;
    entering = λ l cmd later h. h;
    command_sent = λ l cmd cmds s frame e h.
        kept_silent l (frame ∷ [])
          (append-nil (of_frame frame) ∙ ap in_option (sym e) ∙ command-silent cmd s) h;
    command_dropped = λ l cmd cmds h. h;
  }

-- Whatever happens on a connection, and wherever it stops, the requests of the session that were
-- sent, followed by those that still wait, are the ones that waited at first followed by the ones
-- that were taken from the channel: none is lost or sent twice or out of its turn. (The ends of
-- terminals are left out of both sides, since a terminal's own command sends the same request.)
pub requests_in_order :
    (setup : Result ClientError (ℕ × Option String)) (turns : List Turn)
    (terminal : Option TerminalHandle) (answers : Dict Answer) (cmds : List TerminalCmd)
    (session_cmds : List SessionCommand)
    → let l =
        (run_one_connection setup turns (before_setup terminal answers cmds session_cmds)).1 in
      requests_in l.sent ++ requests_for l.pending_session_cmds
      ≡ requests_for session_cmds ++ requests_for l.asked
requests_in_order setup turns terminal answers cmds session_cmds =
    run_one_connection_lem (IsBalanced (requests_for session_cmds))
      (IsBalanced-IsStable (requests_for session_cmds)) setup turns
      (before_setup terminal answers cmds session_cmds)
      (sym (append-nil (requests_for session_cmds)))
