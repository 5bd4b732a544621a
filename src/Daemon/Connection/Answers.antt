-- ===== src/Daemon/Connection/Answers.antt =====
-- crates/server/daemon-core/src/connection.rs and crates/client/client-core/src/session.rs: the daemon's
-- answers to requests, and that the client that asked takes them.
use cli_pocket.Prelude.{
  ℕ, ◌≡◌, refl, ap, true, false, Option, none, some, List, [], ◌∷◌, ◌++◌, Result, ok, err,
  if◌then◌else◌, arith,
}
use cli_pocket.Prelude.Dict.{lookup, values}
use cli_pocket.Proto.Frames.{
  TerminalId, StreamId, TerminalInfo, ServerConfig, ProtocolError, RequestBody, ResponseBody,
  ResponseError, response,
}
use cli_pocket.Pty.Ring.{snapshot_with_max_bytes, history_page}
use cli_pocket.Daemon.Errors.{DaemonError, DaemonResult}
use cli_pocket.Daemon.Sessions.{Terminal, create, attach, kill, list, reap, write_input, resize}
use cli_pocket.Daemon.Connection.{
  Outside, Connection, send_frame, delivered, answer_with, on_attached, attached_to, changed,
  server_config_from_deps, apply_server_config_update, config_saved, configured, find_info, cleared,
  ack_of, opened, opening, attached_after, paged, page_of, handle_open_terminal_request,
  handle_history_read_request, handle_request_body, open_terminal_max_bytes,
}

-- The body of a response is of the kind that its request asks for, and about what it asks.
abbrev pub Fits : RequestBody → ResponseBody → Type 0
Fits RequestBody.list_terminals (ResponseBody.list_terminals _) = Unit {0}
Fits (RequestBody.create_terminal _) (ResponseBody.create_terminal _) = Unit {0}
Fits (RequestBody.open_terminal terminal) (ResponseBody.open_terminal ack) =
    ack.info.terminal ≡ terminal
Fits (RequestBody.read_history terminal _ _) (ResponseBody.read_history page) =
    page.terminal_id ≡ terminal
Fits (RequestBody.kill_terminal _) ResponseBody.kill_terminal = Unit {0}
Fits RequestBody.get_server_config (ResponseBody.get_server_config _) = Unit {0}
Fits (RequestBody.set_server_config new) (ResponseBody.set_server_config config) = config ≡ new
Fits (RequestBody.send_input _ _) ResponseBody.send_input = Unit {0}
Fits (RequestBody.resize_terminal _ _ _) ResponseBody.resize_terminal = Unit {0}
Fits _ _ = ⊥

abbrev pub FitsResult : RequestBody → Result ResponseError ResponseBody → Type 0
FitsResult request (ok body) = Fits request body
FitsResult request (err e) = Unit {0}

module _ {P : Type 0} where
  -- One response went out, with the number of the request, or none and an error ends the connection.
  abbrev pub Replied :
      ℕ → RequestBody → Connection P → DaemonResult (Unit {0}) → Connection P → Type 0
  Replied id request c (ok _) d =
      (result : Result ResponseError ResponseBody) × (d.sent
        ≡ c.sent ++ response (record { id = id; result = result }) ∷ [])
      × FitsResult request result
  Replied id request c (err e) d = d.sent ≡ c.sent

  abbrev pub RepliedBy :
      ℕ → RequestBody → Connection P → DaemonResult (Unit {0}) × Connection P → Type 0
  RepliedBy id request c r = Replied id request c r.0 r.1

  module _ (out : Outside P) (id : ℕ) (request : RequestBody) (c d : Connection P)
      (same : d.sent ≡ c.sent) where
    delivered_lem :
        (o : Option DaemonError) (result : Result ResponseError ResponseBody)
        → FitsResult request result
        → RepliedBy id request c
            (delivered out o (response (record { id = id; result = result })) d)
    delivered_lem none result fits = (
      result,
      ap (λ sent. sent ++ response (record { id = id; result = result }) ∷ []) same,
      fits,
    )
    delivered_lem (some e) result fits = same

    send_lem :
        (result : Result ResponseError ResponseBody)
        → FitsResult request result
        → RepliedBy id request c (send_frame out (response (record { id = id; result = result })) d)
    unfolding send_frame
    send_lem result fits =
        delivered_lem (out.refused (response (record { id = id; result = result }))) result fits

    answer_with_lem :
        {A : Type 0} (body : A → ResponseBody) (r : DaemonResult A)
        → ((a : A) → r ≡ ok a → Fits request (body a))
        → RepliedBy id request c (answer_with out id body r d)
    answer_with_lem body (ok a) fits = send_lem (ok (body a)) (fits a refl)
    answer_with_lem body (err e) fits =
        send_lem
          (err (record {
            code = ProtocolError.other (out.to_string e);
            message = out.display (ProtocolError.other (out.to_string e));
          }))
          tt

    error_lem :
        (code : ProtocolError)
        → RepliedBy id request c (
            send_frame out
              (response (record {
                id = id;
                result = err (record { code = code; message = out.display code });
              }))
              d)
    error_lem code = send_lem (err (record { code = code; message = out.display code })) tt

find_info_lem :
    (terminal : TerminalId) (infos : List TerminalInfo) (info : TerminalInfo)
    → find_info terminal infos ≡ some info
    → info.terminal ≡ terminal
find_info_lem terminal [] info e = cc
find_info_lem terminal (x ∷ infos) info e = ground (arith, find_info_lem terminal infos info)

module _ {P : Type 0} (out : Outside P) (id : ℕ) where
  attached_after_lem :
      (request : RequestBody) (c : Connection P) (stream : StreamId) (terminal : TerminalId)
      (r : DaemonResult (Unit {0}) × Connection P)
      → RepliedBy id request c r
      → RepliedBy id request c (attached_after stream terminal r)
  attached_after_lem request c stream terminal (ok _, d) h = h
  attached_after_lem request c stream terminal (err e, d) h = h

  opened_lem :
      (c d : Connection P) (terminal : TerminalId) (stream : StreamId) (t : Terminal P)
      (o : Option TerminalInfo)
      → d.sent ≡ c.sent
      → ((info : TerminalInfo) → o ≡ some info → info.terminal ≡ terminal)
      → RepliedBy id (RequestBody.open_terminal terminal) c (opened out id terminal stream t o d)
  opened_lem c d terminal stream t none same fits =
      error_lem out id (RequestBody.open_terminal terminal) c d same ProtocolError.unknown_terminal
  opened_lem c d terminal stream t (some info) same fits =
      attached_after_lem (RequestBody.open_terminal terminal) c stream terminal _ (
        send_lem out id (RequestBody.open_terminal terminal) c d same
          (ok (
            ResponseBody.open_terminal
              (ack_of stream info t (snapshot_with_max_bytes t.ring open_terminal_max_bytes))))
          (fits info refl))

  opening_lem :
      (c : Connection P) (terminal : TerminalId) (reaped : List TerminalId)
      (o : Option (Terminal P))
      → RepliedBy id (RequestBody.open_terminal terminal) c (opening out id terminal reaped o c)
  opening_lem c terminal reaped none =
      error_lem out id (RequestBody.open_terminal terminal) c c refl ProtocolError.unknown_terminal
  opening_lem c terminal reaped (some t) =
      opened_lem c (cleared reaped c) terminal c.next_local_stream_id t
        (find_info terminal (list (reap reaped c.manager))) refl
        (λ info e. find_info_lem terminal (list (reap reaped c.manager)) info e)

  paged_lem :
      (c : Connection P) (terminal : TerminalId) (before : Option ℕ) (max_bytes : ℕ)
      (o : Option (Terminal P))
      → RepliedBy id
          (RequestBody.read_history terminal before max_bytes)
          c
          (paged out id terminal before max_bytes o c)
  paged_lem c terminal before max_bytes none =
      error_lem out id (RequestBody.read_history terminal before max_bytes) c c refl
        ProtocolError.unknown_terminal
  paged_lem c terminal before max_bytes (some t) =
      send_lem out id (RequestBody.read_history terminal before max_bytes) c c refl
        (ok (ResponseBody.read_history (page_of terminal (history_page t.ring before max_bytes))))
        refl

  sent-changed :
      (o : Option (Terminal P)) (terminal : TerminalId) (f : Terminal P → Terminal P)
      (c : Connection P)
      → (changed o terminal f c).sent ≡ c.sent
  sent-changed none terminal f c = refl
  sent-changed (some t) terminal f c = refl

  on_attached_lem :
      (request : RequestBody) (c : Connection P) (terminal : TerminalId)
      (f : Terminal P → Terminal P) (body : ResponseBody)
      → Fits request body
      → RepliedBy id request c (on_attached out id terminal f body c)
  on_attached_lem request c terminal f body fits =
      elim (attached_to terminal (values c.streams))
        as (λ b. RepliedBy id request c (
          if b
          then send_frame out (response (record { id = id; result = ok body }))
              (changed (lookup terminal c.manager.terminals) terminal f c)
          else send_frame out
              (response (record {
                id = id;
                result = err (record {
                  code = ProtocolError.unknown_terminal;
                  message = out.display ProtocolError.unknown_terminal;
                });
              }))
              c)) [
                | true ↦
                    send_lem out id request c
                      (changed (lookup terminal c.manager.terminals) terminal f c)
                      (sent-changed (lookup terminal c.manager.terminals) terminal f c) (ok body)
                      fits
                | false ↦ error_lem out id request c c refl ProtocolError.unknown_terminal
              ]

  configured_lem :
      (c : Connection P) (new : ServerConfig) (r : DaemonResult (Unit {0}))
      → RepliedBy id
          (RequestBody.set_server_config new)
          c
          (configured out id (config_saved r new c))
  configured_lem c new (err e) =
      answer_with_lem out id (RequestBody.set_server_config new) c c refl
        ResponseBody.set_server_config (err e) (λ a q. cc)
  configured_lem c new (ok u) =
      answer_with_lem out id (RequestBody.set_server_config new) c (config_saved (ok u) new c).1
        refl ResponseBody.set_server_config (ok new) (λ a q. cc)

  pub handle_request_body_lem :
      (request : RequestBody) (reaped : List TerminalId) (c : Connection P)
      → RepliedBy id request c (handle_request_body out id request reaped c)
  unfolding handle_request_body handle_open_terminal_request handle_history_read_request
      apply_server_config_update
  handle_request_body_lem RequestBody.list_terminals reaped c =
      send_lem out id RequestBody.list_terminals c c refl
        (ok (ResponseBody.list_terminals (list c.manager))) tt
  handle_request_body_lem (RequestBody.create_terminal params) reaped c =
      let r = create (out.spawn params c.scrollback_bytes) out.now c.manager in
      answer_with_lem out id (RequestBody.create_terminal params) c (record c { manager = r.1 })
        refl ResponseBody.create_terminal (r.0) (λ a q. tt)
  handle_request_body_lem (RequestBody.open_terminal terminal) reaped c =
      opening_lem c terminal reaped (attach terminal c.manager)
  handle_request_body_lem (RequestBody.read_history terminal before max_bytes) reaped c =
      paged_lem c terminal before max_bytes (attach terminal c.manager)
  handle_request_body_lem (RequestBody.kill_terminal terminal) reaped c =
      answer_with_lem out id (RequestBody.kill_terminal terminal) c c refl
        (λ _. ResponseBody.kill_terminal) (kill (out.killed terminal) terminal c.manager)
        (λ a q. tt)
  handle_request_body_lem RequestBody.get_server_config reaped c =
      answer_with_lem out id RequestBody.get_server_config c c refl ResponseBody.get_server_config
        (server_config_from_deps c) (λ a q. tt)
  handle_request_body_lem (RequestBody.set_server_config new) reaped c =
      configured_lem c new (if c.config_path then out.saved new.scrollback_bytes else ok tt)
  handle_request_body_lem (RequestBody.send_input terminal bytes) reaped c =
      on_attached_lem (RequestBody.send_input terminal bytes) c terminal (write_input bytes)
        ResponseBody.send_input tt
  handle_request_body_lem (RequestBody.resize_terminal terminal cols rows) reaped c =
      on_attached_lem (RequestBody.resize_terminal terminal cols rows) c terminal
        (resize (out.resized terminal cols rows) cols rows) ResponseBody.resize_terminal tt
