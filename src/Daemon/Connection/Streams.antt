-- ===== src/Daemon/Connection/Streams.antt =====
-- crates/server/daemon-core/src/connection.rs: the numbers of a connection's streams.
use cli_pocket.Prelude.{
  ℕ, ◌+◌, ◌<◌, ◌≡◌, refl, sym, ap, min, Bool, true, false, Option, none, some, Option-cases, List,
  [], ok, err, if◌then◌else◌, arith, inl, inr, subst,
}
use cli_pocket.Prelude.Dict.{lookup, insert, values}
use cli_pocket.Proto.Frames.{
  TerminalId, StreamId, TerminalInfo, ServerConfig, RequestBody, ResponseBody, Frame,
}
use cli_pocket.Daemon.Errors.{DaemonError, DaemonResult}
use cli_pocket.Daemon.Sessions.{Terminal, attach, list, reap, create, kill, write_input, resize}
use cli_pocket.Daemon.Connection.{
  Outside, Connection, u32_max, send_frame, delivered, answer_with, attached_to, changed,
  apply_server_config_update, server_config_from_deps, config_saved, configured, find_info, cleared,
  opened, opening, attached_after, paged, handle_open_terminal_request, handle_history_read_request,
  handle_request_body,
}
use cli_pocket.Daemon.Connection.Output.{OutboundOutput, handle_output, passed_on}

module _ {P : Type 0} where
  -- The streams that are attached have numbers below the next one.
  abbrev pub AreNumbered : Connection P → Type 0
  AreNumbered c =
      (stream : StreamId) (terminal : TerminalId)
      → lookup stream c.streams ≡ some terminal
      → stream < c.next_local_stream_id

  -- There is no other stream than this one.
  abbrev IsOnly : StreamId → Connection P → Type 0
  IsOnly only c =
      (stream : StreamId) (terminal : TerminalId)
      → lookup stream c.streams ≡ some terminal
      → stream ≡ only

  -- The streams and their counter.
  abbrev SameStreams : Connection P → Connection P → Type 0
  SameStreams c d = (d.streams ≡ c.streams) × (d.next_local_stream_id ≡ c.next_local_stream_id)

  module _ (out : Outside P) where
    delivered_same :
        (o : Option DaemonError) (frame : Frame) (c : Connection P)
        → SameStreams c (delivered out o frame c).1
    delivered_same none frame c = (refl, refl)
    delivered_same (some e) frame c = (refl, refl)

    send_frame_same : (frame : Frame) (c : Connection P) → SameStreams c (send_frame out frame c).1
    unfolding send_frame
    send_frame_same frame c = delivered_same (out.refused frame) frame c

    answer_with_same :
        {A : Type 0} (id : ℕ) (body : A → ResponseBody) (r : DaemonResult A) (c : Connection P)
        → SameStreams c (answer_with out id body r c).1
    answer_with_same id body (ok a) c = send_frame_same _ c
    answer_with_same id body (err e) c = send_frame_same _ c

    only_lem :
        (only : StreamId) (c d : Connection P) → c.streams ≡ [] → SameStreams c d → IsOnly only d
    unfolding lookup
    only_lem only c d e s k t h = ground (arith, s.0)

    -- A stream that was attached after an answer.
    attached-IsOnly :
        (stream : StreamId) (terminal : TerminalId) (c : Connection P)
        (r : DaemonResult (Unit {0}) × Connection P)
        → c.streams ≡ []
        → SameStreams c r.1
        → IsOnly stream (attached_after stream terminal r).1
          × ((attached_after stream terminal r).1.next_local_stream_id ≡ c.next_local_stream_id)
    unfolding lookup insert
    attached-IsOnly stream terminal c (ok _, d) e s = (λ k t h. ground (arith, s.0), s.1)
    attached-IsOnly stream terminal c (err x, d) e s = (λ k t h. ground (arith, s.0), s.1)

    opened-IsOnly :
        (id : ℕ) (terminal : TerminalId) (stream : StreamId) (t : Terminal P)
        (o : Option TerminalInfo) (c : Connection P)
        → c.streams ≡ []
        → IsOnly stream (opened out id terminal stream t o c).1
          × ((opened out id terminal stream t o c).1.next_local_stream_id ≡ c.next_local_stream_id)
    opened-IsOnly id terminal stream t none c e =
        (only_lem stream c (send_frame out _ c).1 e (send_frame_same _ c), (send_frame_same _ c).1)
    opened-IsOnly id terminal stream t (some info) c e =
        attached-IsOnly stream terminal c _ e (send_frame_same _ c)

    opening-IsOnly :
        (id : ℕ) (terminal : TerminalId) (reaped : List TerminalId) (t : Terminal P)
        (c : Connection P)
        → IsOnly c.next_local_stream_id (opening out id terminal reaped (some t) c).1
          × ((opening out id terminal reaped (some t) c).1.next_local_stream_id
              ≡ min (c.next_local_stream_id + 1) u32_max)
    opening-IsOnly id terminal reaped t c =
        opened-IsOnly id terminal c.next_local_stream_id t
          (find_info terminal (list (reap reaped c.manager))) (cleared reaped c) refl

    older_absent :
        (only stream : StreamId) (d : Connection P)
        → IsOnly only d
        → stream < only
        → lookup stream d.streams ≡ none
    older_absent only stream d h low = elim (Option-cases (lookup stream d.streams)) [
      | inl absent ↦ absent
      | inr (t, there) ↦ absurd (omega (arith, h stream t there))
    ]

    -- In the state that an opened terminal leaves.
    dropped_after :
        (id : ℕ) (terminal : TerminalId) (reaped : List TerminalId) (t : Terminal P)
        (c : Connection P) (output : OutboundOutput)
        → output.stream < c.next_local_stream_id
        → handle_output out output (opening out id terminal reaped (some t) c).1
          ≡ (ok tt, (opening out id terminal reaped (some t) c).1)
    unfolding handle_output
    dropped_after id terminal reaped t c output old =
        let d = (opening out id terminal reaped (some t) c).1 in
        ap (λ o. passed_on out o output d)
          (older_absent c.next_local_stream_id output.stream d
            ((opening-IsOnly id terminal reaped t c).0) old)

  -- Once a request opens a terminal that is registered, whether its answer goes out or not, output
  -- of a stream with a number that was given out before is dropped: nothing is sent and nothing
  -- changes.
  pub stale_output_dropped :
      (out : Outside P) (id : ℕ) (terminal : TerminalId) (reaped : List TerminalId)
      (c : Connection P) (output : OutboundOutput)
      → ((t : Terminal P) × (attach terminal c.manager ≡ some t))
      → output.stream < c.next_local_stream_id
      → let d = (handle_open_terminal_request out id terminal reaped c).1 in
        handle_output out output d ≡ (ok tt, d)
  unfolding handle_open_terminal_request
  stale_output_dropped out id terminal reaped c output known old =
      subst
        (λ o.
          handle_output out output (opening out id terminal reaped o c).1
          ≡ (ok tt, (opening out id terminal reaped o c).1))
        (sym (known.1)) (dropped_after out id terminal reaped (known.0) c output old)

  same-AreNumbered : (c d : Connection P) → SameStreams c d → AreNumbered c → AreNumbered d
  same-AreNumbered c d s n k t h = ground (arith, s.0, s.1, n k t)

  only-AreNumbered :
      (c d : Connection P)
      → c.next_local_stream_id < u32_max
      → IsOnly c.next_local_stream_id d
      → d.next_local_stream_id ≡ min (c.next_local_stream_id + 1) u32_max
      → AreNumbered d
  only-AreNumbered c d small h e k t there = ground (arith, e, h k t there)

  module _ (out : Outside P) (id : ℕ) (c : Connection P) (small : c.next_local_stream_id < u32_max)
      (n : AreNumbered c) where
    opening-AreNumbered :
        (terminal : TerminalId) (reaped : List TerminalId) (o : Option (Terminal P))
        → AreNumbered (opening out id terminal reaped o c).1
    opening-AreNumbered terminal reaped none =
        same-AreNumbered c (opening out id terminal reaped none c).1 (send_frame_same out _ c) n
    opening-AreNumbered terminal reaped (some t) =
        let o = opening-IsOnly out id terminal reaped t c in
        only-AreNumbered c (opening out id terminal reaped (some t) c).1 small (o.0) (o.1)

    paged_same :
        (terminal : TerminalId) (before : Option ℕ) (max_bytes : ℕ) (o : Option (Terminal P))
        → SameStreams c (paged out id terminal before max_bytes o c).1
    paged_same terminal before max_bytes none = send_frame_same out _ c
    paged_same terminal before max_bytes (some t) = send_frame_same out _ c

    attached_same :
        (b : Bool) (o : Option (Terminal P)) (terminal : TerminalId) (f : Terminal P → Terminal P)
        (yes_frame no_frame : Frame)
        → SameStreams c
            (if b
              then send_frame out yes_frame (changed o terminal f c)
              else send_frame out no_frame c).1
    attached_same true none terminal f x y = send_frame_same out x c
    attached_same true (some t) terminal f x y =
        send_frame_same out x (changed (some t) terminal f c)
    attached_same false o terminal f x y = send_frame_same out y c

    configured_same :
        (new : ServerConfig) (r : DaemonResult (Unit {0}))
        → SameStreams c (configured out id (config_saved r new c)).1
    configured_same new (err e) = answer_with_same out id ResponseBody.set_server_config (err e) c
    configured_same new (ok u) =
        answer_with_same out id ResponseBody.set_server_config (ok new)
          (config_saved (ok u) new c).1

    -- Every request but that to open a terminal leaves the streams alone.
    pub handle_request_body-AreNumbered :
        (body : RequestBody) (reaped : List TerminalId)
        → AreNumbered (handle_request_body out id body reaped c).1
    unfolding handle_request_body handle_open_terminal_request handle_history_read_request
        apply_server_config_update
    handle_request_body-AreNumbered RequestBody.list_terminals reaped =
        same-AreNumbered c (handle_request_body out id RequestBody.list_terminals reaped c).1
          (send_frame_same out _ c) n
    handle_request_body-AreNumbered (RequestBody.create_terminal params) reaped =
        let r = create (out.spawn params c.scrollback_bytes) out.now c.manager in
        same-AreNumbered c
          (handle_request_body out id (RequestBody.create_terminal params) reaped c).1
          (answer_with_same out id ResponseBody.create_terminal (r.0) (record c { manager = r.1 }))
          n
    handle_request_body-AreNumbered (RequestBody.open_terminal terminal) reaped =
        opening-AreNumbered terminal reaped (attach terminal c.manager)
    handle_request_body-AreNumbered (RequestBody.read_history terminal before max_bytes) reaped =
        same-AreNumbered c
          (handle_request_body out id (RequestBody.read_history terminal before max_bytes) reaped
            c).1
          (paged_same terminal before max_bytes (attach terminal c.manager)) n
    handle_request_body-AreNumbered (RequestBody.kill_terminal terminal) reaped =
        same-AreNumbered c
          (handle_request_body out id (RequestBody.kill_terminal terminal) reaped c).1
          (answer_with_same out id (λ _. ResponseBody.kill_terminal)
            (kill (out.killed terminal) terminal c.manager) c)
          n
    handle_request_body-AreNumbered RequestBody.get_server_config reaped =
        same-AreNumbered c (handle_request_body out id RequestBody.get_server_config reaped c).1
          (answer_with_same out id ResponseBody.get_server_config (server_config_from_deps c) c) n
    handle_request_body-AreNumbered (RequestBody.set_server_config new) reaped =
        same-AreNumbered c
          (handle_request_body out id (RequestBody.set_server_config new) reaped c).1
          (configured_same new (if c.config_path then out.saved new.scrollback_bytes else ok tt)) n
    handle_request_body-AreNumbered (RequestBody.send_input terminal bytes) reaped =
        same-AreNumbered c
          (handle_request_body out id (RequestBody.send_input terminal bytes) reaped c).1
          (attached_same (attached_to terminal (values c.streams))
            (lookup terminal c.manager.terminals) terminal (write_input bytes) _ _)
          n
    handle_request_body-AreNumbered (RequestBody.resize_terminal terminal cols rows) reaped =
        same-AreNumbered c
          (handle_request_body out id (RequestBody.resize_terminal terminal cols rows) reaped c).1
          (attached_same (attached_to terminal (values c.streams))
            (lookup terminal c.manager.terminals) terminal
            (resize (out.resized terminal cols rows) cols rows) _ _)
          n
