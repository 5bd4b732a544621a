-- ===== src/Daemon/Connection/Loop.antt =====
-- crates/server/daemon-core/src/connection.rs: the course of a connection behind the handshake
-- (`run_connection_post_handshake`). What the loop waits for is a list, in the order in which it takes it.
use cli_pocket.Prelude.{
  ℕ, ◌≡◌, ◌≤◌, refl, arith, Bool, true, false, ◌||◌, Option, none, some, List, [], ◌∷◌, ◌++◌, ok,
  err, ltb, if◌then◌else◌, inl, inr, ◌⊎◌,
}
use cli_pocket.Proto.Frames.{
  TerminalId, ServerInfo, Hello, ByeReason, ProtocolError, Frame, bye, pong, protocol_version,
}
use cli_pocket.Daemon.Errors.{DaemonError, DaemonResult, internal}
use cli_pocket.Daemon.Connection.{Outside, Connection, send_frame, delivered, handle_request}
use cli_pocket.Daemon.Connection.Output.{OutboundOutput, handle_output}

-- The sender of the revocations is gone; they changed, and the client is revoked or not; a frame or the
-- failure to receive one, with the terminals that the reaper takes out while it is handled; output.
pub data Incoming : Type 0 where
  revocations_lost : Incoming
  revocations_changed : Bool → Incoming
  received : DaemonResult Frame → List TerminalId → Incoming
  output_ready : OutboundOutput → Incoming

pub data Turned : Type 0 where
  go_on : Turned
  finished : DaemonResult (Unit {0}) → Turned

abbrev pub is_some : {A : Type 0} → Option A → Bool
is_some none = false
is_some (some a) = true

unfoldable pub validate_hello : Hello → DaemonResult (Unit {0})
validate_hello hello =
    if ltb protocol_version hello.protocol_min || ltb hello.protocol_max protocol_version
    then err (internal "protocol version mismatch")
    else ok tt

-- The `?` of the source: an error ends the connection.
abbrev pub or_finish : {P : Type 0} → DaemonResult (Unit {0}) × Connection P → Turned × Connection P
or_finish (ok _, c) = (go_on, c)
or_finish (err e, c) = (finished (err e), c)

abbrev pub finish_with :
    {P : Type 0}
    → DaemonResult (Unit {0})
    → DaemonResult (Unit {0}) × Connection P
    → Turned × Connection P
finish_with result (ok _, c) = (finished result, c)
finish_with result (err e, c) = (finished (err e), c)

-- A first frame that lets the client in: a `Hello` whose versions have this one among them.
abbrev pub IsWelcome : DaemonResult Frame → Type 0
IsWelcome (ok (Frame.hello hello)) =
    (hello.protocol_min ≤ protocol_version) × (protocol_version ≤ hello.protocol_max)
IsWelcome _ = ⊥

abbrev pub IsError : DaemonResult (Unit {0}) → Type 0
IsError (ok _) = ⊥
IsError (err e) = Unit {0}

abbrev pub not_welcome_bye : Frame
not_welcome_bye = bye (ByeReason.protocol_error ProtocolError.protocol_mismatch)

module _ {P : Type 0} where
  abbrev pub and_then :
      Turned × Connection P → (Connection P → Turned × Connection P) → Turned × Connection P
  and_then (go_on, c) f = f c
  and_then (finished r, c) f = (finished r, c)

  -- Nothing of the daemon changed, and at most this frame went out.
  abbrev pub OnlySent : Frame → Connection P → Connection P → Type 0
  OnlySent frame c d = (d ≡ c) ⊎ (d ≡ record c { sent = c.sent ++ frame ∷ [] })

  -- It ended, and with which result.
  abbrev pub EndsOnlyWith :
      Frame → (DaemonResult (Unit {0}) → Type 0) → Connection P → Turned × Connection P → Type 0
  EndsOnlyWith frame Good c (go_on, d) = ⊥
  EndsOnlyWith frame Good c (finished r, d) = Good r × OnlySent frame c d

  -- What a revocation makes of a connection that came to `before`.
  abbrev pub EndsThere : Turned × Connection P → Turned × Connection P → Type 0
  EndsThere (finished r, d) out = out ≡ (finished r, d)
  EndsThere (go_on, d) out = EndsOnlyWith (bye ByeReason.revoked) (λ r. r ≡ ok tt) d out

module _ {P : Type 0} (out : Outside P) where
  abbrev pub welcomed :
      DaemonResult (Unit {0}) → Hello → ServerInfo → ℕ → Connection P → Turned × Connection P
  welcomed (err e) hello info session_id c = (finished (err e), c)
  welcomed (ok _) hello info session_id c = or_finish (
      send_frame out
        (Frame.hello_ok (record {
          protocol = protocol_version;
          server_info = info;
          session_id = session_id;
          resumed = is_some hello.resume;
        }))
        c)

  -- The first frame.
  unfoldable pub greet : DaemonResult Frame → ServerInfo → ℕ → Connection P → Turned × Connection P
  greet (err e) info session_id c = (finished (err e), c)
  greet (ok (Frame.hello hello)) info session_id c =
      welcomed (validate_hello hello) hello info session_id c
  greet (ok other) info session_id c =
      finish_with (err (internal "expected Hello as first frame"))
        (send_frame out (bye (ByeReason.protocol_error ProtocolError.protocol_mismatch)) c)

  unfoldable pub take_frame : Frame → List TerminalId → Connection P → Turned × Connection P
  take_frame (Frame.request request) reaped c = or_finish (handle_request out request reaped c)
  take_frame (Frame.ping nonce) reaped c = or_finish (send_frame out (pong nonce) c)
  take_frame (Frame.bye reason) reaped c = (finished (ok tt), c)
  take_frame other reaped c = (go_on, c)

  -- One round of the loop.
  unfoldable pub take : Incoming → Connection P → Turned × Connection P
  take revocations_lost c = (finished (ok tt), c)
  take (revocations_changed false) c = (go_on, c)
  take (revocations_changed true) c =
      (finished (ok tt), (send_frame out (bye ByeReason.revoked) c).1)
  take (received (err e) reaped) c = (finished (err e), c)
  take (received (ok frame) reaped) c = take_frame frame reaped c
  take (output_ready output) c = or_finish (handle_output out output c)

  unfoldable pub take_all : List Incoming → Connection P → Turned × Connection P
  take_all [] c = (go_on, c)
  take_all (incoming ∷ rest) c = and_then (take incoming c) (take_all rest)

  unfoldable pub run_connection :
      DaemonResult Frame → ServerInfo → ℕ → List Incoming → Connection P → Turned × Connection P
  run_connection first info session_id incoming c =
      and_then (greet first info session_id c) (take_all incoming)

  refused_ends :
      (o : Option DaemonError) (x : DaemonError) (f : Connection P → Turned × Connection P)
      (c : Connection P)
      → EndsOnlyWith not_welcome_bye IsError c
          (and_then (finish_with (err x) (delivered out o not_welcome_bye c)) f)
  refused_ends none x f c = (tt, inr refl)
  refused_ends (some e) x f c = (tt, inl refl)

  validate_hello-IsWelcome :
      (hello : Hello)
      → validate_hello hello ≡ ok tt
      → (hello.protocol_min ≤ protocol_version) × (protocol_version ≤ hello.protocol_max)
  unfolding validate_hello
  validate_hello-IsWelcome hello e = (ground arith, ground arith)

  hello_ends :
      (r : DaemonResult (Unit {0})) (hello : Hello) (info : ServerInfo) (session_id : ℕ)
      (f : Connection P → Turned × Connection P) (c : Connection P)
      → ¬ (r ≡ ok tt)
      → EndsOnlyWith not_welcome_bye IsError c (and_then (welcomed r hello info session_id c) f)
  hello_ends (err e) hello info session_id f c h = (tt, inl refl)
  hello_ends (ok u) hello info session_id f c h = absurd (h refl)

  -- A peer whose first frame is no `Hello` for this version gets no more than a `Bye`, whatever it sends.
  first_ends :
      (first : DaemonResult Frame) (info : ServerInfo) (session_id : ℕ) (incoming : List Incoming)
      (c : Connection P)
      → ¬ IsWelcome first
      → EndsOnlyWith not_welcome_bye IsError c (run_connection first info session_id incoming c)
  unfolding run_connection greet send_frame
  first_ends (err e) info session_id incoming c h = (tt, inl refl)
  first_ends (ok (Frame.hello hello)) info session_id incoming c h =
      hello_ends (validate_hello hello) hello info session_id (take_all incoming) c
        (λ valid. h (validate_hello-IsWelcome hello valid))
  first_ends (ok other) info session_id incoming c h =
      refused_ends (out.refused not_welcome_bye) _ (take_all incoming) c

  revoked_ends :
      (o : Option DaemonError) (c : Connection P)
      → OnlySent (bye ByeReason.revoked) c (delivered out o (bye ByeReason.revoked) c).1
  revoked_ends none c = inr refl
  revoked_ends (some e) c = inl refl

  revocation_ends :
      (later : List Incoming) (c : Connection P)
      → EndsThere (go_on, c) (take_all (revocations_changed true ∷ later) c)
  unfolding take_all take send_frame
  revocation_ends later c = (refl, revoked_ends (out.refused (bye ByeReason.revoked)) c)

  and_then-EndsThere :
      (x : Turned × Connection P) (f g : Connection P → Turned × Connection P)
      → ((d : Connection P) → EndsThere (f d) (g d))
      → EndsThere (and_then x f) (and_then x g)
  and_then-EndsThere (go_on, d) f g h = h d
  and_then-EndsThere (finished r, d) f g h = refl

  take_all-EndsThere :
      (earlier later : List Incoming) (c : Connection P)
      → EndsThere (take_all earlier c) (take_all (earlier ++ revocations_changed true ∷ later) c)
  unfolding take_all
  take_all-EndsThere [] later c = revocation_ends later c
  take_all-EndsThere (x ∷ earlier) later c =
      and_then-EndsThere (take x c) (take_all earlier)
        (take_all (earlier ++ revocations_changed true ∷ later))
        (λ d. take_all-EndsThere earlier later d)

  -- A peer whose first frame is not received, or is no `Hello` whose versions have the daemon's version
  -- among them, has its connection end in an error, whatever it sends after; it gets the `Bye` for a
  -- mismatch at most, and nothing else changes. And whatever a connection did before, the loop's
  -- finding that its client is revoked is its end, and nothing that comes later is handled: if it had
  -- ended before, it stays as it was, and if not, it ends without an error, the client gets the
  -- `Bye` for that at most, and nothing else changes.
  pub shut_out :
      (first other : DaemonResult Frame) (info : ServerInfo) (session_id : ℕ)
      (earlier later : List Incoming) (c : Connection P)
      → ¬ IsWelcome first
      → EndsOnlyWith not_welcome_bye IsError c (run_connection first info session_id earlier c)
        × EndsThere
            (run_connection other info session_id earlier c)
            (run_connection other info session_id (earlier ++ revocations_changed true ∷ later) c)
  unfolding run_connection
  shut_out first other info session_id earlier later c h = (
    first_ends first info session_id earlier c h,
    and_then-EndsThere (greet other info session_id c) (take_all earlier)
        (take_all (earlier ++ revocations_changed true ∷ later))
        (λ d. take_all-EndsThere earlier later d),
  )
