-- ===== src/Relay/Forward.antt =====
-- crates/relay/relay-core/src/forward.rs: the task of a server connection and that of a client
-- connection, over the messages that their sockets deliver, each with the instant of its arrival.
-- Metrics and log lines are left out.
pub mod Sockets
pub mod Delivery
pub mod Quiet
pub mod Closing
pub mod Server
pub mod Trespass
use cli_pocket.Prelude.{
  ℕ, ◌+◌, Bool, true, false, Option, none, some, List, [], ◌∷◌, ◌++◌, Result, ok, err, ok_or,
  map_err, map, ◌==◌, if◌then◌else◌, keep,
}
use cli_pocket.Proto.Wire.{
  Bytes, PairId, ServerId, RelayCtrl, server_register, server_register_ok, client_connect,
  pair_inbound, pair_open, pair_close, RelayData, forward, PairCloseReason, server_gone,
  client_gone,
}
use cli_pocket.Proto.Codec.{RelayWire, decode_relay}
use cli_pocket.Proto.Codec
use cli_pocket.Relay.Caps.{CapsInner, try_add_server, drop_server_ticket, try_add_pair}
use cli_pocket.Relay.Errors.{RelayError, protocol, RelayResult}
use cli_pocket.Relay.Registry.{
  Sender, ServerMsg, ctrl, payload, ServerRegistry, ServerRegistration, register, unregister,
}
use cli_pocket.Relay.Registry
use cli_pocket.Relay.State.{
  Pair, Relay, Outside, Exit, done, failed, panicked, M, ◌>>=◌, ◌>>◌, pure, fail, lift, gets,
  modify, on_exit,
}
use cli_pocket.Relay.Pairs.{
  release_ticket, insert_pair, get_pair, list_for_sweep, remove_pair, touch, encode_ctrl_frame,
  encode_data_frame, send_server_msg, send_ignored,
}
use Sockets.{
  Item, received, broken, Message, text, binary, ping, pong, close, read_binary_frame, ws_err,
  codec_err_to_protocol, non_binary,
}

abbrev pub settle : {A : Type 0} → Exit A → M (RelayResult A)
settle (done a) s = (done (ok a), s)
settle (failed e) s = (done (err e), s)
settle panicked s = (panicked, s)

-- `let result = f().await;`: the error is a value. A panic is not.
unfoldable pub attempt : {A : Type 0} → M A → M (RelayResult A)
attempt m s = let (x, s') = m s in settle x s'

abbrev pub with_caps : RelayResult CapsInner → M (Unit {0})
with_caps (ok c) s = (done tt, record s { caps = c })
with_caps (err e) s = (failed e, s)

-- `caps.try_add_server()?`, and the drop of the ticket.
unfoldable pub add_server_ticket : M (Unit {0})
add_server_ticket s = with_caps (try_add_server s.caps) s

unfoldable pub drop_server : Relay → Relay
drop_server s = record s { caps = drop_server_ticket s.caps }

-- `caps.try_add_pair()?`; the meters of the ticket are not used here.
unfoldable pub add_pair_ticket : M (Unit {0})
add_pair_ticket s = with_caps (elim (try_add_pair s.caps) [ ok (c, t) ↦ ok c | err e ↦ err e ]) s

abbrev pub with_registration :
    RelayResult (ServerRegistry × ServerRegistration) → M ServerRegistration
with_registration (ok (r, h)) s = (done h, record s { registry = r })
with_registration (err e) s = (failed e, s)

-- `register_server`, and the drop of the registration.
unfoldable pub register_server : ServerId → Sender → M ServerRegistration
register_server server_id tx s =
    with_registration (register s.registry (record { server_id = server_id; tx = tx })) s

unfoldable pub drop_registration : ServerRegistration → Relay → Relay
drop_registration h s = record s { registry = (unregister s.registry h).0 }

module _ (env : Outside) where
  abbrev pub decode : Bytes → RelayResult RelayWire
  decode bytes = map_err (codec_err_to_protocol env.codec_display) (decode_relay env.codec bytes)

  unfoldable pub notify_closed : PairId → PairCloseReason → Option Pair → M (Unit {0})
  unfolding ◌>>=◌
  notify_closed pair_id reason none = pure tt
  notify_closed pair_id reason (some pair) = do
    frame ← encode_ctrl_frame env (pair_close pair_id reason)
    send_ignored env pair.server_tx (ctrl frame)
    send_ignored env pair.client_tx (ctrl frame)

  unfoldable pub close_pair : PairId → PairCloseReason → M (Unit {0})
  unfolding ◌>>=◌
  close_pair pair_id reason = do found ← remove_pair pair_id; notify_closed pair_id reason found

  -- The server's read loop, for one binary message.
  unfoldable pub forward_to : ServerId → Sender → ℕ → PairId → Bytes → Option Pair → M (Unit {0})
  unfolding ◌>>=◌
  forward_to server_id server_tx now pair_id bytes none = do
    frame ← encode_ctrl_frame env (pair_close pair_id client_gone)
    send_server_msg env server_tx (ctrl frame)
  forward_to server_id server_tx now pair_id bytes (some pair) =
      if pair.server_id == server_id
      then (do
        touch now pair_id
        frame ← encode_data_frame env (forward pair_id bytes)
        send_server_msg env pair.client_tx (payload frame))
      else fail (protocol "pair routed to wrong server")

  unfoldable pub server_on_wire : ServerId → Sender → ℕ → RelayWire → M (Unit {0})
  unfolding ◌>>=◌
  server_on_wire server_id server_tx now (RelayWire.ctrl (pair_close pair_id reason)) =
      close_pair pair_id reason
  server_on_wire server_id server_tx now (RelayWire.ctrl other) = pure tt
  server_on_wire server_id server_tx now (RelayWire.payload (forward pair_id bytes)) = do
    found ← get_pair pair_id
    forward_to server_id server_tx now pair_id bytes found

  unfoldable pub server_loop : ServerId → Sender → List (ℕ × Item) → M (Unit {0})
  unfolding ◌>>=◌
  server_loop server_id server_tx [] = pure tt
  server_loop server_id server_tx ((now, broken e) ∷ rest) = fail (ws_err e)
  server_loop server_id server_tx ((now, received (binary bytes)) ∷ rest) = do
    wire ← lift (decode bytes)
    server_on_wire server_id server_tx now wire
    server_loop server_id server_tx rest
  server_loop server_id server_tx ((now, received close) ∷ rest) = pure tt
  server_loop server_id server_tx ((now, received (ping b)) ∷ rest) =
      server_loop server_id server_tx rest
  server_loop server_id server_tx ((now, received (pong b)) ∷ rest) =
      server_loop server_id server_tx rest
  server_loop server_id server_tx ((now, received (text b)) ∷ rest) = fail non_binary
  server_loop server_id server_tx ((now, received (Message.frame b)) ∷ rest) = fail non_binary

  unfoldable pub close_all : PairCloseReason → List PairId → M (Unit {0})
  unfolding ◌>>=◌
  close_all reason [] = pure tt
  close_all reason (pair_id ∷ rest) = do close_pair pair_id reason; close_all reason rest

  abbrev pub belongs : ServerId → Pair → Bool
  belongs server_id pair = pair.server_id == server_id

  unfoldable pub server_read_loop : ServerId → Sender → List (ℕ × Item) → M (Unit {0})
  unfolding ◌>>=◌
  server_read_loop server_id server_tx stream = do
    server_loop server_id server_tx stream
    send_ignored env server_tx ServerMsg.close
    live ← list_for_sweep
    close_all server_gone (map (λ p. p.pair_id) (keep (belongs server_id) live))

  abbrev pub expect_server_register : RelayWire → RelayResult ServerId
  expect_server_register (RelayWire.ctrl (server_register server_id key signature)) = ok server_id
  expect_server_register other = err (protocol "expected ServerRegister as first server frame")

  -- After the first frame. `tx` is the channel of this connection's writer task.
  unfoldable pub run_registered : ServerId → Sender → List (ℕ × Item) → M (Unit {0})
  unfolding ◌>>=◌
  run_registered server_id tx rest = do
    add_server_ticket
    on_exit drop_server do
      registration ← register_server server_id tx
      on_exit (drop_registration registration) do
        frame ← encode_ctrl_frame env server_register_ok
        send_server_msg env tx (ctrl frame)
        server_read_loop server_id tx rest

  unfoldable pub run_server_side : Sender → List (ℕ × Item) → M (Unit {0})
  unfolding ◌>>=◌
  run_server_side tx stream = do
    (first, rest) ← lift (read_binary_frame stream)
    wire ← lift (decode first)
    server_id ← lift (expect_server_register wire)
    run_registered server_id tx rest

  abbrev pub closes : Result Codec.CodecError RelayWire → Option (PairId × PairCloseReason)
  closes (ok (RelayWire.ctrl (pair_close pair_id reason))) = some (pair_id, reason)
  closes other = none

  unfoldable pub client_loop : Pair → List (ℕ × Item) → M (Unit {0})
  unfolding ◌>>=◌
  client_loop pair [] = pure tt
  client_loop pair ((now, broken e) ∷ rest) = fail (ws_err e)
  client_loop pair ((now, received (binary bytes)) ∷ rest) =
      let others = client_loop pair rest in
      elim (closes (decode_relay env.codec bytes)) [
        | some (pair_id, reason) ↦ close_pair pair_id reason
        | none ↦ (do
          touch now pair.pair_id
          frame ← encode_data_frame env (forward pair.pair_id bytes)
          send_server_msg env pair.server_tx (payload frame)
          others)
      ]
  client_loop pair ((now, received close) ∷ rest) = pure tt
  client_loop pair ((now, received (ping b)) ∷ rest) = client_loop pair rest
  client_loop pair ((now, received (pong b)) ∷ rest) = client_loop pair rest
  client_loop pair ((now, received (text b)) ∷ rest) = fail non_binary
  client_loop pair ((now, received (Message.frame b)) ∷ rest) = fail non_binary

  abbrev pub expect_client_connect : RelayWire → RelayResult ServerId
  expect_client_connect (RelayWire.ctrl (client_connect server_id)) = ok server_id
  expect_client_connect other = err (protocol "expected ClientConnect as first client frame")

  abbrev pub same_target : ServerId → ServerId → RelayResult (Unit {0})
  same_target server_id target =
      if server_id == target then ok tt else err (protocol "client pair request server mismatch")

  -- The task takes its share of the pair, and gives it up when it ends.
  abbrev pub hold : PairId → Relay → Relay
  hold pair_id s = record s { held = pair_id ∷ s.held }

  abbrev pub without : PairId → List PairId → List PairId
  without pair_id [] = []
  without pair_id (p ∷ ps) = if p == pair_id then ps else p ∷ without pair_id ps

  unfoldable pub let_go : PairId → Relay → Relay
  unfolding release_ticket
  let_go pair_id s = release_ticket pair_id (record s { held = without pair_id s.held })

  -- After the checks: `pair_id` is the fresh identifier, `now` the instant of creation.
  unfoldable pub run_pair : ServerId → Sender → Sender → PairId → ℕ → List (ℕ × Item) → M (Unit {0})
  unfolding ◌>>=◌
  run_pair target server_tx client_tx pair_id now rest = do
    add_pair_ticket
    let pair : Pair = record {
      pair_id = pair_id;
      server_id = target;
      created_at = now;
      last_progress = now;
      server_tx = server_tx;
      client_tx = client_tx;
    }
    modify (hold pair_id)
    on_exit (let_go pair_id) do
      insert_pair pair
      inbound ← encode_ctrl_frame env (pair_inbound pair_id)
      send_server_msg env server_tx (ctrl inbound)
      opened ← encode_ctrl_frame env (pair_open pair_id)
      send_server_msg env client_tx (ctrl opened)
      result ← attempt (client_loop pair rest)
      close_pair pair_id client_gone
      lift result

  unfoldable pub run_client_side : ServerId → Sender → PairId → ℕ → List (ℕ × Item) → M (Unit {0})
  unfolding ◌>>=◌
  run_client_side target client_tx pair_id now stream = do
    (first, rest) ← lift (read_binary_frame stream)
    wire ← lift (decode first)
    server_id ← lift (expect_client_connect wire)
    lift (same_target server_id target)
    found ← gets (λ s. Registry.get s.registry target)
    server_tx ← lift (ok_or found (protocol "target server not registered"))
    run_pair target server_tx client_tx pair_id now rest
