-- ===== src/Relay/Forward/Trespass.antt =====
-- crates/relay/relay-core/src/forward.rs: what one connection can do to the pairs of another, and
-- what the error paths leave in the map.
use cli_pocket.Prelude.{ℕ, ◌≡◌, refl, false, none, some, List, ◌∷◌, ok, ◌==◌, if◌then◌else◌, arith}
use cli_pocket.Prelude.Dict.{lookup, lookup-insert}
use cli_pocket.Proto.Wire.{Bytes, PairId, ServerId, pair_close, PairCloseReason}
use cli_pocket.Proto.Codec.{RelayWire, decode_relay}
use cli_pocket.Relay.Errors.{protocol}
use cli_pocket.Relay.Caps.{CapsInner, PairTicket, try_add_pair}
use cli_pocket.Relay.Registry.{Sender}
use cli_pocket.Relay.State.{Pair, Relay, Outside, done, failed, on_exit}
use cli_pocket.Relay.Pairs.{insert_pair, send_server_msg, release_ticket}
use cli_pocket.Relay.Pairs.Sweep.{Encodes, encode_ctrl_frame_lem}
use cli_pocket.Relay.Forward.Sockets.{Item, received, binary}
use cli_pocket.Relay.Forward.Closing.{close_pair_exact}
use cli_pocket.Relay.Forward.{
  closes, client_loop, server_on_wire, run_pair, add_pair_ticket, let_go,
}

-- A binary message of the client of `pair` that decodes as the `PairClose` of any pair takes that
-- pair out of the map and no other, and ends the client's own loop without an error; a server's
-- `PairClose` does the same whatever server the pair belongs to. Frames are taken to encode.
pub close_by_anyone :
    (env : Outside) (enc : Encodes env) (pair : Pair) (server_id : ServerId) (tx : Sender) (now : ℕ)
    (bytes : Bytes) (rest : List (ℕ × Item)) (other : PairId) (reason : PairCloseReason) (s : Relay)
    → closes env (decode_relay env.codec bytes) ≡ some (other, reason)
    → let c = client_loop env pair ((now, received (binary bytes)) ∷ rest) s in
      let v = server_on_wire env server_id tx now (RelayWire.ctrl (pair_close other reason)) s in
      (c.0 ≡ done tt)
      × (v.0 ≡ done tt)
      × ((k : PairId) → lookup k c.1.pairs ≡ (if other == k then none else lookup k s.pairs))
      × ((k : PairId) → lookup k v.1.pairs ≡ (if other == k then none else lookup k s.pairs))
unfolding client_loop server_on_wire
close_by_anyone env enc pair server_id tx now bytes rest other reason s reads =
    let closed = close_pair_exact env enc other reason s in
    rw (reads, client_loop) (closed.0, closed.0, closed.1, closed.1)

module _ (env : Outside) (enc : Encodes env) where
  -- A client task whose server's writer is gone fails when it announces the pair, and leaves the
  -- pair in the map and its ticket counted: the early return skips `close_pair`.
  pub run_pair_leaks :
      (target : ServerId) (server_tx client_tx : Sender) (pair_id : PairId) (now : ℕ)
      (rest : List (ℕ × Item)) (s : Relay) {c : CapsInner} {t : PairTicket}
      → env.alive server_tx ≡ false
      → try_add_pair s.caps ≡ ok (c, t)
      → let (x, after) = run_pair env target server_tx client_tx pair_id now rest s in
        (x ≡ failed (protocol "relay peer writer closed"))
        × ((p : Pair) × (lookup pair_id after.pairs ≡ some p))
        × (after.caps.pairs ≡ c.pairs)
  unfolding run_pair add_pair_ticket insert_pair send_server_msg let_go release_ticket on_exit
  run_pair_leaks target server_tx client_tx pair_id now rest s gone ticket =
      let pair : Pair = record {
        pair_id = pair_id;
        server_id = target;
        created_at = now;
        last_progress = now;
        server_tx = server_tx;
        client_tx = client_tx;
      } in
      let kept = lookup-insert pair_id pair_id pair s.pairs in
      rw ticket (
        rw (encode_ctrl_frame_lem env enc)
          (rw gone (refl, (pair, ground (arith, kept)), ground (arith, kept))))
