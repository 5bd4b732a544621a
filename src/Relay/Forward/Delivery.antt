-- ===== src/Relay/Forward/Delivery.antt =====
-- crates/relay/relay-core/src/forward.rs: payloads go through the relay unchanged, and only within
-- their pair.
use cli_pocket.Prelude.{
  ℕ, suc, ◌≡◌, ◌≢◌, refl, false, arith, inl, inr, true, none, some, List, [], ◌∷◌, ◌++◌, ok, ◌==◌,
  Option-cases, Bool-cases, ==_iff,
}
use cli_pocket.Prelude.Dict.{lookup}
use cli_pocket.Proto.Wire.{Bytes, PairId, ServerId, RelayData, forward, pair_close, client_gone}
use cli_pocket.Proto.Codec.{
  RelayWire, ReadsBack, decode_relay, encode_relay_ctrl, encode_relay_data,
}
use cli_pocket.Proto.Codec.RoundTrip.{decode-encode_relay_data}
use cli_pocket.Relay.Errors.{RelayError, protocol}
use cli_pocket.Relay.Registry.{Sender, ServerMsg, ctrl, payload}
use cli_pocket.Relay.State.{Pair, Relay, Outside, Exit, done, failed}
use cli_pocket.Relay.Pairs.{stamp, touch, get_pair, encode_data_frame, send_server_msg}
use cli_pocket.Relay.Pairs.Sweep.{Encodes, encode_ctrl_frame_lem}
use cli_pocket.Relay.Forward.Sockets.{Item, received, binary, client_writer_loop}
use cli_pocket.Relay.Forward.{decode, closes, client_loop, forward_to, server_on_wire, server_loop}

abbrev pub writer_closed : RelayError
writer_closed = protocol "relay peer writer closed"

-- What the `expect` of `encode_data_frame` relies on.
abbrev pub EncodesData : Outside → Type 0
EncodesData env = (d : RelayData) → (b : Bytes) × (encode_relay_data env.codec d ≡ ok b)

-- The state after a payload of the pair `pair_id` went out.
abbrev pub after_payload : ℕ → PairId → Sender → Bytes → Relay → Relay
after_payload now pair_id tx f s = record s {
  pairs = stamp now pair_id (lookup pair_id s.pairs) s.pairs;
  sent = s.sent ++ (tx, payload f) ∷ [];
}

module _ (env : Outside) (enc : EncodesData env) (reads : ReadsBack env.codec) where
  -- A binary message of a client that does not itself decode as a `PairClose`: the loop stamps the
  -- pair and sends the server one frame, which decodes to the message and the client's pair, and
  -- goes on.
  pub client_to_server :
      (pair : Pair) (now : ℕ) (bytes : Bytes) (rest : List (ℕ × Item)) (s : Relay)
      → closes env (decode_relay env.codec bytes) ≡ none
      → env.alive pair.server_tx ≡ true
      → (f : Bytes) × (decode_relay env.codec f
          ≡ ok (RelayWire.payload (forward pair.pair_id bytes)))
        × (client_loop env pair ((now, received (binary bytes)) ∷ rest) s
            ≡ client_loop env pair rest (after_payload now pair.pair_id pair.server_tx f s))
  unfolding client_loop touch encode_data_frame send_server_msg
  client_to_server pair now bytes rest s plain up =
      let d : RelayData = forward pair.pair_id bytes in
      (
        (enc d).0,
        decode-encode_relay_data env.codec d (enc d).0 reads (enc d).1,
        rw (plain, client_loop) (rw ((enc d).1, encode_data_frame) (rw (up, send_server_msg) refl)),
      )

  -- A frame of the pair's own server: the client's writer gets one frame more, of which it writes
  -- just the payload to the socket.
  pub server_to_client :
      (server_id : ServerId) (tx : Sender) (now : ℕ) (bytes body : Bytes) (pair_id : PairId)
      (pair : Pair) (rest : List (ℕ × Item)) (s : Relay)
      → decode env bytes ≡ ok (RelayWire.payload (forward pair_id body))
      → lookup pair_id s.pairs ≡ some pair
      → pair.server_id ≡ server_id
      → env.alive pair.client_tx ≡ true
      → (f : Bytes) × (server_loop env server_id tx ((now, received (binary bytes)) ∷ rest) s
          ≡ server_loop env server_id tx rest (after_payload now pair_id pair.client_tx f s))
        × ((room : ℕ) (others : List ServerMsg)
            → client_writer_loop env.codec (suc room) (payload f ∷ others)
              ≡ binary body ∷ client_writer_loop env.codec room others)
  unfolding server_loop server_on_wire forward_to get_pair touch encode_data_frame send_server_msg
      client_writer_loop
  server_to_client server_id tx now bytes body pair_id pair rest s dec found own up =
      let d : RelayData = forward pair_id body in
      let same : (pair.server_id == server_id) ≡ true = (==_iff pair.server_id server_id).1 own in
      (
        (enc d).0,
        rw (dec, server_loop)
            (rw (found, server_on_wire)
              (rw (same, forward_to)
                (rw ((enc d).1, encode_data_frame) (rw (up, send_server_msg) (rw found refl))))),
        λ room others.
            rw (decode-encode_relay_data env.codec d (enc d).0 reads (enc d).1, client_writer_loop),
      )

-- What comes of a data frame of a server that names the pair `pair_id`, with the payload `body`, by the
-- state that it finds.
pub data Routed (env : Outside) (server_id : ServerId) (tx : Sender) (now : ℕ) (pair_id : PairId)
    (body : Bytes) (s : Relay) (out : Exit (Unit {0}) × Relay) : Type 0 where
  unknown :
      (f : Bytes)
      → lookup pair_id s.pairs ≡ none
      → env.alive tx ≡ true
      → encode_relay_ctrl env.codec (pair_close pair_id client_gone) ≡ ok f
      → out ≡ (done tt, record s { sent = s.sent ++ (tx, ctrl f) ∷ [] })
      → Routed env server_id tx now pair_id body s out
  unanswered :
      lookup pair_id s.pairs ≡ none
      → env.alive tx ≡ false
      → out ≡ (failed writer_closed, s)
      → Routed env server_id tx now pair_id body s out
  foreign :
      (pair : Pair)
      → lookup pair_id s.pairs ≡ some pair
      → pair.server_id ≢ server_id
      → out ≡ (failed (protocol "pair routed to wrong server"), s)
      → Routed env server_id tx now pair_id body s out
  delivered :
      (pair : Pair) (f : Bytes)
      → lookup pair_id s.pairs ≡ some pair
      → pair.server_id ≡ server_id
      → env.alive pair.client_tx ≡ true
      → encode_relay_data env.codec (forward pair_id body) ≡ ok f
      → out ≡ (done tt, after_payload now pair_id pair.client_tx f s)
      → Routed env server_id tx now pair_id body s out
  undelivered :
      (pair : Pair)
      → lookup pair_id s.pairs ≡ some pair
      → pair.server_id ≡ server_id
      → env.alive pair.client_tx ≡ false
      → out ≡ (
        failed writer_closed,
        record s { pairs = stamp now pair_id (lookup pair_id s.pairs) s.pairs },
      )
      → Routed env server_id tx now pair_id body s out

module _ (env : Outside) (enc : Encodes env) (encd : EncodesData env) where
  missing-Routed :
      (server_id : ServerId) (tx : Sender) (now : ℕ) (pair_id : PairId) (body : Bytes) (s : Relay)
      → lookup pair_id s.pairs ≡ none
      → Routed env server_id tx now pair_id body s
          (forward_to env server_id tx now pair_id body none s)
  unfolding forward_to send_server_msg
  missing-Routed server_id tx now pair_id body s missing =
      let f = enc (pair_close pair_id client_gone) in
      elim (Bool-cases (env.alive tx)) [
        | inl up ↦ unknown (f.0) missing up (f.1) (rw (encode_ctrl_frame_lem env enc) (rw up refl))
        | inr down ↦ unanswered missing down (rw (encode_ctrl_frame_lem env enc) (rw down refl))
      ]

  own-Routed :
      (server_id : ServerId) (tx : Sender) (now : ℕ) (pair_id : PairId) (body : Bytes) (pair : Pair)
      (s : Relay)
      → lookup pair_id s.pairs ≡ some pair
      → (pair.server_id == server_id) ≡ true
      → Routed env server_id tx now pair_id body s
          (forward_to env server_id tx now pair_id body (some pair) s)
  unfolding forward_to send_server_msg touch encode_data_frame
  own-Routed server_id tx now pair_id body pair s found own =
      let f = encd (forward pair_id body) in
      elim (Bool-cases (env.alive pair.client_tx)) [
        | inl up ↦
            delivered pair (f.0) found ((==_iff _ _).0 own) up (f.1)
              (rw own (rw (f.1) (rw up refl)))
        | inr down ↦
            undelivered pair found ((==_iff _ _).0 own) down (rw own (rw (f.1) (rw down refl)))
      ]

  foreign-Routed :
      (server_id : ServerId) (tx : Sender) (now : ℕ) (pair_id : PairId) (body : Bytes) (pair : Pair)
      (s : Relay)
      → lookup pair_id s.pairs ≡ some pair
      → (pair.server_id == server_id) ≡ false
      → Routed env server_id tx now pair_id body s
          (forward_to env server_id tx now pair_id body (some pair) s)
  unfolding forward_to
  foreign-Routed server_id tx now pair_id body pair s found other =
      foreign pair found (λ same. ground (arith, (==_iff pair.server_id server_id).1 same))
        (rw other refl)

  -- A data frame of a server, whatever pair it names. If the pair is in the map and is the server's
  -- own, its marker is stamped, and the frame that encodes just this pair and this payload goes to
  -- the client of that pair; the call fails if the client's writer is gone. If the pair is another
  -- server's, the call fails and nothing changes. If it is not in the map, the server is sent the
  -- encoding of `PairClose` for it, with the reason that the client is gone, and the call fails if
  -- the server's own writer is gone. Nothing else of the relay changes. Frames are taken to encode.
  pub forward_isolated :
      (server_id : ServerId) (tx : Sender) (now : ℕ) (pair_id : PairId) (body : Bytes) (s : Relay)
      → Routed env server_id tx now pair_id body s
          (server_on_wire env server_id tx now (RelayWire.payload (forward pair_id body)) s)
  unfolding server_on_wire get_pair
  forward_isolated server_id tx now pair_id body s = elim (Option-cases (lookup pair_id s.pairs)) [
    | inl missing ↦ rw missing (missing-Routed server_id tx now pair_id body s missing)
    | inr (pair, found) ↦ elim (Bool-cases (pair.server_id == server_id)) [
      | inl own ↦ rw found (own-Routed server_id tx now pair_id body pair s found own)
      | inr other ↦ rw found (foreign-Routed server_id tx now pair_id body pair s found other)
    ]
  ]
