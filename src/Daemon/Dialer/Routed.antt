-- ===== src/Daemon/Dialer/Routed.antt =====
-- crates/server/daemon-core/src/relay_dialer.rs: what comes for a pair reaches the transport of that pair.
use cli_pocket.Prelude.{
  ℕ, ◌<◌, ◌≡◌, refl, Option, none, some, List, [], ◌∷◌, ◌++◌, String, Result, ok, err, ◌==◌,
  Bool-cases, inl, inr, ==_iff, arith,
}
use cli_pocket.Prelude.Dict.{Dict, lookup, insert, remove, lookup-insert, lookup-remove}
use cli_pocket.Proto.Wire.{Bytes, PairId, forward, pair_inbound, pair_close}
use cli_pocket.Proto.Codec.{Postcard, CodecError, RelayWire, decode_relay}
use cli_pocket.Relay.Forward.Sockets.{
  text, binary, ping, pong, close, frame, Item, received, broken,
}
use cli_pocket.Daemon.Errors.{DaemonResult}
use cli_pocket.Daemon.Dialer.{
  Sending, taken, gone, stuck, Delivery, Dialer, Flow, onward, waiting, ended, with_pair,
  handed_over, passed, on_wire, then_on, decoded, on_item, read_loop,
}

abbrev pub AreRight : Dict PairId → List Delivery → Type 0
AreRight channels [] = Unit {0}
AreRight channels (delivery ∷ deliveries) =
    (lookup delivery.channel channels ≡ some delivery.pair_id) × AreRight channels deliveries

-- The bridges, and all that was delivered, go to channels that were made for their pair; and the
-- channels are those with a number below the next.
pub record IsRouted (d : Dialer) : Type 0 where
  pub bridged :
      (pair_id : PairId) (channel : ℕ)
      → lookup pair_id d.pairs ≡ some channel
      → lookup channel d.channels ≡ some pair_id
  pub numbered :
      (channel : ℕ) (pair_id : PairId)
      → lookup channel d.channels ≡ some pair_id
      → channel < d.next_channel
  pub right : AreRight d.channels d.delivered

-- A new channel changes nothing of the old ones.
AreRight-grown :
    (channel : ℕ) (pair_id : PairId) (channels : Dict PairId) (deliveries : List Delivery)
    → ((c : ℕ) (q : PairId)
        → lookup c channels ≡ some q
        → lookup c (insert channel pair_id channels) ≡ some q)
    → AreRight channels deliveries
    → AreRight (insert channel pair_id channels) deliveries
AreRight-grown channel pair_id channels [] k h = tt
AreRight-grown channel pair_id channels (x ∷ xs) k h =
    (k x.channel x.pair_id (h.0), AreRight-grown channel pair_id channels xs k (h.1))

AreRight-append :
    (channels : Dict PairId) (deliveries : List Delivery) (x : Delivery)
    → AreRight channels deliveries
    → lookup x.channel channels ≡ some x.pair_id
    → AreRight channels (deliveries ++ x ∷ [])
AreRight-append channels [] x h e = (e, tt)
AreRight-append channels (y ∷ ys) x h e = (h.0, AreRight-append channels ys x (h.1) e)

with_pair-kept :
    (d : Dialer) (pair_id : PairId)
    → IsRouted d
    → (c : ℕ) (q : PairId) → lookup c d.channels ≡ some q
    → lookup c (insert d.next_channel pair_id d.channels) ≡ some q
with_pair-kept d pair_id h c q e =
    ground (arith, h.numbered c q e, lookup-insert d.next_channel c pair_id d.channels)

new_bridge :
    (pair_id : PairId) (d : Dialer)
    → IsRouted d
    → (q : PairId) (c : ℕ) → lookup q (insert pair_id d.next_channel d.pairs) ≡ some c
    → lookup c (insert d.next_channel pair_id d.channels) ≡ some q
new_bridge pair_id d h q c e = elim (Bool-cases (pair_id == q)) [
  | inl same ↦
      let there : d.next_channel ≡ c =
        ground (arith, lookup-insert pair_id q d.next_channel d.pairs) in
      ground (arith, (==_iff pair_id q).0 same, lookup-insert d.next_channel c pair_id d.channels)
  | inr other ↦
      with_pair-kept d pair_id h c q
        (h.bridged q c (ground (arith, lookup-insert pair_id q d.next_channel d.pairs)))
]

with_pair-IsRouted : (pair_id : PairId) (d : Dialer) → IsRouted d → IsRouted (with_pair pair_id d)
with_pair-IsRouted pair_id d h = record {
  bridged = λ q c e. new_bridge pair_id d h q c e;
  numbered =
      λ c q e. ground (arith, h.numbered c q, lookup-insert d.next_channel c pair_id d.channels);
  right =
      AreRight-grown d.next_channel pair_id d.channels d.delivered (with_pair-kept d pair_id h)
        h.right;
}

without_pair-IsRouted :
    (pair_id : PairId) (d : Dialer)
    → IsRouted d
    → IsRouted (record d { pairs = remove pair_id d.pairs })
without_pair-IsRouted pair_id d h = record {
  bridged = λ q c e. h.bridged q c (ground (arith, lookup-remove pair_id q d.pairs));
  numbered = h.numbered;
  right = h.right;
}

handed_over-IsRouted :
    (sending : Sending) (channel : ℕ) (d : Dialer)
    → IsRouted d
    → IsRouted (handed_over sending channel d).1
handed_over-IsRouted taken channel d h = record {
  bridged = h.bridged;
  numbered = h.numbered;
  right = h.right;
}
handed_over-IsRouted gone channel d h = h
handed_over-IsRouted stuck channel d h = h

passed-IsRouted :
    (sending : Sending) (o : Option ℕ) (pair_id : PairId) (bytes : Bytes) (d : Dialer)
    → IsRouted d
    → lookup pair_id d.pairs ≡ o
    → IsRouted (passed sending o pair_id bytes d).1
passed-IsRouted sending none pair_id bytes d h e = h
passed-IsRouted taken (some channel) pair_id bytes d h e = record {
  bridged = h.bridged;
  numbered = h.numbered;
  right =
      AreRight-append d.channels d.delivered
        (record { channel = channel; pair_id = pair_id; bytes = bytes }) h.right
        (h.bridged pair_id channel e);
}
passed-IsRouted gone (some channel) pair_id bytes d h e = without_pair-IsRouted pair_id d h
passed-IsRouted stuck (some channel) pair_id bytes d h e = h

on_wire-IsRouted :
    (sending : Sending) (wire : RelayWire) (d : Dialer)
    → IsRouted d
    → IsRouted (on_wire sending wire d).1
unfolding on_wire
on_wire-IsRouted sending (RelayWire.ctrl (pair_inbound pair_id)) d h =
    handed_over-IsRouted sending d.next_channel (with_pair pair_id d)
      (with_pair-IsRouted pair_id d h)
on_wire-IsRouted sending (RelayWire.payload (forward pair_id bytes)) d h =
    passed-IsRouted sending (lookup pair_id d.pairs) pair_id bytes d h refl
on_wire-IsRouted sending (RelayWire.ctrl (pair_close pair_id reason)) d h =
    without_pair-IsRouted pair_id d h
on_wire-IsRouted sending (RelayWire.ctrl _) d h = h

module _ (p : Postcard) (display : CodecError → String) where
  decoded-IsRouted :
      (sending : Sending) (r : Result CodecError RelayWire) (d : Dialer)
      → IsRouted d
      → IsRouted (decoded p display sending r d).1
  decoded-IsRouted sending (err e) d h = h
  decoded-IsRouted sending (ok wire) d h = on_wire-IsRouted sending wire d h

  on_item-IsRouted :
      (sending : Sending) (item : Item) (d : Dialer)
      → IsRouted d
      → IsRouted (on_item p display sending item d).1
  unfolding on_item
  on_item-IsRouted sending (received (binary bytes)) d h =
      decoded-IsRouted sending (decode_relay p bytes) d h
  on_item-IsRouted sending (broken e) d h = h
  on_item-IsRouted sending (received close) d h = h
  on_item-IsRouted sending (received (ping b)) d h = h
  on_item-IsRouted sending (received (pong b)) d h = h
  on_item-IsRouted sending (received (text b)) d h = h
  on_item-IsRouted sending (received (frame b)) d h = h

  then_on-IsRouted :
      (flow : Flow) (d : Dialer) (rest : Dialer → Option (DaemonResult (Unit {0})) × Dialer)
      → IsRouted d
      → ((k : Dialer) → IsRouted k → IsRouted (rest k).1)
      → IsRouted (then_on (flow, d) rest).1
  then_on-IsRouted onward d rest h k = k d h
  then_on-IsRouted waiting d rest h k = h
  then_on-IsRouted (ended result) d rest h k = h

  -- Whatever the relay sends, and whatever becomes of the transports: all that was delivered for a
  -- pair went to a transport that was made for that pair and for no other, and the bridges that stand
  -- lead to such transports.
  pub read_loop-IsRouted :
      (items : List (Sending × Item)) (d : Dialer)
      → IsRouted d
      → IsRouted (read_loop p display items d).1
  unfolding read_loop
  read_loop-IsRouted [] d h = h
  read_loop-IsRouted ((sending, item) ∷ items) d h =
      then_on-IsRouted (on_item p display sending item d).0 (on_item p display sending item d).1
        (read_loop p display items) (on_item-IsRouted sending item d h)
        (λ k g. read_loop-IsRouted items k g)
