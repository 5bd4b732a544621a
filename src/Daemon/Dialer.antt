-- ===== src/Daemon/Dialer.antt =====
-- crates/server/daemon-core/src/relay_dialer.rs: the daemon's side of the relay, which gives each pair its own
-- transport. A `PairTransport` and the channel to it are a number.
--
-- What becomes of a send on a channel is a `Sending`: the other end takes it in time, or is gone, or its
-- queue stays full. The texts of codec errors are the parameter `display`.
pub mod Routed
mod Tests
use Prim.Native.String.{◌++◌ as concat}
use cli_pocket.Prelude.{
  ℕ, ◌+◌, ◌-◌, ◌*◌, ◌/◌, ◌≡◌, refl, suc, min, leb, ltb, ◌==◌, u64_max, Bool, true, false, Option,
  none, some, List, [], ◌∷◌, ◌++◌, String, Result, ok, err, if◌then◌else◌,
}
use cli_pocket.Prelude.Dict.{Dict, lookup, insert, remove}
use cli_pocket.Proto.Wire.{
  Bytes, PairId, RelayCtrl, RelayData, forward, pair_inbound, pair_close, server_register_ok,
  server_register_err,
}
use cli_pocket.Proto.Codec.{Postcard, CodecError, RelayWire, decode_relay}
use cli_pocket.Relay.Forward.Sockets.{
  Message, text, binary, ping, pong, close, frame, Item, received, broken,
}
use cli_pocket.Daemon.Errors.{DaemonError, DaemonResult, internal}

pub data Sending : Type 0 where
  taken gone stuck : Sending

pub record Delivery : Type 0 where
  pub channel : ℕ
  pub pair_id : PairId
  pub bytes : Bytes

-- `pairs` is the map of bridges; `channels` has the pair that each channel was made for, `accepted` the
-- transports that were handed over, `delivered` what was sent to them.
pub record Dialer : Type 0 where
  pub pairs : Dict ℕ
  pub channels : Dict PairId
  pub next_channel : ℕ
  pub accepted : List ℕ
  pub delivered : List Delivery

abbrev pub no_pairs : Dialer
no_pairs = record { pairs = []; channels = []; next_channel = 0; accepted = []; delivered = [] }

-- The loop goes on, or the function returns, or it waits for ever.
pub data Flow : Type 0 where
  onward waiting : Flow
  ended : DaemonResult (Unit {0}) → Flow

abbrev pub with_pair : PairId → Dialer → Dialer
with_pair pair_id d = record d {
  pairs = insert pair_id d.next_channel d.pairs;
  channels = insert d.next_channel pair_id d.channels;
  next_channel = suc d.next_channel;
}

abbrev pub handed_over : Sending → ℕ → Dialer → Flow × Dialer
handed_over taken channel d = (onward, record d { accepted = d.accepted ++ channel ∷ [] })
handed_over gone channel d = (ended (err (internal "relay inbound consumer dropped")), d)
handed_over stuck channel d = (waiting, d)

abbrev pub passed : Sending → Option ℕ → PairId → Bytes → Dialer → Flow × Dialer
passed sending none pair_id bytes d = (onward, d)
passed taken (some channel) pair_id bytes d = (
  onward,
  record d {
    delivered = d.delivered ++ record { channel = channel; pair_id = pair_id; bytes = bytes } ∷ [];
  },
)
passed gone (some channel) pair_id bytes d = (onward, record d { pairs = remove pair_id d.pairs })
passed stuck (some channel) pair_id bytes d = (waiting, d)

unfoldable pub on_wire : Sending → RelayWire → Dialer → Flow × Dialer
on_wire sending (RelayWire.ctrl (pair_inbound pair_id)) d =
    handed_over sending d.next_channel (with_pair pair_id d)
on_wire sending (RelayWire.payload (forward pair_id bytes)) d =
    passed sending (lookup pair_id d.pairs) pair_id bytes d
on_wire sending (RelayWire.ctrl (pair_close pair_id reason)) d =
    (onward, record d { pairs = remove pair_id d.pairs })
on_wire sending (RelayWire.ctrl _) d = (onward, d)

abbrev pub ws_err : String → DaemonError
ws_err e = internal (concat "relay websocket error: " e)

abbrev pub non_binary : DaemonError
non_binary = internal "unexpected non-binary frame on relay dialer"

abbrev pub closed_by_relay : DaemonError
closed_by_relay = internal "relay websocket closed"

abbrev pub then_on :
    Flow × Dialer
    → (Dialer → Option (DaemonResult (Unit {0})) × Dialer)
    → Option (DaemonResult (Unit {0})) × Dialer
then_on (onward, d) rest = rest d
then_on (waiting, d) rest = (none, d)
then_on (ended result, d) rest = (some result, d)

module _ (p : Postcard) (display : CodecError → String) where
  abbrev pub codec_err : CodecError → DaemonError
  codec_err e = internal (concat "relay codec error: " (display e))

  abbrev pub decoded : Sending → Result CodecError RelayWire → Dialer → Flow × Dialer
  decoded sending (err e) d = (ended (err (codec_err e)), d)
  decoded sending (ok wire) d = on_wire sending wire d

  unfoldable pub on_item : Sending → Item → Dialer → Flow × Dialer
  on_item sending (broken e) d = (ended (err (ws_err e)), d)
  on_item sending (received (binary bytes)) d = decoded sending (decode_relay p bytes) d
  on_item sending (received close) d = (ended (ok tt), d)
  on_item sending (received (ping b)) d = (onward, d)
  on_item sending (received (pong b)) d = (onward, d)
  on_item sending (received (text b)) d = (ended (err non_binary), d)
  on_item sending (received (frame b)) d = (ended (err non_binary), d)

  -- The result, or none where the loop waits for ever.
  unfoldable pub read_loop :
      List (Sending × Item) → Dialer → Option (DaemonResult (Unit {0})) × Dialer
  read_loop [] d = (some (ok tt), d)
  read_loop ((sending, item) ∷ items) d = then_on (on_item sending item d) (read_loop items)

  unfoldable pub next_binary : List (Sending × Item) → DaemonResult (Bytes × List (Sending × Item))
  next_binary [] = err closed_by_relay
  next_binary ((s, broken e) ∷ items) = err (ws_err e)
  next_binary ((s, received (binary bytes)) ∷ items) = ok (bytes, items)
  next_binary ((s, received (ping b)) ∷ items) = next_binary items
  next_binary ((s, received (pong b)) ∷ items) = next_binary items
  next_binary ((s, received close) ∷ items) = err closed_by_relay
  next_binary ((s, received (text b)) ∷ items) = err non_binary
  next_binary ((s, received (frame b)) ∷ items) = err non_binary

  abbrev pub registration : Result CodecError RelayWire → DaemonResult (Unit {0})
  registration (err e) = err (codec_err e)
  registration (ok (RelayWire.ctrl server_register_ok)) = ok tt
  registration (ok (RelayWire.ctrl (server_register_err reason))) =
      err (internal (concat "relay rejected server registration: " reason))
  registration (ok other) = err (internal "unexpected relay registration response")

  abbrev pub registered :
      DaemonResult (Unit {0}) → List (Sending × Item) → Option (DaemonResult (Unit {0})) × Dialer
  registered (err e) items = (some (err e), no_pairs)
  registered (ok _) items = read_loop items no_pairs

  abbrev pub first_frame :
      DaemonResult (Bytes × List (Sending × Item)) → Option (DaemonResult (Unit {0})) × Dialer
  first_frame (err e) = (some (err e), no_pairs)
  first_frame (ok (bytes, items)) = registered (registration (decode_relay p bytes)) items

  -- `dial` is how connecting and sending the registration goes; `timely` whether the first frame comes
  -- before the timeout.
  unfoldable pub run_once :
      DaemonResult (Unit {0})
      → Bool
      → List (Sending × Item)
      → Option (DaemonResult (Unit {0})) × Dialer
  run_once (err e) timely items = (some (err e), no_pairs)
  run_once (ok _) timely items =
      if timely
      then first_frame (next_binary items)
      else (some (err (internal "relay register timed out")), no_pairs)

abbrev at_least : ℕ → ℕ → ℕ
at_least low n = if ltb n low then low else n

unfoldable pub next_delay : ℕ → ℕ → ℕ → ℕ
next_delay cur_ms max_ms mul_x10 = at_least 50 (min (min (cur_ms * mul_x10 / 10) u64_max) max_ms)

unfoldable pub jitter : ℕ → ℕ → ℕ
jitter base_ms rng_byte =
    let jittered =
      if leb 128 rng_byte
      then base_ms + base_ms * (rng_byte - 128) / 512
      else base_ms - base_ms * (128 - rng_byte) / 512 in
    if jittered == 0 then 1 else min jittered u64_max

-- `RelayRetryConfig`.
pub record RelayRetryConfig : Type 0 where
  pub initial_ms : ℕ
  pub max_ms : ℕ
  pub mul_x10 : ℕ

-- The pauses after the attempts, for how each ends and a random byte; none where the loop goes on at
-- once.
unfoldable pub run_forever :
    RelayRetryConfig → List (DaemonResult (Unit {0}) × ℕ) → ℕ → List (Option ℕ)
run_forever retry [] delay_ms = []
run_forever retry ((ok _, random) ∷ attempts) delay_ms =
    none ∷ run_forever retry attempts (at_least 50 retry.initial_ms)
run_forever retry ((err e, random) ∷ attempts) delay_ms =
    some (jitter delay_ms random)
    ∷ run_forever retry attempts (next_delay delay_ms retry.max_ms retry.mul_x10)
