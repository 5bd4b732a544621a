-- ===== src/Proto/Tests.antt =====
-- crates/shared/proto: the theorems of the codecs at concrete values.
use cli_pocket.Prelude.{◌≡◌, ◌≢◌, ok}
use cli_pocket.Proto.Wire.{Bytes, RelayCtrl, RelayData}
use cli_pocket.Proto.Codec.{ctrl, payload, encode_relay_ctrl, encode_relay_data, decode_relay}
use cli_pocket.Proto.Codec.RoundTrip.{relay_roundtrip}
use cli_pocket.Proto.Codec.Sample.{strict, strict-ReadsBack}

relay_roundtrip_example :
    ((c : RelayCtrl) (b : Bytes)
      → encode_relay_ctrl strict c ≡ ok b
      → decode_relay strict b ≡ ok (ctrl c))
    × ((d : RelayData) (b : Bytes)
        → encode_relay_data strict d ≡ ok b
        → decode_relay strict b ≡ ok (payload d))
    × ((c : RelayCtrl) (d : RelayData) (b : Bytes)
        → encode_relay_ctrl strict c ≡ ok b
        → encode_relay_data strict d ≢ ok b)
relay_roundtrip_example = relay_roundtrip strict strict-ReadsBack
