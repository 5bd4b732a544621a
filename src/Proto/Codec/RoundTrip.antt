-- ===== src/Proto/Codec/RoundTrip.antt =====
-- crates/shared/proto/src/codec.rs: reading back what was written.
use cli_pocket.Prelude.{◌≡◌, ◌≢◌, ok, Result-cases, inl, inr, arith}
use cli_pocket.Proto.Wire.{Bytes, RelayCtrl, RelayData}
use cli_pocket.Proto.Codec.{
  Postcard, ReadsBack, encode_relay_ctrl, encode_relay_data, decode_relay, ctrl, payload,
}

module _ (p : Postcard) where
  -- Where postcard reads back what it writes, a control frame that was encoded decodes to itself.
  pub decode-encode_relay_ctrl :
      (c : RelayCtrl) (b : Bytes)
      → ReadsBack p
      → encode_relay_ctrl p c ≡ ok b
      → decode_relay p b ≡ ok (ctrl c)
  unfolding encode_relay_ctrl decode_relay
  decode-encode_relay_ctrl c b r e = elim (Result-cases (p.ctrl_to_allocvec c)) [
    | inl (body, w) ↦ ground (arith, r.ctrl c body w)
    | inr (x, w) ↦ ground arith
  ]

  pub decode-encode_relay_data :
      (d : RelayData) (b : Bytes)
      → ReadsBack p
      → encode_relay_data p d ≡ ok b
      → decode_relay p b ≡ ok (payload d)
  unfolding encode_relay_data decode_relay
  decode-encode_relay_data d b r e = elim (Result-cases (p.data_to_allocvec d)) [
    | inl (body, w) ↦ ground (arith, r.payload d body w)
    | inr (x, w) ↦ ground arith
  ]

  -- Where postcard reads back what it writes, both kinds of frames that were encoded decode to
  -- themselves, and no bytes are an encoding of both kinds.
  pub relay_roundtrip :
      ReadsBack p
      → ((c : RelayCtrl) (b : Bytes)
          → encode_relay_ctrl p c ≡ ok b
          → decode_relay p b ≡ ok (ctrl c))
        × ((d : RelayData) (b : Bytes)
            → encode_relay_data p d ≡ ok b
            → decode_relay p b ≡ ok (payload d))
        × ((c : RelayCtrl) (d : RelayData) (b : Bytes)
            → encode_relay_ctrl p c ≡ ok b
            → encode_relay_data p d ≢ ok b)
  relay_roundtrip r = (
    λ c b e. decode-encode_relay_ctrl c b r e,
    λ d b e. decode-encode_relay_data d b r e,
    λ c d b e f. cc (decode-encode_relay_ctrl c b r e, decode-encode_relay_data d b r f),
  )
