-- ===== src/Proto/Codec.antt =====
-- crates/shared/proto/src/codec.rs: relay frames, one discriminator byte and a postcard body.
pub mod RoundTrip
pub mod Sample
use cli_pocket.Prelude.{
  ℕ, ◌≡◌, refl, ◌≢◌, ap, List, [], ◌∷◌, String, Result, ok, err, map_err, ◌>>=◌, ◌==◌,
  if◌then◌else◌, arith, Bool-cases, inl, inr,
}
use cli_pocket.Proto.Wire.{Bytes, RelayCtrl, RelayData, relay_disc_ctrl, relay_disc_data}

-- The postcard crate at the two types that it is used at here. Its errors are only printed, so one
-- is the text that it prints.
pub record Postcard : Type 0 where
  pub ctrl_to_allocvec : RelayCtrl → Result String Bytes
  pub ctrl_from_bytes : Bytes → Result String RelayCtrl
  pub data_to_allocvec : RelayData → Result String Bytes
  pub data_from_bytes : Bytes → Result String RelayData

-- What postcard documents: reading back what was written gives the value.
pub record ReadsBack (p : Postcard) : Type 0 where
  pub ctrl : (c : RelayCtrl) (b : Bytes) → p.ctrl_to_allocvec c ≡ ok b → p.ctrl_from_bytes b ≡ ok c
  pub payload :
      (d : RelayData) (b : Bytes) → p.data_to_allocvec d ≡ ok b → p.data_from_bytes b ≡ ok d

pub data CodecError : Type 0 where
  postcard : String → CodecError
  empty : CodecError
  unknown_discriminator : ℕ → CodecError

pub data RelayWire : Type 0 where
  ctrl : RelayCtrl → RelayWire
  payload : RelayData → RelayWire

module _ (p : Postcard) where
  unfoldable pub encode_relay_ctrl : RelayCtrl → Result CodecError Bytes
  encode_relay_ctrl c = do
    body ← map_err postcard (p.ctrl_to_allocvec c)
    ok (relay_disc_ctrl ∷ body)

  unfoldable pub encode_relay_data : RelayData → Result CodecError Bytes
  encode_relay_data d = do
    body ← map_err postcard (p.data_to_allocvec d)
    ok (relay_disc_data ∷ body)

  unfoldable pub decode_relay : Bytes → Result CodecError RelayWire
  decode_relay [] = err empty
  decode_relay (disc ∷ rest) =
      if disc == relay_disc_ctrl
      then (do c ← map_err postcard (p.ctrl_from_bytes rest); ok (ctrl c))
      else if disc == relay_disc_data
      then (do d ← map_err postcard (p.data_from_bytes rest); ok (payload d))
      else err (unknown_discriminator disc)
