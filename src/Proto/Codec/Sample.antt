-- ===== src/Proto/Codec/Sample.antt =====
-- A codec that stands in for postcard where a test runs code that uses it. `strict` refuses texts, and
-- `lossy` drops them.
use cli_pocket.Prelude.{
  ℕ, Bool, true, false, ◌≡◌, refl, String, [], ◌∷◌, ◌++◌, Result, ok, err, length, take, drop,
  take-append, drop-append_self, ◌==◌, if◌then◌else◌, arith,
}
use cli_pocket.Proto.Wire.{
  Bytes, PairCloseReason, normal, server_gone, client_gone, stuck, relay_shutdown, rejected,
  RelayCtrl, server_register, server_register_ok, server_register_err, server_heartbeat,
  client_connect, pair_inbound, pair_open, pair_close, RelayData, forward,
}
use cli_pocket.Proto.Codec.{Postcard, ReadsBack, encode_relay_ctrl, encode_relay_data}

abbrev reason_code : PairCloseReason → ℕ
reason_code normal = 0
reason_code server_gone = 1
reason_code client_gone = 2
reason_code stuck = 3
reason_code relay_shutdown = 4
reason_code (rejected t) = 5

abbrev reason_of : ℕ → PairCloseReason
reason_of n =
    if n == 0
    then normal
    else if n == 1
    then server_gone
    else if n == 2
    then client_gone
    else if n == 3
    then stuck
    else relay_shutdown

abbrev write_ctrl : RelayCtrl → Bytes
write_ctrl (server_register id key signature) = 0 ∷ id ∷ length key ∷ (key ++ signature)
write_ctrl server_register_ok = 1 ∷ []
write_ctrl (server_register_err t) = 2 ∷ []
write_ctrl server_heartbeat = 3 ∷ []
write_ctrl (client_connect id) = 4 ∷ id ∷ []
write_ctrl (pair_inbound p) = 5 ∷ p ∷ []
write_ctrl (pair_open p) = 6 ∷ p ∷ []
write_ctrl (pair_close p r) = 7 ∷ reason_code r ∷ p ∷ []

abbrev has_text : RelayCtrl → Bool
has_text (server_register_err t) = true
has_text (pair_close p (rejected t)) = true
has_text _ = false

abbrev write_strict : RelayCtrl → Result String Bytes
write_strict c = if has_text c then err "text" else ok (write_ctrl c)

abbrev read_ctrl : Bytes → Result String RelayCtrl
read_ctrl (t ∷ []) =
    if t == 1 then ok server_register_ok else if t == 3 then ok server_heartbeat else err "short"
read_ctrl (t ∷ x ∷ []) =
    if t == 4
    then ok (client_connect x)
    else if t == 5
    then ok (pair_inbound x)
    else if t == 6
    then ok (pair_open x)
    else err "tag"
read_ctrl (t ∷ x ∷ y ∷ rest) =
    if t == 0
    then ok (server_register x (take y rest) (drop y rest))
    else if t == 7
    then ok (pair_close y (reason_of x))
    else err "tag"
read_ctrl _ = err "empty"

abbrev write_data : RelayData → Bytes
write_data (forward p body) = p ∷ body

abbrev read_data : Bytes → Result String RelayData
read_data [] = err "empty"
read_data (p ∷ body) = ok (forward p body)

abbrev pub strict : Postcard
strict = record {
  ctrl_to_allocvec = write_strict;
  ctrl_from_bytes = read_ctrl;
  data_to_allocvec = λ d. ok (write_data d);
  data_from_bytes = read_data;
}

abbrev pub lossy : Postcard
lossy = record strict { ctrl_to_allocvec = λ c. ok (write_ctrl c) }

written : (c : RelayCtrl) → has_text c ≡ false → read_ctrl (write_ctrl c) ≡ ok c
written (server_register id [] signature) h = refl
written (server_register id (k ∷ key) signature) h =
    rw
      (
        take-append (length (k ∷ key)) (k ∷ key) signature refl,
        drop-append_self (length (k ∷ key)) (k ∷ key) signature refl,
      )
      refl
written server_register_ok h = refl
written (server_register_err t) h = cc
written server_heartbeat h = refl
written (client_connect id) h = refl
written (pair_inbound p) h = refl
written (pair_open p) h = refl
written (pair_close p normal) h = refl
written (pair_close p server_gone) h = refl
written (pair_close p client_gone) h = refl
written (pair_close p stuck) h = refl
written (pair_close p relay_shutdown) h = refl
written (pair_close p (rejected t)) h = cc

read_back : (c : RelayCtrl) (b : Bytes) → write_strict c ≡ ok b → read_ctrl b ≡ ok c
read_back c b h = ground (arith, written c)

read_data_back :
    (d : RelayData) (b : Bytes)
    → ◌≡◌ {A = Result String Bytes} (ok (write_data d)) (ok b)
    → read_data b ≡ ok d
read_data_back (forward p body) b h = ground arith

pub strict-ReadsBack : ReadsBack strict
strict-ReadsBack = record { ctrl = read_back; payload = read_data_back }

pub lossy_ctrl : (c : RelayCtrl) → (b : Bytes) × (encode_relay_ctrl lossy c ≡ ok b)
unfolding encode_relay_ctrl
lossy_ctrl c = (_, refl)

pub strict_data : (d : RelayData) → (b : Bytes) × (encode_relay_data strict d ≡ ok b)
unfolding encode_relay_data
strict_data d = (_, refl)

pub lossy_data : (d : RelayData) → (b : Bytes) × (encode_relay_data lossy d ≡ ok b)
unfolding encode_relay_data
lossy_data d = (_, refl)
