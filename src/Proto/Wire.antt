-- ===== src/Proto/Wire.antt =====
-- crates/shared/proto/src/relay.rs, and the identifiers of terminal.rs. A UUID is only compared, so
-- `PairId`, `ServerId` and the like are numbers; a byte string is the list of its bytes.
use cli_pocket.Prelude.{ℕ, List, String}

abbrev pub Bytes : Type 0
Bytes = List ℕ

abbrev pub PairId : Type 0
PairId = ℕ

abbrev pub ServerId : Type 0
ServerId = ℕ

pub data PairCloseReason : Type 0 where
  normal server_gone client_gone stuck relay_shutdown : PairCloseReason
  rejected : String → PairCloseReason

pub data RelayCtrl : Type 0 where
  server_register : ServerId → Bytes → Bytes → RelayCtrl
  server_register_ok : RelayCtrl
  server_register_err : String → RelayCtrl
  server_heartbeat : RelayCtrl
  client_connect : ServerId → RelayCtrl
  pair_inbound : PairId → RelayCtrl
  pair_open : PairId → RelayCtrl
  pair_close : PairId → PairCloseReason → RelayCtrl

pub data RelayData : Type 0 where
  forward : PairId → Bytes → RelayData

abbrev pub relay_disc_ctrl : ℕ
relay_disc_ctrl = 0x01

abbrev pub relay_disc_data : ℕ
relay_disc_data = 0x02
