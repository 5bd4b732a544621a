-- ===== src/Relay/Errors.antt =====
-- crates/relay/relay-core/src/lib.rs: `RelayError` and `RelayResult`.
use cli_pocket.Prelude.{String, Result}

pub data RelayError : Type 0 where
  io config transport over_capacity protocol internal : String → RelayError

abbrev pub RelayResult : Type 0 → Type 0
RelayResult A = Result RelayError A
