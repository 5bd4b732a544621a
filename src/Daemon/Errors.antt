-- ===== src/Daemon/Errors.antt =====
-- crates/server/daemon-core/src/lib.rs: the errors of the daemon. The errors of other crates that they
-- wrap are their texts.
use cli_pocket.Prelude.{String, Result}

pub data DaemonError : Type 0 where
  io config identity client_db crypto transport proto pty revoked not_paired internal :
      String → DaemonError

abbrev pub DaemonResult : Type 0 → Type 0
DaemonResult A = Result DaemonError A
