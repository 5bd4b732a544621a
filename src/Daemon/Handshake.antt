-- ===== src/Daemon/Handshake.antt =====
-- crates/server/daemon-core/src/handshake.rs: whom a daemon lets in. The handshakes of crates/shared/crypto,
-- which are those of the crate snow, are the parameter `Noise`. The two functions differ in it and in the text
-- of one error. A key is a number, and what others do to the database meanwhile is a function.
pub mod Admitted
mod Tests
use cli_pocket.Prelude.{
  ℕ, Bool, true, false, Option, none, some, String, Result, ok, err, ◌>>=◌, if◌then◌else◌,
}
use cli_pocket.Proto.Wire.{Bytes}
use cli_pocket.Daemon.Errors.{
  DaemonError, DaemonResult, crypto, transport, internal, client_db, not_paired, revoked,
}
use cli_pocket.Daemon.Clients.{ClientRecord, DbError, lookup_by_public, is_revoked}
use cli_pocket.Daemon.Clients.Files.{ClientDb, add_or_lookup_by_public}

-- `S` is a responder, `T` an established session.
pub record Noise (S T : Type 0) : Type 0 where
  pub new : Result String S
  pub read_handshake : S → Bytes → Result String S
  pub write_handshake : S → Result String (Bytes × S)
  pub remote_static_public : S → Option ℕ
  pub finish : S → Result String T

-- The transport: what the two receives give, and the error of the send, if any.
pub record Messages : Type 0 where
  pub msg1 : Result String (Option Bytes)
  pub send_failure : Option String
  pub msg3 : Result String (Option Bytes)

-- What the surroundings give when a client is looked up and added.
pub record Surroundings : Type 0 where
  pub new_id : ℕ
  pub now_unix_secs : ℕ
  pub writes : Bool
  pub before_add : ClientDb → ClientDb
  pub before_check : ClientDb → ClientDb

abbrev pub let_in : Bool → ClientRecord → ClientDb → DaemonResult ClientRecord × ClientDb
let_in true r db = (err (revoked "client"), db)
let_in false r db = (ok r, db)

abbrev pub checked : ClientRecord → ClientDb → DaemonResult ClientRecord × ClientDb
checked r db = let_in (is_revoked db.inner r.client_id) r db

abbrev pub added_then :
    Surroundings → Result DbError ClientRecord × ClientDb → DaemonResult ClientRecord × ClientDb
added_then around (err e, db) = (err (client_db "add"), db)
added_then around (ok r, db) = checked r (around.before_check db)

abbrev pub found_then :
    Surroundings → Option ClientRecord → ℕ → Bool → ClientDb → DaemonResult ClientRecord × ClientDb
found_then around (some r) key auto_pair db = checked r (around.before_check db)
found_then around none key auto_pair db =
    if auto_pair
    then added_then around (
        add_or_lookup_by_public around.writes
          (record { client_id = around.new_id; public_key = key; paired_at = around.now_unix_secs })
          (around.before_add db))
    else (err (not_paired "client"), db)

-- The steps 7 and 8.
unfoldable pub admit : Surroundings → ℕ → Bool → ClientDb → DaemonResult ClientRecord × ClientDb
admit around key auto_pair db = found_then around (lookup_by_public db.inner key) key auto_pair db

abbrev pub without_key_xk : String
without_key_xk = "XK handshake finished without remote static key"

abbrev pub without_key_xx : String
without_key_xx = "XX handshake finished without remote static key"

module _ {S T : Type 0} (noise : Noise S T) where
  abbrev pub or_crypto : {A : Type 0} → Result String A → DaemonResult A
  or_crypto (ok a) = ok a
  or_crypto (err e) = err (crypto e)

  abbrev pub read_from : Result String (Option Bytes) → String → S → DaemonResult S
  read_from (err e) closed s = err (transport e)
  read_from (ok none) closed s = err (internal closed)
  read_from (ok (some msg)) closed s = or_crypto (noise.read_handshake s msg)

  abbrev pub written : Option String → Result String (Bytes × S) → DaemonResult S
  written failure (err e) = err (crypto e)
  written none (ok (msg, s)) = ok s
  written (some e) (ok (msg, s)) = err (transport e)

  abbrev pub key_of : String → Option ℕ → DaemonResult ℕ
  key_of keyless none = err (internal keyless)
  key_of keyless (some key) = ok key

  -- The steps 1 to 6: the key of the client, and the session. `keyless` is the text when there is no key.
  unfoldable pub shake_hands : String → Messages → DaemonResult (ℕ × T)
  shake_hands keyless x = do
    started ← or_crypto noise.new
    first ← read_from x.msg1 "transport closed during handshake msg1" started
    second ← written x.send_failure (noise.write_handshake first)
    third ← read_from x.msg3 "transport closed during handshake msg3" second
    key ← key_of keyless (noise.remote_static_public third)
    session ← or_crypto (noise.finish third)
    ok (key, session)

  abbrev pub with_session :
      T → DaemonResult ClientRecord × ClientDb → DaemonResult (T × ClientRecord) × ClientDb
  with_session session (err e, db) = (err e, db)
  with_session session (ok r, db) = (ok (session, r), db)

  abbrev pub shaken :
      Surroundings
      → Bool
      → ClientDb
      → DaemonResult (ℕ × T)
      → DaemonResult (T × ClientRecord) × ClientDb
  shaken around auto_pair db (err e) = (err e, db)
  shaken around auto_pair db (ok (key, session)) =
      with_session session (admit around key auto_pair db)

  unfoldable pub responder_handshake :
      Surroundings → Messages → Bool → ClientDb → DaemonResult (T × ClientRecord) × ClientDb
  responder_handshake around x auto_pair db =
      shaken around auto_pair db (shake_hands without_key_xk x)

  unfoldable pub anonymous_responder_handshake :
      Surroundings → Messages → Bool → ClientDb → DaemonResult (T × ClientRecord) × ClientDb
  anonymous_responder_handshake around x auto_pair db =
      shaken around auto_pair db (shake_hands without_key_xx x)
