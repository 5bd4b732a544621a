-- ===== src/Daemon/Handshake/Tests.antt =====
-- crates/server/daemon-core/src/handshake.rs: the theorems of the handshake at concrete values.
use cli_pocket.Prelude.{ℕ, suc, ◌≡◌, refl, true, false, [], ◌∷◌, some, none, ok, err, ◌⊎◌}
use cli_pocket.Prelude.Dict.{lookup, insert}
use cli_pocket.Daemon.Errors.{internal}
use cli_pocket.Daemon.Clients.{
  ClientRecord, State, contains, check_new_record, with_added, add_all, from_files, is_revoked,
  lookup_by_public,
}
use cli_pocket.Daemon.Clients.Consistent.{IsConsistent}
use cli_pocket.Daemon.Clients.Calls.{from_files-IsConsistent}
use cli_pocket.Daemon.Clients.Files.{ClientDb, add_or_lookup_by_public}
use cli_pocket.Daemon.Handshake.{
  Noise, Messages, Surroundings, admit, shake_hands, responder_handshake, without_key_xk,
  anonymous_responder_handshake,
}
use cli_pocket.Daemon.Handshake.Admitted.{admitted_exact}

-- A stand-in for the handshake: the responder is the number of messages that it read.
abbrev noise : Noise ℕ (Unit {0})
noise = record {
  new = ok 0;
  read_handshake = λ s msg. ok (suc s);
  write_handshake = λ s. ok ([], s);
  remote_static_public = λ s. some 33;
  finish = λ s. ok tt;
}

abbrev messages : Messages
messages = record { msg1 = ok (some (1 ∷ [])); send_failure = none; msg3 = ok (some (2 ∷ [])) }

abbrev alice : ClientRecord
alice = record { client_id = 1; public_key = 11; paired_at = 100 }

abbrev newcomer : ClientRecord
newcomer = record { client_id = 5; public_key = 33; paired_at = 200 }

abbrev state : State
state = record { by_id = (1, alice) ∷ []; by_public = (11, 1) ∷ []; revoked = 1 ∷ [] }

abbrev db : ClientDb
db = record {
  inner = state;
  clients_file = some (alice ∷ []);
  revoked_file = some (1 ∷ []);
  noticed = [];
}

abbrev around : Surroundings
around = record {
  new_id = 5;
  now_unix_secs = 200;
  writes = true;
  before_add = λ d. d;
  before_check = λ d. d;
}

loads : from_files (alice ∷ []) (1 ∷ []) ≡ ok state
unfolding from_files add_all with_added check_new_record insert lookup
loads = refl

state-IsConsistent : IsConsistent state
state-IsConsistent = (from_files-IsConsistent (alice ∷ []) (1 ∷ []) state loads).0

shook : shake_hands noise without_key_xk messages ≡ ok (33, tt)
unfolding shake_hands
shook = refl

-- The other handshake has its own text where the key is missing.
no_key :
    anonymous_responder_handshake
      (record noise { remote_static_public = λ s. none })
      around
      messages
      true
      db
    ≡ (err (internal "XX handshake finished without remote static key"), db)
unfolding anonymous_responder_handshake shake_hands
no_key = refl

newcomer_comes : (responder_handshake noise around messages true db).0 ≡ ok (tt, newcomer)
unfolding responder_handshake shake_hands admit lookup_by_public lookup add_or_lookup_by_public
    with_added check_new_record is_revoked contains insert
newcomer_comes = refl

admitted_exact_example :
    (newcomer.public_key ≡ 33)
    × (is_revoked (responder_handshake noise around messages true db).1.inner newcomer.client_id
        ≡ false)
    × ((true ≡ true) ⊎ (lookup_by_public db.inner 33 ≡ some newcomer))
admitted_exact_example =
    admitted_exact noise around messages true db 33 tt tt newcomer state-IsConsistent
      state-IsConsistent shook newcomer_comes
