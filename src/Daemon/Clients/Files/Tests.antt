-- ===== src/Daemon/Clients/Files/Tests.antt =====
-- crates/server/daemon-core/src/client_db.rs: the theorems of the files at concrete values.
use cli_pocket.Prelude.{ℕ, ◌≡◌, refl, true, false, List, [], ◌∷◌, some, ok}
use cli_pocket.Prelude.Dict.{lookup, insert}
use cli_pocket.Daemon.Clients.{
  ClientRecord, State, contains, check_new_record, with_added, add_all, from_files, is_revoked,
}
use cli_pocket.Daemon.Clients.Files.{ClientDb, holds, begin_reload, end_reload, revoke, open_db}
use cli_pocket.Daemon.Clients.Files.Reload.{
  IsInStep, Event, adding, revoking, reloading, run, revocations_kept, open_db-IsInStep,
}
use cli_pocket.Daemon.Clients.Files.Race.{revocation_lost}

abbrev alice : ClientRecord
alice = record { client_id = 1; public_key = 11; paired_at = 100 }

abbrev bob : ClientRecord
bob = record { client_id = 2; public_key = 22; paired_at = 90 }

abbrev state : State
state = record { by_id = (1, alice) ∷ []; by_public = (11, 1) ∷ []; revoked = 4 ∷ [] }

abbrev db : ClientDb
db = record {
  inner = state;
  clients_file = some (alice ∷ []);
  revoked_file = some (4 ∷ []);
  noticed = [];
}

db_opens : open_db (holds (alice ∷ [])) (holds (4 ∷ [])) ≡ some db
unfolding open_db from_files add_all with_added check_new_record insert lookup
db_opens = refl

db-IsInStep : IsInStep db
db-IsInStep = open_db-IsInStep (holds (alice ∷ [])) (holds (4 ∷ [])) db db_opens

abbrev happenings : List Event
happenings =
    adding true bob ∷ revoking false 2 ∷ reloading true ∷ revoking true 1 ∷ reloading true ∷ []

revocations_kept_example :
    IsInStep (run happenings db)
    × ((j : ℕ) → is_revoked db.inner j ≡ true → is_revoked (run happenings db).inner j ≡ true)
revocations_kept_example = revocations_kept happenings db db-IsInStep

read_back : begin_reload true db ≡ some state
unfolding begin_reload from_files add_all with_added check_new_record insert lookup
read_back = refl

not_alice : contains 1 state.revoked ≡ false
unfolding contains
not_alice = refl

not_bob : contains 2 state.revoked ≡ false
unfolding contains
not_bob = refl

revocation_lost_example :
    let first = revoke true 1 db in
    let second = revoke true 2 (end_reload state first.1) in
    (first.0 ≡ ok tt)
    × (is_revoked first.1.inner 1 ≡ true)
    × (second.0 ≡ ok tt)
    × (is_revoked second.1.inner 1 ≡ false)
    × ((file : List ℕ) × (second.1.revoked_file ≡ some file) × (contains 1 file ≡ false))
revocation_lost_example = revocation_lost db state 1 2 read_back not_alice not_bob refl
