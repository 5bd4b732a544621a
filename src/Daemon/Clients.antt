-- ===== src/Daemon/Clients.antt =====
-- crates/server/daemon-core/src/client_db.rs: the clients that are paired, and those that are revoked. A
-- client id and a public key are numbers. `writes` tells whether writing the file succeeds; the text of
-- an error and the notice to the watchers are left out.
pub mod Consistent
pub mod Calls
pub mod Files
use cli_pocket.Prelude.{
  ℕ, Bool, true, false, ◌||◌, Option, none, some, List, [], ◌∷◌, Result, ok, err, ◌>>=◌, ◌>>◌, ◌==◌,
  if◌then◌else◌,
}
use cli_pocket.Prelude.Dict.{Dict, lookup, insert, contains_key}

pub record ClientRecord : Type 0 where
  pub client_id : ℕ
  pub public_key : ℕ
  pub paired_at : ℕ

pub record State : Type 0 where
  pub by_id : Dict ClientRecord
  pub by_public : Dict ℕ
  pub revoked : List ℕ

pub data DbError : Type 0 where
  duplicate_client_id duplicate_public_key io : DbError

-- `HashSet::contains`, `insert`.
unfoldable pub contains : ℕ → List ℕ → Bool
contains id [] = false
contains id (j ∷ js) = j == id || contains id js

unfoldable pub check_new_record : State → ClientRecord → Result DbError (Unit {0})
check_new_record s r =
    if contains_key r.client_id s.by_id
    then err duplicate_client_id
    else if contains_key r.public_key s.by_public
    then err duplicate_public_key
    else ok tt

abbrev pub inserted : State → ClientRecord → State
inserted s r = record s {
  by_public = insert r.public_key r.client_id s.by_public;
  by_id = insert r.client_id r s.by_id;
}

unfoldable pub with_added : State → ClientRecord → Result DbError State
with_added s r = do check_new_record s r; ok (inserted s r)

unfoldable pub with_revoked : State → ℕ → Option State
with_revoked s id =
    if contains id s.revoked then none else some (record s { revoked = id ∷ s.revoked })

-- The loop of `from_files` over the records of the file.
unfoldable pub add_all : List ClientRecord → State → Result DbError State
add_all [] s = ok s
add_all (r ∷ rs) s = with_added s r >>= add_all rs

unfoldable pub from_files : List ClientRecord → List ℕ → Result DbError State
from_files clients revoked =
    add_all clients (record { by_id = []; by_public = []; revoked = revoked })

abbrev pub record_of : Option ℕ → Dict ClientRecord → Option ClientRecord
record_of none by_id = none
record_of (some id) by_id = lookup id by_id

unfoldable pub lookup_by_public : State → ℕ → Option ClientRecord
lookup_by_public s key = record_of (lookup key s.by_public) s.by_id

unfoldable pub lookup_by_id : State → ℕ → Option ClientRecord
lookup_by_id s id = lookup id s.by_id

-- The file is written before the state is replaced.
abbrev pub write_through :
    {A : Type 0} → Bool → State → A → Result DbError State → Result DbError A × State
write_through writes s a (err e) = (err e, s)
write_through writes s a (ok next) = if writes then (ok a, next) else (err io, s)

unfoldable pub add : Bool → State → ClientRecord → Result DbError (Unit {0}) × State
add writes s r = write_through writes s tt (with_added s r)

abbrev pub added_unless :
    Option ClientRecord → Bool → State → ClientRecord → Result DbError ClientRecord × State
added_unless (some existing) writes s r = (ok existing, s)
added_unless none writes s r = write_through writes s r (with_added s r)

unfoldable pub add_or_lookup_by_public :
    Bool → State → ClientRecord → Result DbError ClientRecord × State
add_or_lookup_by_public writes s r = added_unless (lookup_by_public s r.public_key) writes s r

abbrev pub revoked_unless : Option State → Bool → State → Result DbError (Unit {0}) × State
revoked_unless none writes s = (ok tt, s)
revoked_unless (some next) writes s = if writes then (ok tt, next) else (err io, s)

unfoldable pub revoke : Bool → State → ℕ → Result DbError (Unit {0}) × State
revoke writes s id = revoked_unless (with_revoked s id) writes s

unfoldable pub is_revoked : State → ℕ → Bool
is_revoked s id = contains id s.revoked
