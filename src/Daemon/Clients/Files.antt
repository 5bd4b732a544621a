-- ===== src/Daemon/Clients/Files.antt =====
-- crates/server/daemon-core/src/client_db.rs: the two files of the client database, and the task that reloads
-- them (`spawn_reload_task`), whose turn has two halves: the calls of others may come between its reading of
-- the files and its taking of the lock.
--
-- A file is its contents, if it can be read and parsed. That a text differs from the one of the turn before
-- is a Boolean; `noticed` has the sets that were sent to the watchers.
pub mod Contents
pub mod Reload
pub mod Race
mod Tests
use cli_pocket.Prelude.{
  ℕ, Bool, true, false, not, ◌&&◌, ◌||◌, Option, none, some, List, [], ◌∷◌, ◌++◌, Result, ok, err,
  ◌==◌, ltb, leb, if◌then◌else◌,
}
use cli_pocket.Prelude.Dict.{Dict, lookup, values}
use cli_pocket.Daemon.Clients.{
  ClientRecord, State, DbError, io, contains, with_added, with_revoked, from_files,
  lookup_by_public,
}

pub record ClientDb : Type 0 where
  pub inner : State
  pub clients_file : Option (List ClientRecord)
  pub revoked_file : Option (List ℕ)
  pub noticed : List (List ℕ)

-- The order of the keys `(paired_at, client_id)`.
abbrev pub precedes : ClientRecord → ClientRecord → Bool
precedes r q =
    ltb r.paired_at q.paired_at || (r.paired_at == q.paired_at && leb r.client_id q.client_id)

-- Sorting, stable.
unfoldable pub insert_by : {A : Type 0} → (A → A → Bool) → A → List A → List A
insert_by le x [] = x ∷ []
insert_by le x (y ∷ ys) = let rest = insert_by le x ys in if le x y then x ∷ y ∷ ys else y ∷ rest

unfoldable pub sort_by : {A : Type 0} → (A → A → Bool) → List A → List A
sort_by le [] = []
sort_by le (x ∷ xs) = insert_by le x (sort_by le xs)

unfoldable pub list : State → List ClientRecord
list s = sort_by precedes (values s.by_id)

abbrev pub contents_of_clients : State → List ClientRecord
contents_of_clients s = sort_by precedes (values s.by_id)

unfoldable pub contents_of_revoked : State → List ℕ
contents_of_revoked s = sort_by leb s.revoked

abbrev pub added_to :
    {A : Type 0} → Bool → A → Result DbError State → ClientDb → Result DbError A × ClientDb
added_to writes a (err e) db = (err e, db)
added_to writes a (ok next) db =
    if writes
    then (ok a, record db { inner = next; clients_file = some (contents_of_clients next) })
    else (err io, db)

unfoldable pub add : Bool → ClientRecord → ClientDb → Result DbError (Unit {0}) × ClientDb
add writes r db = added_to writes tt (with_added db.inner r) db

abbrev pub found_or :
    Option ClientRecord → Bool → ClientRecord → ClientDb → Result DbError ClientRecord × ClientDb
found_or (some existing) writes r db = (ok existing, db)
found_or none writes r db = added_to writes r (with_added db.inner r) db

unfoldable pub add_or_lookup_by_public :
    Bool → ClientRecord → ClientDb → Result DbError ClientRecord × ClientDb
add_or_lookup_by_public writes r db = found_or (lookup_by_public db.inner r.public_key) writes r db

abbrev pub revoked_in : Bool → Option State → ClientDb → Result DbError (Unit {0}) × ClientDb
revoked_in writes none db = (ok tt, db)
revoked_in writes (some next) db =
    if writes
    then (
      ok tt,
      record db {
        inner = next;
        revoked_file = some (contents_of_revoked next);
        noticed = db.noticed ++ next.revoked ∷ [];
      },
    )
    else (err io, db)

unfoldable pub revoke : Bool → ℕ → ClientDb → Result DbError (Unit {0}) × ClientDb
revoke writes client_id db = revoked_in writes (with_revoked db.inner client_id) db

abbrev pub loaded : Result DbError State → Option State
loaded (ok next) = some next
loaded (err e) = none

abbrev pub parsed : Option (List ClientRecord) → Option (List ℕ) → Option State
parsed (some clients) (some revoked) = loaded (from_files clients revoked)
parsed _ _ = none

-- The first half: the state that is to replace the current one, if any.
unfoldable pub begin_reload : Bool → ClientDb → Option State
begin_reload differs db = if differs then parsed db.clients_file db.revoked_file else none

unfoldable pub includes : List ℕ → List ℕ → Bool
includes xs [] = true
includes xs (y ∷ ys) = contains y xs && includes xs ys

abbrev pub same_set : List ℕ → List ℕ → Bool
same_set xs ys = includes xs ys && includes ys xs

-- The second half.
unfoldable pub end_reload : State → ClientDb → ClientDb
end_reload next db = record db {
  inner = next;
  noticed =
      if same_set db.inner.revoked next.revoked
      then db.noticed
      else db.noticed ++ next.revoked ∷ [];
}

-- A file at the start.
pub data OnDisk (A : Type 0) : Type 0 where
  missing unreadable : OnDisk A
  holds : A → OnDisk A

-- `ensure_file`, and the reading.
abbrev pub ensured : {A : Type 0} → A → OnDisk A → Option A
ensured default_value missing = some default_value
ensured default_value unreadable = none
ensured default_value (holds contents) = some contents

abbrev pub opened : Option State → Option (List ClientRecord) → Option (List ℕ) → Option ClientDb
opened none clients revoked = none
opened (some state) clients revoked =
    some (record { inner = state; clients_file = clients; revoked_file = revoked; noticed = [] })

-- The database, or none where the source returns an error.
unfoldable pub open_db : OnDisk (List ClientRecord) → OnDisk (List ℕ) → Option ClientDb
open_db clients revoked =
    opened (parsed (ensured [] clients) (ensured [] revoked)) (ensured [] clients)
      (ensured [] revoked)
