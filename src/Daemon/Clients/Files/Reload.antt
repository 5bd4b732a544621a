-- ===== src/Daemon/Clients/Files/Reload.antt =====
-- crates/server/daemon-core/src/client_db.rs: revocations through calls and reloads.
use cli_pocket.Prelude.{
  ℕ, ◌≡◌, refl, sym, subst, ap, ◌∙◌, Bool, true, false, Option, none, some, List, [], ◌∷◌, Result,
  ok, err, leb, arith,
}
use cli_pocket.Daemon.Clients.{
  ClientRecord, State, DbError, contains, with_added, with_revoked, lookup_by_public, is_revoked,
}
use cli_pocket.Daemon.Clients.Files.{
  ClientDb, sort_by, contents_of_revoked, added_to, found_or, revoked_in, add,
  add_or_lookup_by_public, revoke, parsed, begin_reload, end_reload, opened, open_db, OnDisk,
  ensured,
}
use cli_pocket.Daemon.Clients.Files.Contents.{contains-sort_by, with_added-revoked, parsed-revoked}

-- The file of revocations, which can be read, names the clients that are revoked.
abbrev pub IsInStep : ClientDb → Type 0
IsInStep db =
    (file : List ℕ) × (db.revoked_file ≡ some file)
    × ((j : ℕ) → contains j file ≡ contains j db.inner.revoked)

-- What is done with the database, one thing after the other.
pub data Event : Type 0 where
  adding looking_up : Bool → ClientRecord → Event
  revoking : Bool → ℕ → Event
  reloading : Bool → Event

abbrev pub finish_reload : Option State → ClientDb → ClientDb
finish_reload none db = db
finish_reload (some next) db = end_reload next db

abbrev pub happen : Event → ClientDb → ClientDb
happen (adding writes r) db = (add writes r db).1
happen (looking_up writes r) db = (add_or_lookup_by_public writes r db).1
happen (revoking writes id) db = (revoke writes id db).1
happen (reloading differs) db = finish_reload (begin_reload differs db) db

abbrev pub run : List Event → ClientDb → ClientDb
run [] db = db
run (event ∷ events) db = run events (happen event db)

-- In step, and with the revocations that there were.
abbrev Stays : ClientDb → ClientDb → Type 0
Stays db after =
    IsInStep after
    × ((j : ℕ) → contains j db.inner.revoked ≡ true → contains j after.inner.revoked ≡ true)

Stays-self : (db : ClientDb) → IsInStep db → Stays db db
Stays-self db h = (h, λ j r. r)

added_to-Stays :
    {A : Type 0} (writes : Bool) (a : A) (o : Result DbError State) (db : ClientDb)
    → IsInStep db
    → ((next : State) → o ≡ ok next → next.revoked ≡ db.inner.revoked)
    → Stays db (added_to writes a o db).1
added_to-Stays writes a (err e) db h k = Stays-self db h
added_to-Stays false a (ok next) db h k = Stays-self db h
added_to-Stays true a (ok next) db h k =
    let same = sym (k next refl) in
    (
      (h.0, h.1, λ j. h.2 j ∙ ap (contains j) same),
      λ j r. subst (λ xs. contains j xs ≡ true) same r,
    )

found_or-Stays :
    (o : Option ClientRecord) (writes : Bool) (r : ClientRecord) (db : ClientDb)
    → IsInStep db
    → Stays db (found_or o writes r db).1
found_or-Stays (some existing) writes r db h = Stays-self db h
found_or-Stays none writes r db h =
    added_to-Stays writes r (with_added db.inner r) db h
      (λ next e. with_added-revoked db.inner r next e)

revoked_in-Stays :
    (writes : Bool) (o : Option State) (db : ClientDb)
    → IsInStep db
    → ((next : State) (j : ℕ)
        → o ≡ some next
        → contains j db.inner.revoked ≡ true
        → contains j next.revoked ≡ true)
    → Stays db (revoked_in writes o db).1
unfolding contents_of_revoked
revoked_in-Stays writes none db h k = Stays-self db h
revoked_in-Stays false (some next) db h k = Stays-self db h
revoked_in-Stays true (some next) db h k =
    ((sort_by leb next.revoked, refl, λ j. contains-sort_by j next.revoked), λ j r. k next j refl r)

with_revoked-keeps :
    (s : State) (id : ℕ) (next : State) (j : ℕ)
    → with_revoked s id ≡ some next
    → contains j s.revoked ≡ true
    → contains j next.revoked ≡ true
unfolding with_revoked contains
with_revoked-keeps s id next j e r = ground arith

reload-Stays :
    (o : Option State) (db : ClientDb)
    → IsInStep db
    → ((next : State) (j : ℕ)
        → o ≡ some next
        → contains j next.revoked ≡ contains j db.inner.revoked)
    → Stays db (finish_reload o db)
unfolding end_reload
reload-Stays none db h k = Stays-self db h
reload-Stays (some next) db h k =
    ((h.0, h.1, λ j. h.2 j ∙ sym (k next j refl)), λ j r. k next j refl ∙ r)

begin_reload-revoked :
    (differs : Bool) (db : ClientDb) (next : State) (j : ℕ)
    → IsInStep db
    → begin_reload differs db ≡ some next
    → contains j next.revoked ≡ contains j db.inner.revoked
unfolding begin_reload
begin_reload-revoked false db next j h e = cc
begin_reload-revoked true db next j (file, there, same) e =
    ap (contains j)
      (parsed-revoked db.clients_file file next (ap (parsed db.clients_file) (sym there) ∙ e))
    ∙ same j

happen-Stays : (event : Event) (db : ClientDb) → IsInStep db → Stays db (happen event db)
unfolding add add_or_lookup_by_public revoke
happen-Stays (adding writes r) db h =
    added_to-Stays writes tt (with_added db.inner r) db h
      (λ next e. with_added-revoked db.inner r next e)
happen-Stays (looking_up writes r) db h =
    found_or-Stays (lookup_by_public db.inner r.public_key) writes r db h
happen-Stays (revoking writes id) db h =
    revoked_in-Stays writes (with_revoked db.inner id) db h
      (λ next j e r. with_revoked-keeps db.inner id next j e r)
happen-Stays (reloading differs) db h =
    reload-Stays (begin_reload differs db) db h
      (λ next j e. begin_reload-revoked differs db next j h e)

-- As long as only the database writes its files, and the task that reloads them is not interrupted by
-- a call between its reading and its replacing of the state: the file and the state name the same
-- revoked clients after any calls, failing ones included, and any reloads, and a client that was
-- revoked stays so.
pub revocations_kept :
    (events : List Event) (db : ClientDb)
    → IsInStep db
    → IsInStep (run events db)
      × ((j : ℕ) → is_revoked db.inner j ≡ true → is_revoked (run events db).inner j ≡ true)
unfolding is_revoked
revocations_kept [] db h = Stays-self db h
revocations_kept (event ∷ events) db h =
    let first = happen-Stays event db h in
    let (in_step, kept) = revocations_kept events (happen event db) (first.0) in
    (in_step, λ j r. kept j (first.1 j r))

opened-IsInStep :
    (o : Option State) (clients : Option (List ClientRecord)) (revoked : Option (List ℕ))
    (db : ClientDb)
    → parsed clients revoked ≡ o
    → opened o clients revoked ≡ some db
    → IsInStep db
opened-IsInStep none clients revoked db p e = cc
opened-IsInStep (some state) none revoked db p e = cc
opened-IsInStep (some state) (some clients) none db p e = cc
opened-IsInStep (some state) (some clients) (some file) db p e =
    let built : ClientDb = record {
      inner = state;
      clients_file = some clients;
      revoked_file = some file;
      noticed = [];
    } in
    let same : built ≡ db = ground arith in
    subst {A = ClientDb} IsInStep same
      (file, refl, λ j. ap (contains j) (sym (parsed-revoked (some clients) file state p)))

-- A database that opens has its file and its state in step.
pub open_db-IsInStep :
    (clients : OnDisk (List ClientRecord)) (revoked : OnDisk (List ℕ)) (db : ClientDb)
    → open_db clients revoked ≡ some db
    → IsInStep db
unfolding open_db
open_db-IsInStep clients revoked db e =
    opened-IsInStep (parsed (ensured [] clients) (ensured [] revoked)) (ensured [] clients)
      (ensured [] revoked) db refl e
