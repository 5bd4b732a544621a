-- ===== src/Daemon/Clients/Files/Race.antt =====
-- crates/server/daemon-core/src/client_db.rs: a call of `revoke` while the files are reloaded.
use cli_pocket.Prelude.{
  ℕ, ◌≡◌, ap, ◌∙◌, true, false, none, some, List, [], ◌∷◌, ◌++◌, ok, ◌==◌, leb, if◌then◌else◌,
  arith,
}
use cli_pocket.Daemon.Clients.{State, contains, with_revoked, is_revoked}
use cli_pocket.Daemon.Clients.Files.{
  ClientDb, sort_by, contents_of_revoked, revoked_in, revoke, begin_reload, end_reload,
}
use cli_pocket.Daemon.Clients.Files.Contents.{contains-sort_by}

-- The database after a client is revoked that was not.
abbrev revoked_now : ℕ → ClientDb → ClientDb
revoked_now id db =
    let next : State = record db.inner { revoked = id ∷ db.inner.revoked } in
    record db {
      inner = next;
      revoked_file = some (contents_of_revoked next);
      noticed = db.noticed ++ next.revoked ∷ [];
    }

revoke-revoked_now :
    (id : ℕ) (db : ClientDb)
    → contains id db.inner.revoked ≡ false
    → revoke true id db ≡ (ok tt, revoked_now id db)
unfolding revoke with_revoked
revoke-revoked_now id db e =
    ap
      (λ c.
        revoked_in true
          (if c then none else some (record db.inner { revoked = id ∷ db.inner.revoked })) db)
      e

revoke-is_revoked_now :
    (id : ℕ) (db : ClientDb)
    → ((revoke true id db).0 ≡ ok tt) × (contains id (revoke true id db).1.inner.revoked ≡ true)
unfolding revoke with_revoked contains
revoke-is_revoked_now id db = ground arith

-- A call of `revoke` for a client `a` between the two halves of a reload succeeds and is undone by the
-- second half. When another client `b` is revoked next, before the next turn of the task, the revocation
-- of `a` is lost from the file too. (Neither client is revoked in the files that the reload has read.)
pub revocation_lost :
    (db : ClientDb) (next : State) (a b : ℕ)
    → begin_reload true db ≡ some next
    → contains a next.revoked ≡ false
    → contains b next.revoked ≡ false
    → (b == a) ≡ false
    → let first = revoke true a db in
      let second = revoke true b (end_reload next first.1) in
      (first.0 ≡ ok tt)
      × (is_revoked first.1.inner a ≡ true)
      × (second.0 ≡ ok tt)
      × (is_revoked second.1.inner a ≡ false)
      × ((file : List ℕ) × (second.1.revoked_file ≡ some file) × (contains a file ≡ false))
unfolding is_revoked contents_of_revoked end_reload contains
revocation_lost db next a b e not_a not_b ne =
    let first = revoke-is_revoked_now a db in
    let replaced = end_reload next (revoke true a db).1 in
    let second = revoke-revoked_now b replaced not_b in
    let gone : contains a (b ∷ next.revoked) ≡ false = ground arith in
    (
      first.0,
      first.1,
      ap (λ r. r.0) second,
      ap (λ r. contains a r.1.inner.revoked) second ∙ gone,
      (
        sort_by leb (b ∷ next.revoked),
        ap (λ r. r.1.revoked_file) second,
        contains-sort_by a (b ∷ next.revoked) ∙ gone,
      ),
    )
