-- ===== src/Daemon/Handshake/Admitted.antt =====
-- crates/server/daemon-core/src/handshake.rs: who is let in.
use cli_pocket.Prelude.{
  ℕ, ◌≡◌, refl, sym, subst, ap, ◌∙◌, Bool, true, false, Option, none, some, Result, ok, err, ◌⊎◌,
  inl, inr, arith,
}
use cli_pocket.Daemon.Errors.{DaemonResult}
use cli_pocket.Daemon.Clients.Calls.{key_of}
use cli_pocket.Daemon.Clients.{
  ClientRecord, State, DbError, lookup_by_public, is_revoked, with_added,
}
use cli_pocket.Daemon.Clients.Consistent.{IsConsistent}
use cli_pocket.Daemon.Clients.Files.{ClientDb, add_or_lookup_by_public, found_or, added_to}
use cli_pocket.Daemon.Handshake.{
  Noise, Messages, Surroundings, let_in, checked, added_then, found_then, admit, shake_hands,
  shaken, with_session, responder_handshake, without_key_xk,
}

let_in_lem :
    (b : Bool) (q r : ClientRecord) (db : ClientDb)
    → is_revoked db.inner q.client_id ≡ b
    → (let_in b q db).0 ≡ ok r
    → (q ≡ r) × (is_revoked (let_in b q db).1.inner r.client_id ≡ false)
let_in_lem true q r db h e = cc
let_in_lem false q r db h e =
    let same : q ≡ r = cc in
    (same, subst {A = ClientRecord} (λ y. is_revoked db.inner y.client_id ≡ false) same h)

checked_lem :
    (q r : ClientRecord) (db : ClientDb)
    → (checked q db).0 ≡ ok r
    → (q ≡ r) × (is_revoked (checked q db).1.inner r.client_id ≡ false)
checked_lem q r db e = let_in_lem (is_revoked db.inner q.client_id) q r db refl e

added_to-key :
    (o : Result DbError State) (writes : Bool) (r q : ClientRecord) (db : ClientDb)
    → (added_to writes r o db).0 ≡ ok q
    → r ≡ q
added_to-key (err x) writes r q db e = cc
added_to-key (ok next) true r q db e = cc
added_to-key (ok next) false r q db e = cc

found_or-key :
    (o : Option ClientRecord) (writes : Bool) (r q : ClientRecord) (db : ClientDb)
    → ((x : ClientRecord) → o ≡ some x → x.public_key ≡ r.public_key)
    → (found_or o writes r db).0 ≡ ok q
    → q.public_key ≡ r.public_key
found_or-key (some x) writes r q db h e =
    let same : x ≡ q = cc in
    subst {A = ClientRecord} (λ y. y.public_key ≡ r.public_key) same (h x refl)
found_or-key none writes r q db h e =
    sym (ap (λ y. y.public_key) (added_to-key (with_added db.inner r) writes r q db e))

added_then_lem :
    (around : Surroundings) (o : Result DbError ClientRecord) (r : ClientRecord) (key : ℕ)
    (db : ClientDb)
    → ((q : ClientRecord) → o ≡ ok q → q.public_key ≡ key)
    → (added_then around (o, db)).0 ≡ ok r
    → (r.public_key ≡ key) × (is_revoked (added_then around (o, db)).1.inner r.client_id ≡ false)
added_then_lem around (err x) r key db h e = cc
added_then_lem around (ok q) r key db h e =
    let (same, admitted) = checked_lem q r (around.before_check db) e in
    (subst {A = ClientRecord} (λ y. y.public_key ≡ key) same (h q refl), admitted)

found_then_lem :
    (around : Surroundings) (o : Option ClientRecord) (r : ClientRecord) (key : ℕ)
    (auto_pair : Bool) (db : ClientDb)
    → IsConsistent (around.before_add db).inner
    → ((q : ClientRecord) → o ≡ some q → q.public_key ≡ key)
    → (found_then around o key auto_pair db).0 ≡ ok r
    → (r.public_key ≡ key)
      × (is_revoked (found_then around o key auto_pair db).1.inner r.client_id ≡ false)
      × ((auto_pair ≡ true) ⊎ (o ≡ some r))
unfolding add_or_lookup_by_public
found_then_lem around (some q) r key auto_pair db h k e =
    let (same, admitted) = checked_lem q r (around.before_check db) e in
    (
      subst {A = ClientRecord} (λ y. y.public_key ≡ key) same (k q refl),
      admitted,
      inr (ap some same),
    )
found_then_lem around none r key false db h k e = cc
found_then_lem around none r key true db h k e =
    let before = around.before_add db in
    let new : ClientRecord = record {
      client_id = around.new_id;
      public_key = key;
      paired_at = around.now_unix_secs;
    } in
    let out = add_or_lookup_by_public around.writes new before in
    let (right, admitted) =
      added_then_lem around out.0 r key out.1
        (λ q there.
          found_or-key (lookup_by_public before.inner key) around.writes new q before
            (λ x found. key_of before.inner key x h found) there)
        e in
    (right, admitted, inl refl)

module _ {S T : Type 0} (noise : Noise S T) where
  session_lem :
      (session other : T) (r : ClientRecord) (out : DaemonResult ClientRecord × ClientDb)
      → (with_session noise session out).0 ≡ ok (other, r)
      → (out.0 ≡ ok r) × ((with_session noise session out).1 ≡ out.1)
  session_lem session other r (err x, db) e = cc
  session_lem session other r (ok q, db) e = (ground arith, refl)

  -- Whom a handshake lets in, with the key that the other side has shown: the record that is returned has
  -- that key, it is not revoked at the end, and either the record was there before or clients are
  -- paired without being asked. The database is consistent at first and where a client is added, whatever
  -- others do to it meanwhile.
  pub admitted_exact :
      (around : Surroundings) (x : Messages) (auto_pair : Bool) (db : ClientDb) (key : ℕ)
      (session other : T) (r : ClientRecord)
      → IsConsistent db.inner
      → IsConsistent (around.before_add db).inner
      → shake_hands noise without_key_xk x ≡ ok (key, session)
      → (responder_handshake noise around x auto_pair db).0 ≡ ok (other, r)
      → (r.public_key ≡ key)
        × (is_revoked (responder_handshake noise around x auto_pair db).1.inner r.client_id ≡ false)
        × ((auto_pair ≡ true) ⊎ (lookup_by_public db.inner key ≡ some r))
  unfolding responder_handshake admit
  admitted_exact around x auto_pair db key session other r h g shook e =
      let out = found_then around (lookup_by_public db.inner key) key auto_pair db in
      let run : responder_handshake noise around x auto_pair db ≡ with_session noise session out =
        ap (shaken noise around auto_pair db) shook in
      let (there, kept) = session_lem session other r out (ap (λ y. y.0) (sym run) ∙ e) in
      let (right, admitted, how) =
        found_then_lem around (lookup_by_public db.inner key) r key auto_pair db g
          (λ q found. key_of db.inner key q h found) there in
      (
        right,
        ap (λ y. is_revoked y.1.inner r.client_id) run
            ∙ ap (λ k. is_revoked k.inner r.client_id) kept
            ∙ admitted,
        how,
      )
