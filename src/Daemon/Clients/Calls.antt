-- ===== src/Daemon/Clients/Calls.antt =====
-- crates/server/daemon-core/src/client_db.rs: what the calls of the database do to a consistent state.
use cli_pocket.Prelude.{
  ℕ, ◌≡◌, refl, Bool, true, false, Option, none, some, Option-cases, List, [], ◌∷◌, Result, ok, err,
  Result-cases, inl, inr, ◌==◌, ◌||◌, if◌then◌else◌, arith, subst,
}
use cli_pocket.Prelude.Dict.{lookup, lookup-insert}
use cli_pocket.Daemon.Clients.{
  ClientRecord, State, DbError, io, check_new_record, inserted, with_added, add_all, from_files,
  lookup_by_public, lookup_by_id, add_or_lookup_by_public, added_unless, write_through, revoke,
  is_revoked, with_revoked, contains,
}
use cli_pocket.Daemon.Clients.Consistent.{IsConsistent, new_record, inserted-IsConsistent}

-- What a record that passed the check brings.
pub record IsGrown (s : State) (r : ClientRecord) (t : State) : Type 0 where
  pub consistent : IsConsistent t
  pub by_its_id : lookup_by_id t r.client_id ≡ some r
  pub by_its_key : lookup_by_public t r.public_key ≡ some r
  pub kept : (id : ℕ) (q : ClientRecord) → lookup_by_id s id ≡ some q → lookup_by_id t id ≡ some q

checked :
    (s : State) (r : ClientRecord) (t : State)
    → with_added s r ≡ ok t
    → (check_new_record s r ≡ ok tt) × (inserted s r ≡ t)
unfolding with_added
checked s r t e = ground arith

lookup_by_public-inserted :
    (s : State) (r : ClientRecord) → lookup_by_public (inserted s r) r.public_key ≡ some r
unfolding lookup_by_public
lookup_by_public-inserted s r = ground (
  arith,
  lookup-insert r.public_key r.public_key r.client_id s.by_public,
  lookup-insert r.client_id r.client_id r s.by_id,
)

lookup_by_id-inserted :
    (s : State) (r : ClientRecord) → lookup_by_id (inserted s r) r.client_id ≡ some r
unfolding lookup_by_id
lookup_by_id-inserted s r = ground (arith, lookup-insert r.client_id r.client_id r s.by_id)

kept_after :
    (s : State) (r : ClientRecord)
    → lookup r.client_id s.by_id ≡ none
    → (id : ℕ) (q : ClientRecord) → lookup_by_id s id ≡ some q
    → lookup_by_id (inserted s r) id ≡ some q
unfolding lookup_by_id
kept_after s r new_id id q e = ground (arith, lookup-insert r.client_id id r s.by_id)

with_added-IsGrown :
    (s : State) (r : ClientRecord) (t : State)
    → IsConsistent s
    → with_added s r ≡ ok t
    → IsGrown s r t
with_added-IsGrown s r t h e =
    let (passed, same) = checked s r t e in
    let (new_id, new_key) = new_record s r passed in
    subst (λ t. IsGrown s r t) same
      (record {
        consistent = inserted-IsConsistent s r new_id new_key h;
        by_its_id = lookup_by_id-inserted s r;
        by_its_key = lookup_by_public-inserted s r;
        kept = kept_after s r new_id;
      })

-- What `add_or_lookup_by_public` leaves of the state `s` for the record `r`.
pub record IsAnswered (s : State) (r : ClientRecord) (out : Result DbError ClientRecord × State)
    : Type 0 where
  pub consistent : IsConsistent out.1
  pub found :
      (q : ClientRecord)
      → out.0 ≡ ok q
      → (q.public_key ≡ r.public_key) × (lookup_by_public out.1 r.public_key ≡ some q)
  pub kept :
      (id : ℕ) (q : ClientRecord) → lookup_by_id s id ≡ some q → lookup_by_id out.1 id ≡ some q
  pub failed : (e : DbError) → out.0 ≡ err e → out.1 ≡ s

pub key_of :
    (s : State) (key : ℕ) (q : ClientRecord)
    → IsConsistent s
    → lookup_by_public s key ≡ some q
    → q.public_key ≡ key
unfolding lookup_by_public
key_of s key q h e = elim (Option-cases (lookup key s.by_public)) [
  | inl none_there ↦ ground arith
  | inr (id, there) ↦ let old = h.forth key id there in ground (arith, old.1, old.2)
]

unchanged :
    (s : State) (r : ClientRecord) (e : DbError) → IsConsistent s → IsAnswered s r (err e, s)
unchanged s r e h = record {
  consistent = h;
  found = λ q same. cc;
  kept = λ id q there. there;
  failed = λ e same. refl;
}

write_through-IsAnswered :
    (writes : Bool) (s : State) (r : ClientRecord) (o : Result DbError State)
    → with_added s r ≡ o
    → IsConsistent s
    → IsAnswered s r (write_through writes s r o)
write_through-IsAnswered writes s r (err e) same h = unchanged s r e h
write_through-IsAnswered false s r (ok t) same h = unchanged s r io h
write_through-IsAnswered true s r (ok t) same h =
    let g = with_added-IsGrown s r t h same in
    record {
      consistent = g.consistent;
      found = λ q e. ground (arith, g.by_its_key);
      kept = g.kept;
      failed = λ e same. cc;
    }

added_unless-IsAnswered :
    (writes : Bool) (s : State) (r : ClientRecord) (o : Option ClientRecord)
    → lookup_by_public s r.public_key ≡ o
    → IsConsistent s
    → IsAnswered s r (added_unless o writes s r)
added_unless-IsAnswered writes s r none e h =
    write_through-IsAnswered writes s r (with_added s r) refl h
added_unless-IsAnswered writes s r (some old) e h = record {
  consistent = h;
  found = λ q same. ground (arith, key_of s r.public_key old h e, e);
  kept = λ id q there. there;
  failed = λ e same. cc;
}

-- Called on a consistent state, `add_or_lookup_by_public` leaves a consistent state. The record that it
-- answers has the key of the record given, and is found by that key afterwards; every client that was
-- found by an id is found by it still; and a call that fails changes nothing.
pub add_or_lookup_by_public-IsAnswered :
    (writes : Bool) (s : State) (r : ClientRecord)
    → IsConsistent s
    → IsAnswered s r (add_or_lookup_by_public writes s r)
unfolding add_or_lookup_by_public
add_or_lookup_by_public-IsAnswered writes s r h =
    added_unless-IsAnswered writes s r (lookup_by_public s r.public_key) refl h

-- Each record of the list is found under its id.
pub data AreFound (t : State) : List ClientRecord → Type 0 where
  nothing : AreFound t []
  one_more :
      {r : ClientRecord} {rs : List ClientRecord}
      → lookup_by_id t r.client_id ≡ some r
      → AreFound t rs
      → AreFound t (r ∷ rs)

-- After `revoke`, a client is revoked when it was, or when it is the one named and the file was written;
-- the call succeeds when the client named was revoked before or the file was written, and only then.
pub revoke-is_revoked :
    (writes : Bool) (s : State) (id j : ℕ)
    → (is_revoked (revoke writes s id).1 j
        ≡ (if writes then (id == j) || is_revoked s j else is_revoked s j))
      × ((revoke writes s id).0 ≡ (if writes || is_revoked s id then ok tt else err io))
unfolding revoke is_revoked with_revoked contains
revoke-is_revoked writes s id j = (ground arith, ground arith)

-- What loading records brings to a state.
pub record IsLoaded (s : State) (rs : List ClientRecord) (t : State) : Type 0 where
  pub consistent : IsConsistent t
  pub kept : (id : ℕ) (q : ClientRecord) → lookup_by_id s id ≡ some q → lookup_by_id t id ≡ some q
  pub loaded : AreFound t rs

pub first_of :
    (rs : List ClientRecord) (s : State) (r : ClientRecord) (t : State)
    → add_all (r ∷ rs) s ≡ ok t
    → (next : State) × (with_added s r ≡ ok next) × (add_all rs next ≡ ok t)
unfolding add_all
first_of rs s r t e = elim (Result-cases (with_added s r)) [
  | inl (next, there) ↦ (next, there, ground arith)
  | inr (x, failed) ↦ ground arith
]

add_all-IsLoaded :
    (rs : List ClientRecord) (s t : State) → IsConsistent s → add_all rs s ≡ ok t → IsLoaded s rs t
unfolding add_all
add_all-IsLoaded [] s t h e =
    subst (λ t. IsLoaded s [] t) (ground arith)
      (record { consistent = h; kept = λ id q there. there; loaded = nothing })
add_all-IsLoaded (r ∷ rs) s t h e =
    let (next, added, others) = first_of rs s r t e in
    let g = with_added-IsGrown s r next h added in
    let l = add_all-IsLoaded rs next t g.consistent others in
    record {
      consistent = l.consistent;
      kept = λ id q there. l.kept id q (g.kept id q there);
      loaded = one_more (l.kept r.client_id r g.by_its_id) l.loaded;
    }

empty-IsConsistent :
    (rv : List ℕ) → IsConsistent (record { by_id = []; by_public = []; revoked = rv })
unfolding lookup
empty-IsConsistent rv = record { owned = λ id q e. cc; back = λ id q e. cc; forth = λ key id e. cc }

pub from_files-IsConsistent :
    (rs : List ClientRecord) (rv : List ℕ) (t : State)
    → from_files rs rv ≡ ok t
    → (IsConsistent t) × (AreFound t rs)
unfolding from_files
from_files-IsConsistent rs rv t e =
    let l =
      add_all-IsLoaded rs (record { by_id = []; by_public = []; revoked = rv }) t
        (empty-IsConsistent rv) e in
    (l.consistent, l.loaded)
