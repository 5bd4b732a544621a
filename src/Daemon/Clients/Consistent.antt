-- ===== src/Daemon/Clients/Consistent.antt =====
-- crates/server/daemon-core/src/client_db.rs: the two maps name each other's entries.
use cli_pocket.Prelude.{
  ℕ, ◌≡◌, refl, true, false, Option, none, some, ok, Bool-cases, inl, inr, ◌==◌, arith,
}
use cli_pocket.Prelude.Dict.{lookup, lookup-insert}
use cli_pocket.Daemon.Clients.{ClientRecord, State, check_new_record, inserted}

-- The entry of an id has that id, and its key leads back to the id; the entry of a key leads to a record
-- with that key.
pub record IsConsistent (s : State) : Type 0 where
  pub owned : (id : ℕ) (r : ClientRecord) → lookup id s.by_id ≡ some r → r.client_id ≡ id
  pub back :
      (id : ℕ) (r : ClientRecord)
      → lookup id s.by_id ≡ some r
      → lookup r.public_key s.by_public ≡ some id
  pub forth :
      (key id : ℕ)
      → lookup key s.by_public ≡ some id
      → (r : ClientRecord) × (lookup id s.by_id ≡ some r) × (r.public_key ≡ key)

absent :
    {V : Type 0} (k : ℕ) (o : Option V)
    → (elim o [ none ↦ false | some v ↦ true ]) ≡ false
    → o ≡ none
absent k none h = refl
absent k (some v) h = cc

pub new_record :
    (s : State) (r : ClientRecord)
    → check_new_record s r ≡ ok tt
    → (lookup r.client_id s.by_id ≡ none) × (lookup r.public_key s.by_public ≡ none)
unfolding check_new_record
new_record s r h = ground arith

module _ (s : State) (r : ClientRecord) (new_id : lookup r.client_id s.by_id ≡ none)
    (new_key : lookup r.public_key s.by_public ≡ none) (h : IsConsistent s) where
  owned_after :
      (id : ℕ) (q : ClientRecord) → lookup id (inserted s r).by_id ≡ some q → q.client_id ≡ id
  owned_after id q e = ground (arith, lookup-insert r.client_id id r s.by_id, h.owned id q)

  back_after :
      (id : ℕ) (q : ClientRecord)
      → lookup id (inserted s r).by_id ≡ some q
      → lookup q.public_key (inserted s r).by_public ≡ some id
  back_after id q e = ground (
    arith,
    lookup-insert r.client_id id r s.by_id,
    lookup-insert r.public_key q.public_key r.client_id s.by_public,
    h.back id q,
  )

  forth_after :
      (key id : ℕ)
      → lookup key (inserted s r).by_public ≡ some id
      → (q : ClientRecord) × (lookup id (inserted s r).by_id ≡ some q) × (q.public_key ≡ key)
  forth_after key id e = elim (Bool-cases (r.public_key == key)) [
    | inl same ↦ (
      r,
      ground (
        arith,
        lookup-insert r.public_key key r.client_id s.by_public,
        lookup-insert r.client_id id r s.by_id,
      ),
      ground arith,
    )
    | inr other ↦
        let old =
          h.forth key id (ground (arith, lookup-insert r.public_key key r.client_id s.by_public)) in
        (old.0, ground (arith, lookup-insert r.client_id id r s.by_id, old.1), old.2)
  ]

  pub inserted-IsConsistent : IsConsistent (inserted s r)
  inserted-IsConsistent = record { owned = owned_after; back = back_after; forth = forth_after }
