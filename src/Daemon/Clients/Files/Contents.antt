-- ===== src/Daemon/Clients/Files/Contents.antt =====
-- crates/server/daemon-core/src/client_db.rs: what the files hold.
use cli_pocket.Prelude.{
  ℕ, ◌≡◌, refl, subst, ap, ◌∙◌, ◌||◌, Option, none, some, List, [], ◌∷◌, Result, ok, err, ◌==◌, leb,
  Bool-cases, inl, inr, arith,
}
use cli_pocket.Daemon.Clients.{
  ClientRecord, State, DbError, contains, with_added, add_all, from_files,
}
use cli_pocket.Daemon.Clients.Calls.{first_of}
use cli_pocket.Daemon.Clients.Files.{insert_by, sort_by, loaded, parsed}

contains-insert_by :
    (j x : ℕ) (xs : List ℕ) → contains j (insert_by leb x xs) ≡ ((x == j) || contains j xs)
unfolding insert_by contains
contains-insert_by j x [] = refl
contains-insert_by j x (y ∷ ys) = elim (Bool-cases (leb x y)) [
  | inl le ↦ rw le refl
  | inr gt ↦ rw gt (ground (arith, contains-insert_by j x ys))
]

pub contains-sort_by : (j : ℕ) (xs : List ℕ) → contains j (sort_by leb xs) ≡ contains j xs
unfolding sort_by contains
contains-sort_by j [] = refl
contains-sort_by j (x ∷ xs) =
    contains-insert_by j x (sort_by leb xs) ∙ ap (λ b. (x == j) || b) (contains-sort_by j xs)

pub with_added-revoked :
    (s : State) (r : ClientRecord) (t : State) → with_added s r ≡ ok t → t.revoked ≡ s.revoked
unfolding with_added
with_added-revoked s r t e = ground arith

add_all-revoked :
    (rs : List ClientRecord) (s t : State) → add_all rs s ≡ ok t → t.revoked ≡ s.revoked
unfolding add_all
add_all-revoked [] s t e = ground arith
add_all-revoked (r ∷ rs) s t e =
    let (next, added, others) = first_of rs s r t e in
    add_all-revoked rs next t others ∙ with_added-revoked s r next added

loaded-revoked :
    (r : Result DbError State) (file : List ℕ) (next : State)
    → ((t : State) → r ≡ ok t → t.revoked ≡ file)
    → loaded r ≡ some next
    → next.revoked ≡ file
loaded-revoked (ok t) file next h e =
    let same : t ≡ next = ground arith in subst {A = State} (λ q. q.revoked ≡ file) same (h t refl)
loaded-revoked (err x) file next h e = cc

pub parsed-revoked :
    (clients : Option (List ClientRecord)) (file : List ℕ) (next : State)
    → parsed clients (some file) ≡ some next
    → next.revoked ≡ file
unfolding from_files
parsed-revoked none file next e = cc
parsed-revoked (some clients) file next e =
    loaded-revoked (from_files clients file) file next
      (λ t there.
        add_all-revoked clients (record { by_id = []; by_public = []; revoked = file }) t there)
      e
