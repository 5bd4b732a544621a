-- ===== src/Relay/Caps/Contention.antt =====
-- crates/relay/relay-core/src/caps.rs: the compare-and-swap loops under interference.
use cli_pocket.Prelude.{
  ℕ, suc, ◌≡◌, ◌≢◌, refl, List, [], ◌∷◌, ◌++◌, some, ok, err, get_elem?, Bool-cases, Result-cases,
  inl, inr, ◌==◌, arith,
}
use cli_pocket.Relay.Errors.{RelayResult}
use cli_pocket.Relay.Caps.{Outcome, retrying, refused, stored, cas_loop}

-- `v` stands somewhere in the list.
abbrev pub Seen : ℕ → List ℕ → Type 0
Seen v vs = (i : ℕ) × (get_elem? vs i ≡ some v)

-- An outcome is explained by one value that the counter had: the loop acted as if it ran alone then.
abbrev pub IsExplained : (ℕ → RelayResult ℕ) → List ℕ → Outcome → Type 0
IsExplained next vs retrying = Unit
IsExplained next vs (refused e) = (v : ℕ) × Seen v vs × (next v ≡ err e)
IsExplained next vs (stored found n) = Seen found vs × (next found ≡ ok n)

abbrev Seen-cons : {v : ℕ} (w : ℕ) (vs : List ℕ) → Seen v vs → Seen v (w ∷ vs)
Seen-cons w vs (i, e) = (suc i, e)

IsExplained-cons :
    (next : ℕ → RelayResult ℕ) (w : ℕ) (vs : List ℕ) (o : Outcome)
    → IsExplained next vs o
    → IsExplained next (w ∷ vs) o
IsExplained-cons next w vs retrying h = tt
IsExplained-cons next w vs (refused e) (v, s, h) = (v, Seen-cons w vs s, h)
IsExplained-cons next w vs (stored found n) (s, h) = (Seen-cons w vs s, h)

-- Whatever the other threads store between the turns, the loop refuses only for a value that the
-- counter had, and stores over a value that it found there what `next` gives for that value.
pub cas_loop-IsExplained :
    (next : ℕ → RelayResult ℕ) (current : ℕ) (seen : List ℕ)
    → IsExplained next (current ∷ seen) (cas_loop next current seen)
unfolding cas_loop
cas_loop-IsExplained next current [] = elim (Result-cases (next current)) [
  | inl (n, e) ↦ rw (e, cas_loop) tt
  | inr (x, e) ↦ rw (e, cas_loop) (current, (0, refl), e)
]
cas_loop-IsExplained next current (v ∷ rest) = elim (Result-cases (next current)) [
  | inr (x, e) ↦ rw (e, cas_loop) (current, (0, refl), e)
  | inl (n, e) ↦ elim (Bool-cases (v == current)) [
    | inl hit ↦ rw (e, cas_loop) (rw hit ((0, refl), e))
    | inr miss ↦
        rw (e, cas_loop)
          (rw miss (IsExplained-cons next current (v ∷ rest) _ (cas_loop-IsExplained next v rest)))
  ]
]

-- The loop ends as soon as the counter holds still over two turns, whatever came before.
pub cas_loop_settles :
    (next : ℕ → RelayResult ℕ) (current : ℕ) (before : List ℕ) (v : ℕ) (rest : List ℕ)
    → cas_loop next current (before ++ v ∷ v ∷ rest) ≢ retrying
unfolding cas_loop
cas_loop_settles next current [] v rest = ground (arith, Result-cases (next v))
cas_loop_settles next current (w ∷ before) v rest =
    ground (arith, cas_loop_settles next w before v rest)
