-- ===== src/Daemon/Sessions/Limit.antt =====
-- crates/server/daemon-core/src/session.rs: how many terminals there can be.
use cli_pocket.Prelude.{
  ℕ, zero, suc, ◌+◌, ◌≤◌, ◌<◌, ◌≡◌, refl, ap, ◌∙◌, none, List, [], ◌∷◌, ◌++◌, ok, err, arith,
}
use cli_pocket.Prelude.Dict.{lookup, length-insert, lookup-insert}
use cli_pocket.Proto.Frames.{TerminalId}
use cli_pocket.Daemon.Errors.{DaemonResult}
use cli_pocket.Daemon.Sessions.{Terminal, SessionManager, new, count, check_room, register, create}

-- Calls of `create` at the same time: `check` is the first half of one, `finish` the second half of one
-- that found room. The number is that of the calls between their halves.
pub data Turn : Type 0 where
  check : Turn
  finish : TerminalId → Turn

abbrev pub checked : DaemonResult (Unit {0}) → ℕ → ℕ
checked (err e) n = n
checked (ok _) n = suc n

abbrev pub checks : ℕ → List Turn
checks zero = []
checks (suc k) = check ∷ checks k

abbrev pub finishes : ℕ → List Turn
finishes zero = []
finishes (suc k) = finish k ∷ finishes k

module _ {P : Type 0} where
  abbrev pub IsWithin : SessionManager P → Type 0
  IsWithin m = count m ≤ m.max_terminals

  create-IsWithin :
      (spawn : DaemonResult (TerminalId × Terminal P)) (now : ℕ) (m : SessionManager P)
      → IsWithin m
      → IsWithin (create spawn now m).1
  unfolding create count check_room register
  create-IsWithin (err e) now m h = ground arith
  create-IsWithin (ok (id, t)) now m h = ground (arith, length-insert id now m.registered)

  unfoldable pub take_turn : Terminal P → Turn → SessionManager P × ℕ → SessionManager P × ℕ
  take_turn t check (m, n) = (m, checked (check_room m) n)
  take_turn t (finish id) (m, zero) = (m, zero)
  take_turn t (finish id) (m, suc n) = (register id t 0 m, n)

  abbrev pub take_turns : Terminal P → List Turn → SessionManager P × ℕ → SessionManager P × ℕ
  take_turns t [] s = s
  take_turns t (turn ∷ turns) s = take_turns t turns (take_turn t turn s)

  take_turns-checks :
      (t : Terminal P) (k n : ℕ) (m : SessionManager P)
      → count m < m.max_terminals
      → take_turns t (checks k) (m, n) ≡ (m, k + n)
  unfolding take_turn check_room count
  take_turns-checks t zero n m h = ground arith
  take_turns-checks t (suc k) n m h = ground (arith, take_turns-checks t k (suc n) m h)

  -- The numbers below `k` are not registered.
  abbrev IsFree : ℕ → SessionManager P → Type 0
  IsFree k m = (j : ℕ) → j < k → lookup j m.registered ≡ none

  register-IsFree :
      (t : Terminal P) (k : ℕ) (m : SessionManager P)
      → IsFree (suc k) m
      → IsFree k (register k t 0 m)
  unfolding register
  register-IsFree t k m h j low = ground (arith, h j, lookup-insert k j 0 m.registered)

  count-register :
      (t : Terminal P) (k : ℕ) (m : SessionManager P)
      → lookup k m.registered ≡ none
      → count (register k t 0 m) ≡ suc (count m)
  unfolding register count
  count-register t k m h = ground (arith, length-insert k 0 m.registered)

  count-finishes :
      (t : Terminal P) (k : ℕ) (m : SessionManager P)
      → IsFree k m
      → count (take_turns t (finishes k) (m, k)).0 ≡ k + count m
  unfolding take_turn
  count-finishes t zero m h = omega arith
  count-finishes t (suc k) m h = omega (
    arith,
    count-finishes t k (register k t 0 m) (register-IsFree t k m h),
    count-register t k m (h k (omega arith)),
  )

  take_turns-append :
      (t : Terminal P) (xs ys : List Turn) (s : SessionManager P × ℕ)
      → take_turns t (xs ++ ys) s ≡ take_turns t ys (take_turns t xs s)
  take_turns-append t [] ys s = refl
  take_turns-append t (x ∷ xs) ys s = take_turns-append t xs ys (take_turn t x s)

  limit_passed :
      (t : Terminal P) (max_terminals k : ℕ)
      → 0 < max_terminals
      → count (take_turns t (checks k ++ finishes k) (new max_terminals, 0)).0 ≡ k
  unfolding count lookup
  limit_passed t max_terminals k h =
      ap (λ (s : SessionManager P × ℕ). count s.0)
        (take_turns-append t (checks k) (finishes k) (new max_terminals, 0))
      ∙ ap (λ (s : SessionManager P × ℕ). count (take_turns t (finishes k) s).0)
          (take_turns-checks t k 0 (new max_terminals) h
            ∙ ap (λ n. (new max_terminals, n)) (omega arith))
      ∙ count-finishes t k (new max_terminals) (λ j low. refl)
      ∙ omega arith

  -- A call of `create` that runs on its own keeps to the limit; but of any number of calls that all check
  -- for room before the first of them registers its terminal, all succeed, whatever the limit above 0.
  pub create_limit :
      (spawn : DaemonResult (TerminalId × Terminal P)) (now : ℕ) (m : SessionManager P)
      (t : Terminal P) (max_terminals k : ℕ)
      → IsWithin m
      → 0 < max_terminals
      → IsWithin (create spawn now m).1
        × (count (take_turns t (checks k ++ finishes k) (new max_terminals, 0)).0 ≡ k)
  create_limit spawn now m t max_terminals k h some_room =
      (create-IsWithin spawn now m h, limit_passed t max_terminals k some_room)
