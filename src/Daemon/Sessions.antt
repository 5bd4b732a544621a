-- ===== src/Daemon/Sessions.antt =====
-- crates/server/daemon-core/src/session.rs: the terminals of the daemon, with the part of
-- crates/server/pty/src/terminal.rs that the daemon calls. A terminal is shared by its number: it stays in
-- `terminals` when it is no longer registered, for those that hold it. The program behind it is outside;
-- `typed` is what was written to it: the pseudo terminal takes all of it.
pub mod Limit
use cli_pocket.Prelude.{
  ℕ, zero, suc, ◌+◌, ◌≡◌, Bool, true, false, String, Option, none, some, List, [], ◌∷◌, ◌++◌,
  Result, ok, err, ◌>>=◌, map_err, leb, ltb, ◌==◌, if◌then◌else◌, length,
}
use cli_pocket.Prelude.Dict.{Dict, lookup, insert, remove}
use cli_pocket.Proto.Wire.{Bytes}
use cli_pocket.Proto.Frames.{TerminalId, TerminalInfo}
use cli_pocket.Pty.Ring.{ScrollbackRing, set_dims}
use cli_pocket.Daemon.Errors.{DaemonError, DaemonResult, internal}

pub record Terminal (P : Type 0) : Type 0 where
  pub ring : ScrollbackRing P
  pub title : Option String
  pub exited : Bool
  pub typed : Bytes

-- `Inner`: `registered` has the time of creation.
pub record SessionManager (P : Type 0) : Type 0 where
  pub registered : Dict ℕ
  pub terminals : Dict (Terminal P)
  pub max_terminals : ℕ

abbrev at_least_one : ℕ → ℕ
at_least_one n = if ltb n 1 then 1 else n

module _ {P : Type 0} where
  unfoldable pub write_input : Bytes → Terminal P → Terminal P
  write_input bytes t = if t.exited then t else record t { typed = t.typed ++ bytes }

  -- `resized` tells whether the system resizes the pseudo terminal.
  unfoldable pub resize : Bool → ℕ → ℕ → Terminal P → Terminal P
  resize resized cols rows t =
      if t.exited
      then t
      else if resized
      then record t { ring = set_dims (at_least_one cols) (at_least_one rows) t.ring }
      else t

  abbrev pub new : ℕ → SessionManager P
  new max_terminals = record { registered = []; terminals = []; max_terminals = max_terminals }

  unfoldable pub count : SessionManager P → ℕ
  count m = length m.registered

  -- The two halves of `create`, each under the lock; the terminal is spawned between them.
  unfoldable pub check_room : SessionManager P → DaemonResult (Unit {0})
  check_room m =
      if leb m.max_terminals (length m.registered)
      then err (internal "terminal limit reached")
      else ok tt

  unfoldable pub register : TerminalId → Terminal P → ℕ → SessionManager P → SessionManager P
  register id t now m = record m {
    registered = insert id now m.registered;
    terminals = insert id t m.terminals;
  }

  abbrev pub info_of : TerminalId → Terminal P → ℕ → TerminalInfo
  info_of id t created_at = record {
    terminal = id;
    cols = t.ring.cols;
    rows = t.ring.rows;
    created_at_unix_ms = created_at;
    label = t.title;
    attached_clients = 0;
  }

  abbrev pub spawned :
      DaemonResult (TerminalId × Terminal P)
      → ℕ
      → SessionManager P
      → DaemonResult TerminalInfo × SessionManager P
  spawned (err e) now m = (err e, m)
  spawned (ok (id, t)) now m = (ok (info_of id t now), register id t now m)

  abbrev pub if_room :
      DaemonResult (Unit {0})
      → DaemonResult (TerminalId × Terminal P)
      → ℕ
      → SessionManager P
      → DaemonResult TerminalInfo × SessionManager P
  if_room (err e) spawn now m = (err e, m)
  if_room (ok _) spawn now m = spawned spawn now m

  -- With what `Terminal::spawn` gives, and the time.
  unfoldable pub create :
      DaemonResult (TerminalId × Terminal P)
      → ℕ
      → SessionManager P
      → DaemonResult TerminalInfo × SessionManager P
  create spawn now m = if_room (check_room m) spawn now m

  abbrev pub held : Option ℕ → Option (Terminal P) → Option (Terminal P)
  held none t = none
  held (some created_at) t = t

  unfoldable pub attach : TerminalId → SessionManager P → Option (Terminal P)
  attach id m = held (lookup id m.registered) (lookup id m.terminals)

  -- `terminal.kill` of a program that has exited does nothing. Else the answer of the system counts, where
  -- an error for a program that exits within a moment is none.
  abbrev pub kill_terminal : DaemonResult (Unit {0}) → Terminal P → DaemonResult (Unit {0})
  kill_terminal answer t = if t.exited then ok tt else answer

  abbrev pub killed : DaemonResult (Unit {0}) → Option (Terminal P) → DaemonResult (Unit {0})
  killed answer none = err (internal "unknown terminal")
  killed answer (some t) = kill_terminal answer t

  unfoldable pub kill :
      DaemonResult (Unit {0}) → TerminalId → SessionManager P → DaemonResult (Unit {0})
  kill answer id m = killed answer (attach id m)

  abbrev pub listed : Option (Terminal P) → TerminalId → ℕ → List TerminalInfo → List TerminalInfo
  listed none id created_at infos = infos
  listed (some t) id created_at infos = info_of id t created_at ∷ infos

  abbrev pub list_from : Dict (Terminal P) → Dict ℕ → List TerminalInfo
  list_from terminals [] = []
  list_from terminals ((id, created_at) ∷ rest) =
      listed (lookup id terminals) id created_at (list_from terminals rest)

  unfoldable pub list : SessionManager P → List TerminalInfo
  list m = list_from m.terminals m.registered

  abbrev pub is_exited : Option (Terminal P) → Bool
  is_exited none = false
  is_exited (some t) = t.exited

  -- One round of the reaper: the terminals whose program has exited.
  abbrev pub dead : Dict (Terminal P) → Dict ℕ → List TerminalId
  dead terminals [] = []
  dead terminals ((id, created_at) ∷ rest) =
      let later = dead terminals rest in
      if is_exited (lookup id terminals) then id ∷ later else later

abbrev pub remove_all : {V : Type 0} → List ℕ → Dict V → Dict V
remove_all [] m = m
remove_all (id ∷ ids) m = remove_all ids (remove id m)

unfoldable pub reap : {P : Type 0} → List TerminalId → SessionManager P → SessionManager P
reap ids m = record m { registered = remove_all ids m.registered }
