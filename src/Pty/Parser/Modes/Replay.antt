-- ===== src/Pty/Parser/Modes/Replay.antt =====
-- crates/server/pty/src/parser.rs against crates/shared/proto/src/snapshot.rs: the private modes that
-- `apply_modes` writes, read by the tracker of another terminal.
use cli_pocket.Prelude.{ℕ, Bool, List, [], ◌∷◌, ◌≡◌, refl}
use cli_pocket.Proto.Snapshot.{
  MouseMode, off, x10, normal, button_event, any_event, TerminalModes, mode_commands,
}
use cli_pocket.Pty.Parser.Modes.{set_mode}

-- The sequences are read one after the other.
abbrev pub replay : List (ℕ × Bool) → TerminalModes → TerminalModes
replay [] m = m
replay ((code, on) ∷ cs) m = replay cs (set_mode code on m)

-- What becomes of the mouse mode: each of the modes 1000, 1002 and 1003 stands for the whole of it.
abbrev pub replayed : MouseMode → MouseMode
replayed any_event = any_event
replayed _ = off

-- Whatever modes `start` a tracker has, the sequences that `apply_modes` writes for `m` give it all of
-- `m` but the mouse mode: a mouse mode other than `any_event` is read as `off`, since the reset of
-- the mode 1003 that is written last undoes the modes 1000 and 1002.
pub modes_replayed :
    (start m : TerminalModes)
    → replay (mode_commands m) start ≡ record m { mouse_reporting = replayed m.mouse_reporting }
unfolding mode_commands set_mode
modes_replayed start m = by_mouse m.mouse_reporting
  where
    by_mouse :
        (mouse : MouseMode)
        → replay (mode_commands (record m { mouse_reporting = mouse })) start
          ≡ record m { mouse_reporting = replayed mouse }
    by_mouse off = refl
    by_mouse x10 = refl
    by_mouse normal = refl
    by_mouse button_event = refl
    by_mouse any_event = refl
