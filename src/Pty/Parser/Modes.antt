-- ===== src/Pty/Parser/Modes.antt =====
-- crates/server/pty/src/parser.rs: `mode_set`.
pub mod Replay
use cli_pocket.Prelude.{ℕ, Bool, true, false, List, [], ◌∷◌, ◌==◌, ◌&&◌, if◌then◌else◌}
use cli_pocket.Proto.Wire.{Bytes}
use cli_pocket.Proto.Snapshot.{MouseMode, off, x10, normal, button_event, any_event, TerminalModes}
use cli_pocket.Pty.Parser.Sgr.{Params, first, or_zero}

abbrev pub reporting : Bool → MouseMode → MouseMode
reporting on m = if on then m else off

-- One parameter of the sequence.
unfoldable pub set_mode : ℕ → Bool → TerminalModes → TerminalModes
set_mode code on m =
    if code == 1
    then record m { deccmm_cursor_keys = on }
    else if code == 7
    then record m { autowrap = on }
    else if code == 1049
    then record m { alt_screen = on }
    else if code == 2004
    then record m { bracketed_paste = on }
    else if code == 9
    then record m { mouse_reporting = reporting on x10 }
    else if code == 1000
    then record m { mouse_reporting = reporting on normal }
    else if code == 1002
    then record m { mouse_reporting = reporting on button_event }
    else if code == 1003
    then record m { mouse_reporting = reporting on any_event }
    else if code == 6
    then record m { origin_mode = on }
    else m

unfoldable pub set_modes : Params → Bool → TerminalModes → TerminalModes
unfolding set_mode
set_modes [] on m = m
set_modes (p ∷ ps) on m = set_modes ps on (set_mode (or_zero (first p)) on m)

-- `intermediates == b"?"`.
abbrev pub is_private : Bytes → Bool
is_private (b ∷ []) = b == b'?'
is_private _ = false

unfoldable pub mode_set : Params → Bytes → Bool → TerminalModes → TerminalModes
unfolding set_modes
mode_set params intermediates on m = if is_private intermediates then set_modes params on m else m
