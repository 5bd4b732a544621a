-- ===== src/Pty/Parser.antt =====
-- crates/server/pty/src/parser.rs: the tracker of the terminal's state. The crate `vte`, which splits
-- the bytes into calls of `Perform`, is a parameter.
pub mod Sgr
pub mod Modes
pub mod Utf8
use cli_pocket.Prelude.{
  ℕ, zero, suc, ◌+◌, ◌-◌, ◌*◌, ◌/◌, min, Bool, true, false, not, ◌&&◌, ◌||◌, Option, none, some,
  List, [], ◌∷◌, ◌++◌, get_elem?, ltb, leb, ◌==◌, if◌then◌else◌, sat_add16, u16_max,
}
use cli_pocket.Proto.Wire.{Bytes}
use cli_pocket.Proto.Snapshot.{
  SgrAttrs, default_sgr, TerminalModes, default_modes, CharsetState, default_charset, AnchorState,
}
use Sgr.{Params, first_at, sgr}
use Modes.{mode_set}
use Utf8.{is_utf8}

-- The calls of vte's trait `Perform`, with the arguments that the tracker reads.
pub data Perform : Type 0 where
  print : ℕ → Perform
  execute : ℕ → Perform
  hook put unhook : Perform
  osc_dispatch : List Bytes → Perform
  csi_dispatch : Params → Bytes → ℕ → Perform
  esc_dispatch : Bytes → ℕ → Perform

-- `vte::Parser`: its state, and the calls that a byte makes it make.
pub record Vte (P : Type 0) : Type 0 where
  pub start : P
  pub advance : P → ℕ → P × List Perform

pub record AnchorStateMut : Type 0 where
  pub cursor_row : ℕ
  pub cursor_col : ℕ
  pub sgr : SgrAttrs
  pub modes : TerminalModes
  pub charset : CharsetState
  pub title : Option Bytes

pub record AnchorTracker (P : Type 0) : Type 0 where
  pub parser : P
  pub state : AnchorStateMut
  pub at_safe_split : Bool

abbrev pub default_state : AnchorStateMut
default_state = record {
  cursor_row = 0;
  cursor_col = 0;
  sgr = default_sgr;
  modes = default_modes;
  charset = default_charset;
  title = none;
}

-- `char::is_control`: both control blocks and DEL.
abbrev pub is_control : ℕ → Bool
is_control c = ltb c 32 || (leb 127 c && ltb c 160)

abbrev pub char_width : ℕ → ℕ
char_width c = if is_control c then 0 else 1

abbrev non_zero : Option ℕ → ℕ → ℕ
non_zero none default = default
non_zero (some n) default = if n == 0 then default else n

unfoldable pub first_param : Params → ℕ → ℕ
first_param params default = non_zero (first_at params 0) default

unfoldable pub second_param : Params → ℕ → ℕ
second_param params default = non_zero (first_at params 1) default

abbrev joined : List Bytes → Bytes
joined [] = []
joined (p ∷ []) = p
joined (p ∷ q ∷ ps) = p ++ b';' ∷ joined (q ∷ ps)

abbrev is_title_code : Bytes → Bool
is_title_code (c ∷ []) = c == b'0' || c == b'2'
is_title_code _ = false

unfoldable pub parse_osc_title : List Bytes → Option Bytes
unfolding is_utf8
parse_osc_title [] = none
parse_osc_title (head ∷ tail) =
    let raw = joined tail in
    if is_title_code head then (if is_utf8 raw then some raw else none) else none

unfoldable pub execute_byte : ℕ → AnchorStateMut → AnchorStateMut
execute_byte byte s =
    if byte == 10
    then record s { cursor_row = sat_add16 s.cursor_row 1; cursor_col = 0 }
    else if byte == 13
    then record s { cursor_col = 0 }
    else if byte == 8
    then record s { cursor_col = s.cursor_col - 1 }
    else if byte == 9
    then record s { cursor_col = min ((s.cursor_col / 8 + 1) * 8) u16_max }
    else s

abbrev pub set_title : Option Bytes → AnchorStateMut → AnchorStateMut
set_title none s = s
set_title (some t) s = record s { title = some t }

unfoldable pub csi : Params → Bytes → ℕ → AnchorStateMut → AnchorStateMut
unfolding first_param second_param
csi params intermediates action s =
    let n = first_param params 1 in
    if action == b'm'
    then record s { sgr = sgr params s.sgr }
    else if action == b'H' || action == b'f'
    then record s { cursor_row = n - 1; cursor_col = second_param params 1 - 1 }
    else if action == b'A'
    then record s { cursor_row = s.cursor_row - n }
    else if action == b'B'
    then record s { cursor_row = sat_add16 s.cursor_row n }
    else if action == b'C'
    then record s { cursor_col = sat_add16 s.cursor_col n }
    else if action == b'D'
    then record s { cursor_col = s.cursor_col - n }
    else if action == b'E'
    then record s { cursor_row = sat_add16 s.cursor_row n; cursor_col = 0 }
    else if action == b'F'
    then record s { cursor_row = s.cursor_row - n; cursor_col = 0 }
    else if action == b'G'
    then record s { cursor_col = n - 1 }
    else if action == b'd'
    then record s { cursor_row = n - 1 }
    else if action == b'h'
    then record s { modes = mode_set params intermediates true s.modes }
    else if action == b'l'
    then record s { modes = mode_set params intermediates false s.modes }
    else s

abbrev designate : ℕ → ℕ → CharsetState → CharsetState
designate marker byte c =
    if marker == b'('
    then record c { g0 = byte }
    else if marker == b')'
    then record c { g1 = byte }
    else if marker == b'*'
    then record c { g2 = byte }
    else if marker == b'+'
    then record c { g3 = byte }
    else c

abbrev pub designation : Bytes → ℕ → AnchorStateMut → AnchorStateMut
designation (marker ∷ []) byte s = record s { charset = designate marker byte s.charset }
designation _ byte s = s

-- A call: the new state, and whether the stream may be split behind it.
unfoldable pub perform : Perform → AnchorStateMut → AnchorStateMut × Bool
unfolding execute_byte csi parse_osc_title
perform (print c) s = (record s { cursor_col = sat_add16 s.cursor_col (char_width c) }, true)
perform (execute byte) s = (execute_byte byte s, true)
perform hook s = (s, false)
perform put s = (s, false)
perform unhook s = (s, true)
perform (osc_dispatch params) s = (set_title (parse_osc_title params) s, true)
perform (csi_dispatch params intermediates action) s = (csi params intermediates action s, true)
perform (esc_dispatch intermediates byte) s = (designation intermediates byte s, true)

unfoldable pub perform_all : List Perform → AnchorStateMut → Bool → AnchorStateMut × Bool
perform_all [] s split = (s, split)
perform_all (c ∷ cs) s split = let (s', split') = perform c s in perform_all cs s' split'

unfoldable pub snapshot_state : {P : Type 0} → AnchorTracker P → AnchorState
snapshot_state t = record {
  cursor = (t.state.cursor_col, t.state.cursor_row);
  sgr = t.state.sgr;
  modes = t.state.modes;
  charset = t.state.charset;
  title = t.state.title;
}

module _ {P : Type 0} (vte : Vte P) where
  unfoldable pub new : AnchorTracker P
  new = record { parser = vte.start; state = default_state; at_safe_split = true }

  unfoldable pub advance_byte : AnchorTracker P → ℕ → AnchorTracker P
  unfolding perform_all
  advance_byte t byte =
      let (p, calls) = vte.advance t.parser byte in
      let (s, split) = perform_all calls t.state false in
      record { parser = p; state = s; at_safe_split = split }

  unfoldable pub advance : AnchorTracker P → Bytes → AnchorTracker P
  unfolding advance_byte
  advance t [] = t
  advance t (b ∷ bs) = advance (advance_byte t b) bs
