-- ===== src/Proto/Snapshot.antt =====
-- crates/shared/proto/src/snapshot.rs: the state of a terminal at an anchor, and the escape sequences
-- that restore it. Text is the list of its code points.
pub mod Decimal
use Prim.Native.Char.{code}
use Prim.Native.String
use cli_pocket.Prelude.{
  ℕ, ◌+◌, ◌*◌, ◌%◌, Bool, true, false, not, String, Option, none, some, List, [], ◌∷◌, ◌++◌, map,
  ltb, leb, ◌==◌, if◌then◌else◌, sat_add16,
}
use cli_pocket.Proto.Wire.{Bytes}
use Decimal.{decimal}

pub data Color : Type 0 where
  palette indexed : ℕ → Color
  rgb : ℕ → ℕ → ℕ → Color

pub record SgrAttrs : Type 0 where
  pub fg : Option Color
  pub bg : Option Color
  pub bold : Bool
  pub faint : Bool
  pub italic : Bool
  pub underline : Bool
  pub blink : Bool
  pub reverse : Bool
  pub strikethrough : Bool

abbrev pub default_sgr : SgrAttrs
default_sgr = record {
  fg = none;
  bg = none;
  bold = false;
  faint = false;
  italic = false;
  underline = false;
  blink = false;
  reverse = false;
  strikethrough = false;
}

pub data MouseMode : Type 0 where
  off x10 normal button_event any_event : MouseMode

pub record TerminalModes : Type 0 where
  pub deccmm_cursor_keys : Bool
  pub autowrap : Bool
  pub alt_screen : Bool
  pub bracketed_paste : Bool
  pub mouse_reporting : MouseMode
  pub origin_mode : Bool

abbrev pub default_modes : TerminalModes
default_modes = record {
  deccmm_cursor_keys = false;
  autowrap = true;
  alt_screen = false;
  bracketed_paste = false;
  mouse_reporting = off;
  origin_mode = false;
}

-- The four designations of `g`, and the active sets.
pub record CharsetState : Type 0 where
  pub g0 : ℕ
  pub g1 : ℕ
  pub g2 : ℕ
  pub g3 : ℕ
  pub gl : ℕ
  pub gr : ℕ

abbrev pub default_charset : CharsetState
default_charset = record { g0 = b'B'; g1 = b'B'; g2 = b'B'; g3 = b'B'; gl = 0; gr = 0 }

-- `cursor` is the column and the row.
pub record AnchorState : Type 0 where
  pub cursor : ℕ × ℕ
  pub sgr : SgrAttrs
  pub modes : TerminalModes
  pub charset : CharsetState
  pub title : Option Bytes

pub record Snapshot : Type 0 where
  pub cols : ℕ
  pub rows : ℕ
  pub anchor_state : AnchorState
  pub bytes : Bytes
  pub head_seq : ℕ

pub record DeltaSlice : Type 0 where
  pub bytes : Bytes
  pub head_seq : ℕ

abbrev pub flag : Bool → ℕ → List ℕ
flag on n = if on then n ∷ [] else []

-- The numbers that are written for a colour.
unfoldable pub color_params : Color → Bool → List ℕ
color_params (palette index) foreground =
    ((if foreground then (if ltb index 8 then 30 else 90) else if ltb index 8 then 40 else 100)
      + index % 8)
    ∷ []
color_params (indexed index) foreground = (if foreground then 38 else 48) ∷ 5 ∷ index ∷ []
color_params (rgb r g b) foreground = (if foreground then 38 else 48) ∷ 2 ∷ r ∷ g ∷ b ∷ []

abbrev pub option_params : Option Color → Bool → List ℕ
option_params none foreground = []
option_params (some c) foreground = color_params c foreground

-- The parameters that `apply_sgr` joins.
unfoldable pub sgr_params : SgrAttrs → List ℕ
sgr_params sgr =
    flag sgr.bold 1
    ++ (flag sgr.faint 2
        ++ (flag sgr.italic 3
            ++ (flag sgr.underline 4
                ++ (flag sgr.blink 5
                    ++ (flag sgr.reverse 7
                        ++ (flag sgr.strikethrough 9
                            ++ (option_params sgr.fg true ++ option_params sgr.bg false)))))))

-- `join(";")` of the numbers in decimal.
pub join_params : List ℕ → Bytes
join_params [] = []
join_params (n ∷ []) = decimal n
join_params (n ∷ m ∷ ns) = decimal n ++ b';' ∷ join_params (m ∷ ns)

abbrev pub esc : ℕ
esc = 0x1b

pub apply_sgr : SgrAttrs → Bytes
apply_sgr sgr = written (sgr_params sgr)
  where
    written : List ℕ → Bytes
    written [] = []
    written (n ∷ ns) = esc ∷ b'[' ∷ (join_params (n ∷ ns) ++ b'm' ∷ [])

abbrev pub is_off : MouseMode → Bool
is_off off = true
is_off _ = false

abbrev pub is_button_event : MouseMode → Bool
is_button_event button_event = true
is_button_event _ = false

abbrev pub is_any_event : MouseMode → Bool
is_any_event any_event = true
is_any_event _ = false

-- The private modes that `apply_modes` sets or resets, in order.
unfoldable pub mode_commands : TerminalModes → List (ℕ × Bool)
mode_commands modes =
    (1, modes.deccmm_cursor_keys)
    ∷ (6, modes.origin_mode)
    ∷ (7, modes.autowrap)
    ∷ (1000, not (is_off modes.mouse_reporting))
    ∷ (1002, is_button_event modes.mouse_reporting)
    ∷ (1003, is_any_event modes.mouse_reporting)
    ∷ (1005, false)
    ∷ (1006, not (is_off modes.mouse_reporting))
    ∷ (1049, modes.alt_screen)
    ∷ (2004, modes.bracketed_paste)
    ∷ []

pub set_private_mode : ℕ × Bool → Bytes
set_private_mode (mode, enabled) =
    esc ∷ b'[' ∷ b'?' ∷ (decimal mode ++ (if enabled then b'h' else b'l') ∷ [])

pub write_modes : List (ℕ × Bool) → Bytes
write_modes [] = []
write_modes (c ∷ cs) = set_private_mode c ++ write_modes cs

pub apply_modes : TerminalModes → Bytes
apply_modes modes = write_modes (mode_commands modes)

pub apply_charset : CharsetState → Bytes
apply_charset c =
    esc
    ∷ b'('
    ∷ c.g0
    ∷ esc
    ∷ b')'
    ∷ c.g1
    ∷ esc
    ∷ b'*'
    ∷ c.g2
    ∷ esc
    ∷ b'+'
    ∷ c.g3
    ∷ (if leb c.gl 3 then 0x0f ∷ (if c.gl == 0 then [] else esc ∷ b'n' ∷ []) else [])

pub render_prefix_from_anchor : AnchorState → Bytes
render_prefix_from_anchor anchor =
    let row = sat_add16 anchor.cursor.1 1 in
    let col = sat_add16 anchor.cursor.0 1 in
    (esc ∷ b'[' ∷ b'0' ∷ b'm' ∷ esc ∷ b'[' ∷ b'?' ∷ b'2' ∷ b'5' ∷ b'h' ∷ [])
    ++ (apply_sgr anchor.sgr
        ++ (apply_modes anchor.modes
            ++ (apply_charset anchor.charset
                ++ (esc ∷ b'[' ∷ (decimal row ++ b';' ∷ (decimal col ++ b'H' ∷ []))))))
