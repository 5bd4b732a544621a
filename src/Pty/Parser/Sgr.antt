-- ===== src/Pty/Parser/Sgr.antt =====
-- crates/server/pty/src/parser.rs: `sgr` and `parse_extended_color`. The parameters of a control
-- sequence are lists of sub-parameters.
pub mod Restore
use cli_pocket.Prelude.{
  ℕ, zero, suc, ◌+◌, ◌-◌, Bool, true, false, ◌&&◌, ◌||◌, Option, none, some, List, [], ◌∷◌,
  get_elem?, drop, length, ltb, leb, ◌==◌, if◌then◌else◌,
}
use cli_pocket.Proto.Snapshot.{Color, palette, indexed, rgb, SgrAttrs, default_sgr}

abbrev pub Params : Type 0
Params = List (List ℕ)

-- `first().copied()`.
abbrev pub first : List ℕ → Option ℕ
first p = get_elem? p 0

abbrev pub or_zero : Option ℕ → ℕ
or_zero none = 0
or_zero (some n) = n

-- `u8::try_from(value).ok()`.
abbrev pub to_u8 : Option ℕ → Option ℕ
to_u8 none = none
to_u8 (some n) = if ltb n 256 then some n else none

-- `items.get(i)?.first()`.
abbrev pub first_at : Params → ℕ → Option ℕ
first_at items i = elim (get_elem? items i) [ none ↦ none | some p ↦ first p ]

abbrev pub palette_color : ℕ → Option Color
palette_color value = elim (to_u8 (some value)) [ none ↦ none | some n ↦ some (palette n) ]

abbrev pub indexed_color : Option ℕ → ℕ → Option (Color × ℕ)
indexed_color none consumed = none
indexed_color (some n) consumed = some (indexed n, consumed)

abbrev pub rgb_color : Option ℕ → Option ℕ → Option ℕ → ℕ → Option (Color × ℕ)
rgb_color (some r) (some g) (some b) consumed = some (rgb r g b, consumed)
rgb_color _ _ _ consumed = none

-- The forms with `;`: the parts are parameters of their own.
abbrev pub spread_color : Params → Option ℕ → Option (Color × ℕ)
spread_color items none = none
spread_color items (some kind) =
    if kind == 5
    then indexed_color (to_u8 (first_at items 2)) 3
    else if kind == 2
    then rgb_color (to_u8 (first_at items 2)) (to_u8 (first_at items 3)) (to_u8 (first_at items 4))
        5
    else none

-- The forms with `:`: the parts are sub-parameters.
abbrev pub packed_color : List ℕ → ℕ → Option (Color × ℕ)
packed_color current kind =
    if kind == 5
    then indexed_color (to_u8 (get_elem? current 2)) 1
    else if kind == 2
    then rgb_color (to_u8 (get_elem? current 2)) (to_u8 (get_elem? current 3))
        (to_u8 (get_elem? current 4)) 1
    else none

-- `items` begins at the index of the source; the result is the colour and the parameters used.
unfoldable pub parse_extended_color : Params → Option (Color × ℕ)
parse_extended_color [] = none
parse_extended_color (current ∷ rest) = elim (get_elem? current 1) [
  | some kind ↦ packed_color current kind
  | none ↦ spread_color (current ∷ rest) (first_at (current ∷ rest) 1)
]

-- The effect of a code that is no extended colour.
unfoldable pub plain_code : ℕ → SgrAttrs → SgrAttrs
plain_code code a =
    if code == 0
    then default_sgr
    else if code == 1
    then record a { bold = true }
    else if code == 2
    then record a { faint = true }
    else if code == 3
    then record a { italic = true }
    else if code == 4
    then record a { underline = true }
    else if code == 5
    then record a { blink = true }
    else if code == 7
    then record a { reverse = true }
    else if code == 9
    then record a { strikethrough = true }
    else if code == 21 || code == 22
    then record a { bold = false; faint = false }
    else if code == 23
    then record a { italic = false }
    else if code == 24
    then record a { underline = false }
    else if code == 25
    then record a { blink = false }
    else if code == 27
    then record a { reverse = false }
    else if code == 29
    then record a { strikethrough = false }
    else if leb 30 code && leb code 37
    then record a { fg = palette_color (code - 30) }
    else if code == 39
    then record a { fg = none }
    else if leb 40 code && leb code 47
    then record a { bg = palette_color (code - 40) }
    else if code == 49
    then record a { bg = none }
    else if leb 90 code && leb code 97
    then record a { fg = palette_color (code - 82) }
    else if leb 100 code && leb code 107
    then record a { bg = palette_color (code - 92) }
    else a

abbrev pub with_color : ℕ → Color → SgrAttrs → SgrAttrs
with_color code c a = if code == 38 then record a { fg = some c } else record a { bg = some c }

-- The loop over the parameters from `index` on; each turn moves by one parameter at least, so that
-- their number is fuel enough.
unfoldable pub sgr_loop : ℕ → Params → SgrAttrs → SgrAttrs
sgr_loop zero items a = a
sgr_loop (suc fuel) [] a = a
sgr_loop (suc fuel) (item ∷ rest) a =
    let code = or_zero (first item) in
    let plain = sgr_loop fuel rest (plain_code code a) in
    if code == 38 || code == 48
    then elim (parse_extended_color (item ∷ rest)) [
      | none ↦ sgr_loop fuel rest a
      | some (c, consumed) ↦ sgr_loop fuel (drop (consumed - 1) rest) (with_color code c a)
    ]
    else plain

unfoldable pub sgr : Params → SgrAttrs → SgrAttrs
sgr [] a = default_sgr
sgr (p ∷ ps) a = sgr_loop (length (p ∷ ps)) (p ∷ ps) a
