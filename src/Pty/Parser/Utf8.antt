-- ===== src/Pty/Parser/Utf8.antt =====
-- `String::from_utf8`: which bytes are UTF-8.
use cli_pocket.Prelude.{
  ℕ, Bool, true, false, ◌&&◌, Option, none, some, List, [], ◌∷◌, ltb, leb, ◌==◌, if◌then◌else◌,
}
use cli_pocket.Proto.Wire.{Bytes}

abbrev Range : Type 0
Range = ℕ × ℕ

abbrev tail : Range
tail = (0x80, 0xbf)

-- The ranges of the bytes that must follow a leading byte, or `none` for no leading byte.
pub followers : ℕ → Option (List Range)
followers b =
    if ltb b 0x80
    then some []
    else if leb 0xc2 b && leb b 0xdf
    then some (tail ∷ [])
    else if b == 0xe0
    then some ((0xa0, 0xbf) ∷ tail ∷ [])
    else if b == 0xed
    then some ((0x80, 0x9f) ∷ tail ∷ [])
    else if leb 0xe1 b && leb b 0xef
    then some (tail ∷ tail ∷ [])
    else if b == 0xf0
    then some ((0x90, 0xbf) ∷ tail ∷ tail ∷ [])
    else if leb 0xf1 b && leb b 0xf3
    then some (tail ∷ tail ∷ tail ∷ [])
    else if b == 0xf4
    then some ((0x80, 0x8f) ∷ tail ∷ tail ∷ [])
    else none

-- The bytes that are still due, by their ranges.
pub continues : List Range → Bytes → Bool
continues due [] = elim due [ [] ↦ true | r ∷ rs ↦ false ]
continues [] (b ∷ bs) = elim (followers b) [ none ↦ false | some due ↦ continues due bs ]
continues ((lo, hi) ∷ due) (b ∷ bs) = leb lo b && leb b hi && continues due bs

unfoldable pub is_utf8 : Bytes → Bool
unfolding continues followers
is_utf8 bs = continues [] bs
