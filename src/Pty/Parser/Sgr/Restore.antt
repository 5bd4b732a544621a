-- ===== src/Pty/Parser/Sgr/Restore.antt =====
-- crates/server/pty/src/parser.rs against crates/shared/proto/src/snapshot.rs: the parameters that
-- `apply_sgr` writes set the attributes that they were written for.
use mathlib.Core.List.{append-nil}
use cli_pocket.Prelude.{
  ℕ, zero, suc, ◌+◌, ◌-◌, ◌≤◌, ◌<◌, ◌≡◌, refl, sym, ap, ◌∙◌, Bool, true, false, ◌||◌, Option, none,
  some, List, [], ◌∷◌, ◌++◌, ◌%◌, map, length, length-drop, drop, ltb, ◌==◌, if◌then◌else◌,
  Bool-cases, Option-cases, inl, inr, arith,
}
use cli_pocket.Proto.Snapshot.{
  Color, palette, indexed, rgb, SgrAttrs, default_sgr, flag, color_params, option_params,
  sgr_params,
}
use cli_pocket.Pty.Parser.Sgr.{
  Params, first, or_zero, parse_extended_color, plain_code, with_color, sgr_loop, sgr,
}

-- The parameters that are left of `rest` when a colour that used `consumed` parameters was read.
fuel_enough :
    (fuel k : ℕ) (items : Params) (a : SgrAttrs)
    → length items ≤ fuel
    → length items ≤ k
    → sgr_loop fuel items a ≡ sgr_loop k items a
unfolding sgr_loop
fuel_enough zero zero [] a h l = refl
fuel_enough zero (suc k) [] a h l = refl
fuel_enough (suc fuel) zero [] a h l = refl
fuel_enough (suc fuel) (suc k) [] a h l = refl
fuel_enough zero k (x ∷ items) a h l = absurd (omega arith)
fuel_enough (suc fuel) zero (x ∷ items) a h l = absurd (omega arith)
fuel_enough (suc fuel) (suc k) (x ∷ items) a h l =
    let code = or_zero (first x) in
    elim (Bool-cases (code == 38 || code == 48)) [
      | inr plain ↦
          rw plain (fuel_enough fuel k items (plain_code code a) (omega arith) (omega arith))
      | inl extended ↦ rw extended (elim (Option-cases (parse_extended_color (x ∷ items))) [
        | inl e ↦ rw e (fuel_enough fuel k items a (omega arith) (omega arith))
        | inr ((c, used), e) ↦ rw e (
            fuel_enough fuel k (drop (used - 1) items) (with_color code c a)
              (omega (arith, length-drop (used - 1) items))
              (omega (arith, length-drop (used - 1) items)))
      ])
    ]

-- All the parameters, with fuel for just their number.
abbrev apply_params : Params → SgrAttrs → SgrAttrs
apply_params items a = sgr_loop (length items) items a

spare_two :
    (items : Params) (a : SgrAttrs)
    → sgr_loop (suc (suc (length items))) items a ≡ apply_params items a
spare_two items a =
    fuel_enough (suc (suc (length items))) (length items) items a (omega arith) (omega arith)

spare_four :
    (items : Params) (a : SgrAttrs)
    → sgr_loop (suc (suc (suc (suc (length items))))) items a ≡ apply_params items a
spare_four items a =
    fuel_enough (suc (suc (suc (suc (length items))))) (length items) items a (omega arith)
      (omega arith)

abbrev pub alone : ℕ → List ℕ
alone n = n ∷ []

step_plain :
    (n : ℕ) (rest : Params) (a : SgrAttrs)
    → (n == 38 || n == 48) ≡ false
    → apply_params (alone n ∷ rest) a ≡ apply_params rest (plain_code n a)
unfolding sgr_loop
step_plain n rest a h = rw h

step_flag :
    (on : Bool) (n : ℕ) (rest : List ℕ) (a : SgrAttrs)
    → (n == 38 || n == 48) ≡ false
    → apply_params (map alone (flag on n ++ rest)) a
      ≡ apply_params (map alone rest) (if on then plain_code n a else a)
step_flag true n rest a h = step_plain n (map alone rest) a h
step_flag false n rest a h = refl

-- A colour of the 16 of the palette, one of 256, or one of three bytes.
abbrev pub IsColor : Option Color → Type 0
IsColor none = Unit
IsColor (some (palette i)) = i < 16
IsColor (some (indexed i)) = i < 256
IsColor (some (rgb r g b)) = (r < 256) × (g < 256) × (b < 256)

abbrev paint : Bool → Option Color → SgrAttrs → SgrAttrs
paint foreground none a = a
paint true (some c) a = record a { fg = some c }
paint false (some c) a = record a { bg = some c }

byte : (n : ℕ) → n < 256 → ltb n 256 ≡ true
byte n h = ground arith

plain_fg :
    (i : ℕ) (a : SgrAttrs)
    → i < 16
    → plain_code ((if ltb i 8 then 30 else 90) + i % 8) a ≡ record a { fg = some (palette i) }
unfolding plain_code
plain_fg i a h = ground arith

plain_bg :
    (i : ℕ) (a : SgrAttrs)
    → i < 16
    → plain_code ((if ltb i 8 then 40 else 100) + i % 8) a ≡ record a { bg = some (palette i) }
unfolding plain_code
plain_bg i a h = ground arith

step_color :
    (foreground : Bool) (c : Option Color) (rest : List ℕ) (a : SgrAttrs)
    → IsColor c
    → apply_params (map alone (option_params c foreground ++ rest)) a
      ≡ apply_params (map alone rest) (paint foreground c a)
unfolding color_params sgr_loop parse_extended_color
step_color foreground none rest a h = refl
step_color true (some (palette i)) rest a h =
    step_plain ((if ltb i 8 then 30 else 90) + i % 8) (map alone rest) a (ground arith)
    ∙ ap (apply_params (map alone rest)) (plain_fg i a h)
step_color false (some (palette i)) rest a h =
    step_plain ((if ltb i 8 then 40 else 100) + i % 8) (map alone rest) a (ground arith)
    ∙ ap (apply_params (map alone rest)) (plain_bg i a h)
step_color true (some (indexed i)) rest a h =
    rw (byte i h) (spare_two (map alone rest) (record a { fg = some (indexed i) }))
step_color false (some (indexed i)) rest a h =
    rw (byte i h) (spare_two (map alone rest) (record a { bg = some (indexed i) }))
step_color true (some (rgb r g b)) rest a h =
    rw (byte r h.0, byte g h.1, byte b h.2)
      (spare_four (map alone rest) (record a { fg = some (rgb r g b) }))
step_color false (some (rgb r g b)) rest a h =
    rw (byte r h.0, byte g h.1, byte b h.2)
      (spare_four (map alone rest) (record a { bg = some (rgb r g b) }))

last_color :
    (c : Option Color) (a : SgrAttrs)
    → IsColor c
    → apply_params (map alone (option_params c false)) a ≡ paint false c a
unfolding sgr_loop
last_color c a h =
    sym (ap (λ ns. apply_params (map alone ns) a) (append-nil (option_params c false)))
    ∙ step_color false c [] a h

abbrev set_flag : Bool → ℕ → SgrAttrs → SgrAttrs
set_flag on n a = if on then plain_code n a else a

-- The effect of the parameters that are written for `a`, on attributes that are not set.
painted :
    (a : SgrAttrs)
    → paint false a.bg (
        paint true a.fg (
          set_flag a.strikethrough 9 (
            set_flag a.reverse 7 (
              set_flag a.blink 5 (
                set_flag a.underline 4
                  (set_flag a.italic 3 (set_flag a.faint 2 (set_flag a.bold 1 default_sgr))))))))
      ≡ a
unfolding plain_code
painted a = ground arith

applied :
    (a : SgrAttrs)
    → IsColor a.fg
    → IsColor a.bg
    → apply_params (map alone (sgr_params a)) default_sgr ≡ a
unfolding sgr_params
applied a hf hb =
    step_flag a.bold 1 _ default_sgr refl
    ∙ step_flag a.faint 2 _ _ refl
    ∙ step_flag a.italic 3 _ _ refl
    ∙ step_flag a.underline 4 _ _ refl
    ∙ step_flag a.blink 5 _ _ refl
    ∙ step_flag a.reverse 7 _ _ refl
    ∙ step_flag a.strikethrough 9 _ _ refl
    ∙ step_color true a.fg (option_params a.bg false) _ hf
    ∙ last_color a.bg _ hb
    ∙ painted a

-- When the foreground and the background are each unset, one of the 16 colours of the palette, an
-- index of 256 colours, or three bytes: reading the parameters that `apply_sgr` writes, with no
-- attribute set before, sets exactly these attributes; the sequence without a parameter, which the
-- tracker reads as a reset, is not written but leaves them as they are after the reset that precedes.
pub sgr_restores :
    (a : SgrAttrs) → IsColor a.fg → IsColor a.bg → sgr (map alone (sgr_params a)) default_sgr ≡ a
unfolding sgr sgr_loop
sgr_restores a hf hb = covered (sgr_params a) (applied a hf hb)
  where
    covered :
        (ns : List ℕ)
        → apply_params (map alone ns) default_sgr ≡ a
        → sgr (map alone ns) default_sgr ≡ a
    covered [] e = e
    covered (n ∷ ns) e = e
