-- ===== src/Proto/Snapshot/Decimal.antt =====
-- `to_string` of an unsigned number of at most 64 bits: twenty digits suffice.
use cli_pocket.Prelude.{
  ℕ, zero, suc, ◌+◌, ◌-◌, ◌*◌, ◌/◌, ◌%◌, ◌^◌, ◌<◌, ◌≡◌, refl, [], ◌∷◌, ◌++◌, ltb, if◌then◌else◌,
  arith, Bool-cases, inl, inr,
}
use native.Mathlib.Nat.{pow-suc}
use cli_pocket.Proto.Wire.{Bytes}

pub digits : ℕ → ℕ → Bytes
digits zero n = []
digits (suc fuel) n =
    let more = digits fuel (n / 10) in
    if ltb n 10 then (b'0' + n) ∷ [] else more ++ (b'0' + n % 10) ∷ []

unfoldable pub decimal : ℕ → Bytes
unfolding digits
decimal n = digits 20 n

-- The number that decimal digits stand for.
pub read_from : ℕ → Bytes → ℕ
read_from acc [] = acc
read_from acc (c ∷ cs) = read_from (acc * 10 + (c - b'0')) cs

read_from-append :
    (acc : ℕ) (cs : Bytes) (c : ℕ)
    → read_from acc (cs ++ c ∷ []) ≡ read_from acc cs * 10 + (c - b'0')
unfolding read_from
read_from-append acc [] c = refl
read_from-append acc (d ∷ cs) c = read_from-append (acc * 10 + (d - b'0')) cs c

digits_read : (fuel n : ℕ) → n < 10 ^ fuel → read_from 0 (digits fuel n) ≡ n
unfolding digits read_from
digits_read zero n h = omega arith
digits_read (suc fuel) n h = elim (Bool-cases (ltb n 10)) [
  | inl one ↦ rw one (ground arith)
  | inr several ↦
      let small : n / 10 < 10 ^ fuel = omega (arith, pow-suc 10 fuel) in
      rw several (
        rw
          (
            read_from-append 0 (digits fuel (n / 10)) (b'0' + n % 10),
            digits_read fuel (n / 10) small,
          )
          (omega arith))
]

-- The text of a number of at most 64 bits reads back as the number: the digits suffice.
pub read-decimal : (n : ℕ) → n < 2 ^ 64 → read_from 0 (decimal n) ≡ n
unfolding decimal
read-decimal n h = digits_read 20 n (omega arith)
