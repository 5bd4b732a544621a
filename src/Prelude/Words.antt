-- ===== src/Prelude/Words.antt =====
-- Machine words as native numbers. `usize` is taken to have 64 bits.
use Prim.Native.Nat.{ℕ, ◌+◌, ◌-◌, ◌^◌, min}

abbrev pub u64_max : ℕ
u64_max = 2 ^ 64 - 1

abbrev pub u16_max : ℕ
u16_max = 2 ^ 16 - 1

-- `u64::saturating_add`, `u16::saturating_add`; `saturating_sub` is the `-` of ℕ.
abbrev pub sat_add64 : ℕ → ℕ → ℕ
sat_add64 a b = min (a + b) u64_max

abbrev pub sat_add16 : ℕ → ℕ → ℕ
sat_add16 a b = min (a + b) u16_max
