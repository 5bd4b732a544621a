-- ===== src/Client/Reconnect.antt =====
-- crates/client/client-core/src/reconnect.rs: the delays between attempts to reconnect, in milliseconds.
use native.Mathlib.Nat.{mul-le-mul_left, pow-suc}
use cli_pocket.Prelude.{
  ℕ, zero, suc, ◌+◌, ◌-◌, ◌*◌, ◌/◌, ◌^◌, ◌≤◌, ◌<◌, min, leb, ltb, ◌==◌, if◌then◌else◌, u64_max,
  arith,
}

abbrev at_least : ℕ → ℕ → ℕ
at_least low n = if ltb n low then low else n

-- The product is taken in 128 bits, where it fits.
unfoldable pub next_delay : ℕ → ℕ → ℕ → ℕ
next_delay cur_ms max_ms mul_x10 = at_least 50 (min (min (cur_ms * mul_x10 / 10) u64_max) max_ms)

-- `i128` rounds a quotient towards zero; the sum is at most 0 only where it is 0.
unfoldable pub jitter : ℕ → ℕ → ℕ
jitter base_ms rng_byte =
    let jittered =
      if leb 128 rng_byte
      then base_ms + base_ms * (rng_byte - 128) / 512
      else base_ms - base_ms * (128 - rng_byte) / 512 in
    if jittered == 0 then 1 else min jittered u64_max

-- A delay is at least 50 ms, and at most the greater of the limit and that.
next_delay-bounds :
    (cur_ms max_ms mul_x10 : ℕ)
    → (50 ≤ next_delay cur_ms max_ms mul_x10)
      × (next_delay cur_ms max_ms mul_x10 ≤ 50 + (max_ms - 50))
unfolding next_delay
next_delay-bounds cur_ms max_ms mul_x10 = (ground arith, ground arith)

-- The delays of `n` failed attempts in a row.
unfoldable pub delay_after : ℕ → ℕ → ℕ → ℕ → ℕ
delay_after zero start max_ms mul_x10 = start
delay_after (suc n) start max_ms mul_x10 =
    next_delay (delay_after n start max_ms mul_x10) max_ms mul_x10

doubled-le : (d mul_x10 : ℕ) → 20 ≤ mul_x10 → d + d ≤ d * mul_x10 / 10
doubled-le d mul_x10 h = omega (arith, mul-le-mul_left {m = 20} {n = mul_x10} d h)

-- With a factor of two at least, a limit that fits 64 bits, and a start between 50 ms and the limit,
-- the delay after `n` failed attempts is never above the limit, and is at least 50 ms doubled `n`
-- times or the limit.
pub delay_after-reaches :
    (n start max_ms mul_x10 : ℕ)
    → 20 ≤ mul_x10
    → 50 ≤ start
    → start ≤ max_ms
    → max_ms ≤ u64_max
    → (min (50 * 2 ^ n) max_ms ≤ delay_after n start max_ms mul_x10)
      × (delay_after n start max_ms mul_x10 ≤ max_ms)
unfolding delay_after next_delay
delay_after-reaches zero start max_ms mul_x10 h low high fits = (omega arith, high)
delay_after-reaches (suc n) start max_ms mul_x10 h low high fits =
    let (grown, limited) = delay_after-reaches n start max_ms mul_x10 h low high fits in
    let doubled = doubled-le (delay_after n start max_ms mul_x10) mul_x10 h in
    (ground (arith, pow-suc 2 n, grown, doubled), ground arith)

-- For a byte of randomness, and a delay that fits 64 bits with a quarter of it added, the delay with
-- jitter stays within a quarter to both sides, and is never 0: for the delay 0 it is 1.
pub jitter-bounds :
    (base_ms rng_byte : ℕ)
    → rng_byte < 256
    → base_ms + base_ms / 4 ≤ u64_max
    → (1 ≤ jitter base_ms rng_byte)
      × (base_ms - base_ms / 4 ≤ jitter base_ms rng_byte)
      × (jitter base_ms rng_byte ≤ (if base_ms == 0 then 1 else base_ms + base_ms / 4))
unfolding jitter
jitter-bounds base_ms rng_byte h fits =
    let more = mul-le-mul_left {m = rng_byte - 128} {n = 128} base_ms (omega arith) in
    let less = mul-le-mul_left {m = 128 - rng_byte} {n = 128} base_ms (omega arith) in
    let up : base_ms * (rng_byte - 128) / 512 ≤ base_ms / 4 = omega (arith, more) in
    let down : base_ms * (128 - rng_byte) / 512 ≤ base_ms / 4 = omega (arith, less) in
    (ground arith, ground arith, ground arith)
