-- ===== src/Relay/Caps/Rate.antt =====
-- crates/relay/relay-core/src/caps.rs: the token bucket of a pair.
use cli_pocket.Prelude.{
  ℕ, zero, suc, ◌+◌, ◌*◌, ◌/◌, ◌%◌, ◌≤◌, ◌<◌, ◌≡◌, List, [], ◌∷◌, ok, err, arith, u64_max, min,
  refl, ap, ◌∙◌,
}
use cli_pocket.Relay.Errors.{RelayResult}
use cli_pocket.Relay.Caps.{
  PairTicket, CapsInner, try_consume_rate, refill_one_tick, tick_bytes, try_add_pair,
}

-- What happens to a bucket.
pub data Use : Type 0 where
  consume : ℕ → Use
  tick : Use

-- The ticket, the bytes let through, and the ticks so far.
pub record Meter : Type 0 where
  pub ticket : PairTicket
  pub passed : ℕ
  pub ticks : ℕ

abbrev admit : Meter → ℕ → RelayResult PairTicket → Meter
admit m bytes (ok t) = record m { ticket = t; passed = m.passed + bytes }
admit m bytes (err e) = m

pub step : Meter → Use → Meter
step m (consume bytes) = admit m bytes (try_consume_rate m.ticket bytes)
step m tick = record m { ticket = refill_one_tick m.ticket; ticks = m.ticks + 1 }

pub run : Meter → List Use → Meter
run m [] = m
run m (u ∷ us) = run (step m u) us

-- In tenths of a byte: what went out and what is left came from the full bucket and the ticks.
record IsFunded (rate : ℕ) (m : Meter) : Type 0 where
  same_rate : m.ticket.limits.max_bytes_per_sec ≡ rate
  funded :
      10 * m.passed + 10 * m.ticket.rate_bucket + m.ticket.rate_remainder_tenths
      ≤ 10 * rate + m.ticks * rate
  capped : m.ticket.rate_bucket ≤ rate
  carried : m.ticket.rate_remainder_tenths < 10

step-IsFunded : (rate : ℕ) (m : Meter) (u : Use) → IsFunded rate m → IsFunded rate (step m u)
unfolding step try_consume_rate refill_one_tick
step-IsFunded rate m (consume bytes) f = ground arith
step-IsFunded rate m tick f = ground arith

run-IsFunded : (rate : ℕ) (m : Meter) (us : List Use) → IsFunded rate m → IsFunded rate (run m us)
unfolding run
run-IsFunded rate m [] f = f
run-IsFunded rate m (u ∷ us) f = run-IsFunded rate (step m u) us (step-IsFunded rate m u f)

-- The bytes that `n` ticks in a row grant.
pub granted : PairTicket → ℕ → ℕ
granted t zero = 0
granted t (suc n) = tick_bytes t + granted (refill_one_tick t) n

refill_facts :
    (t : PairTicket)
    → t.rate_remainder_tenths < 10
    → t.limits.max_bytes_per_sec + 10 ≤ u64_max
    → let a = t.rate_remainder_tenths + t.limits.max_bytes_per_sec in
      (tick_bytes t ≡ a / 10)
      × ((refill_one_tick t).rate_remainder_tenths ≡ a % 10)
      × ((refill_one_tick t).limits.max_bytes_per_sec ≡ t.limits.max_bytes_per_sec)
unfolding refill_one_tick
refill_facts t h k = (omega arith, ground arith, ground arith)

-- Where the carried tenths are below ten and the rate is not within ten of the largest word, `n` ticks
-- in a row grant the whole bytes of `n` tenths of the rate and of those tenths: none is lost.
pub granted_exact :
    (n : ℕ) (t : PairTicket)
    → t.rate_remainder_tenths < 10
    → t.limits.max_bytes_per_sec + 10 ≤ u64_max
    → granted t n ≡ (t.rate_remainder_tenths + n * t.limits.max_bytes_per_sec) / 10
unfolding granted
granted_exact zero t h k = omega arith
granted_exact (suc n) t h k =
    let (whole, carried, same) = refill_facts t h k in
    let rest = granted_exact n (refill_one_tick t) (omega arith) (rw same k) in
    rw (rest, same) (omega arith)

abbrev pub ticking : ℕ → List Use
ticking zero = []
ticking (suc n) = tick ∷ ticking n

refilled_once :
    (t : PairTicket)
    → t.rate_bucket ≤ t.limits.max_bytes_per_sec
    → t.limits.max_bytes_per_sec + 10 ≤ u64_max
    → (refill_one_tick t).rate_bucket
      ≡ min (t.rate_bucket + tick_bytes t) t.limits.max_bytes_per_sec
unfolding refill_one_tick
refilled_once t h k = ground arith

refilled :
    (n : ℕ) (m : Meter)
    → m.ticket.rate_remainder_tenths < 10
    → m.ticket.rate_bucket ≤ m.ticket.limits.max_bytes_per_sec
    → m.ticket.limits.max_bytes_per_sec + 10 ≤ u64_max
    → (run m (ticking n)).ticket.rate_bucket
      ≡ min (m.ticket.rate_bucket + granted m.ticket n) m.ticket.limits.max_bytes_per_sec
unfolding run step granted
refilled zero m h low k = omega arith
refilled (suc n) m h low k =
    let (whole, carried, same) = refill_facts m.ticket h k in
    let once = refilled_once m.ticket low k in
    let rest = refilled n (step m tick) (omega arith) (rw (once, same) (omega arith)) (rw same k) in
    rw (rest, once, same) (omega arith)

rested-full :
    (rate : ℕ) (m : Meter)
    → IsFunded rate m
    → rate + 10 ≤ u64_max
    → (run m (ticking 10)).ticket.rate_bucket ≡ rate
rested-full rate m f small =
    let at_rate = f.same_rate in
    let k : m.ticket.limits.max_bytes_per_sec + 10 ≤ u64_max = omega (arith, at_rate) in
    let low : m.ticket.rate_bucket ≤ m.ticket.limits.max_bytes_per_sec =
      omega (arith, at_rate, f.capped) in
    omega (
      arith,
      at_rate,
      f.capped,
      f.carried,
      granted_exact 10 m.ticket (f.carried) k,
      refilled 10 m (f.carried) low k,
    )

passed-ticking : (n : ℕ) (m : Meter) → (run m (ticking n)).passed ≡ m.passed
unfolding run step
passed-ticking zero m = refl
passed-ticking (suc n) m = passed-ticking n (step m tick)

passes :
    (m : Meter) (bytes : ℕ)
    → bytes ≤ m.ticket.rate_bucket
    → (step m (consume bytes)).passed ≡ m.passed + bytes
unfolding step try_consume_rate
passes m bytes h = ground arith

-- Of a new pair whose rate is not within ten of the largest word, whatever the order of attempts and
-- ticks: in `ticks` tenths of a second at most one full bucket and the rate for that time go through.
-- And after any ten ticks in a row without an attempt between them the bucket holds one second of the
-- rate, and no more, so that an attempt of up to that many bytes passes then.
pub rate_limited :
    (c : CapsInner) {c' : CapsInner} (t : PairTicket) (us : List Use)
    → c.max_bytes_per_sec + 10 ≤ u64_max
    → try_add_pair c ≡ ok (c', t)
    → let m = run (record { ticket = t; passed = 0; ticks = 0 }) us in
      let rested = run m (ticking 10) in
      (10 * m.passed ≤ 10 * c.max_bytes_per_sec + m.ticks * c.max_bytes_per_sec)
      × (rested.ticket.rate_bucket ≡ c.max_bytes_per_sec)
      × ((bytes : ℕ)
          → bytes ≤ c.max_bytes_per_sec
          → (step rested (consume bytes)).passed ≡ m.passed + bytes)
unfolding try_add_pair
rate_limited c t us small h =
    let start : IsFunded c.max_bytes_per_sec (record { ticket = t; passed = 0; ticks = 0 }) =
      ground arith in
    let m = run (record { ticket = t; passed = 0; ticks = 0 }) us in
    let f = run-IsFunded c.max_bytes_per_sec _ us start in
    let full = rested-full c.max_bytes_per_sec m f small in
    (
      omega (arith, f.funded),
      full,
      λ bytes few.
          passes (run m (ticking 10)) bytes (omega (arith, full))
          ∙ ap (λ n. n + bytes) (passed-ticking 10 m),
    )
