-- ===== src/Relay/Caps.antt =====
-- crates/relay/relay-core/src/caps.rs: the shared capacity counters and the per-pair meters.
--
-- Every counter is an atomic that a compare-and-swap loop updates. `cas_loop` is that loop with the
-- interference of the other threads written out: `seen` lists what each `compare_exchange` finds in
-- the counter. An operation on the record is one uncontended turn of its loop.
pub mod Contention
pub mod Tickets
pub mod Rate
use cli_pocket.Prelude.{
  ℕ, zero, suc, ◌+◌, ◌-◌, ◌/◌, ◌%◌, min, ◌≡◌, List, [], ◌∷◌, Bool, String, Option, none, some,
  Result, ok, err, ◌>>=◌, ltb, leb, ◌==◌, if◌then◌else◌, sat_add64, u64_max,
}
use cli_pocket.Relay.Errors.{RelayError, over_capacity, RelayResult}

pub record CapsInner : Type 0 where
  pub max_servers : ℕ
  pub max_pairs : ℕ
  pub max_bytes_per_sec : ℕ
  pub max_queued_bytes : ℕ
  pub servers : ℕ
  pub pairs : ℕ

pub record CapsSnapshot : Type 0 where
  pub servers : ℕ
  pub pairs : ℕ

-- The meters of one pair. `limits` is the shared record that the ticket points at.
pub record PairTicket : Type 0 where
  pub limits : CapsInner
  pub rate_bucket : ℕ
  pub rate_remainder_tenths : ℕ
  pub queued_bytes : ℕ

pub record PairCapsSnapshot : Type 0 where
  pub rate_remaining : ℕ
  pub queued_bytes : ℕ

-- What a loop comes to: no verdict yet when `seen` ends, a refusal, or `stored found next`.
pub data Outcome : Type 0 where
  retrying : Outcome
  refused : RelayError → Outcome
  stored : ℕ → ℕ → Outcome

-- `loop { let next = ...?; match compare_exchange(current, next) { Ok => return, Err(seen) => ... } }`
pub cas_loop : (ℕ → RelayResult ℕ) → ℕ → List ℕ → Outcome
cas_loop next current [] = elim (next current) [ ok n ↦ retrying | err e ↦ refused e ]
cas_loop next current (seen ∷ rest) =
    let again = cas_loop next seen rest in
    elim (next current) [
      | ok n ↦ (if seen == current then stored current n else again)
      | err e ↦ refused e
    ]

-- The value that each loop tries to store, or its early return.
unfoldable pub increment_bounded_usize : ℕ → String → ℕ → RelayResult ℕ
increment_bounded_usize limit label current =
    if leb limit current then err (over_capacity label) else ok (current + 1)

pub consume_rate : ℕ → ℕ → RelayResult ℕ
consume_rate bytes current =
    if ltb current bytes then err (over_capacity "max_bytes_per_sec") else ok (current - bytes)

pub add_queued_bytes : ℕ → ℕ → ℕ → RelayResult ℕ
add_queued_bytes limit bytes current =
    let next = current + bytes in
    if ltb u64_max next
    then err (over_capacity "max_queued_bytes")
    else if ltb limit next
    then err (over_capacity "max_queued_bytes")
    else ok next

-- `checked_sub(1)` under `fetch_update`, whose failure `drop` ignores.
abbrev pub checked_pred : ℕ → ℕ
checked_pred zero = zero
checked_pred (suc n) = n

pub new : ℕ → ℕ → ℕ → ℕ → CapsInner
new max_servers max_pairs max_bytes_per_sec max_queued_bytes = record {
  max_servers = max_servers;
  max_pairs = max_pairs;
  max_bytes_per_sec = max_bytes_per_sec;
  max_queued_bytes = max_queued_bytes;
  servers = 0;
  pairs = 0;
}

unfoldable pub try_add_server : CapsInner → RelayResult CapsInner
unfolding increment_bounded_usize
try_add_server c = do
  n ← increment_bounded_usize c.max_servers "max_servers" c.servers
  ok (record c { servers = n })

unfoldable pub drop_server_ticket : CapsInner → CapsInner
drop_server_ticket c = record c { servers = checked_pred c.servers }

unfoldable pub try_add_pair : CapsInner → RelayResult (CapsInner × PairTicket)
unfolding increment_bounded_usize
try_add_pair c = do
  n ← increment_bounded_usize c.max_pairs "max_pairs" c.pairs
  let c' : CapsInner = record c { pairs = n }
  ok (
    c',
    record {
      limits = c';
      rate_bucket = c.max_bytes_per_sec;
      rate_remainder_tenths = 0;
      queued_bytes = 0;
    },
  )

unfoldable pub drop_pair_ticket : CapsInner → CapsInner
drop_pair_ticket c = record c { pairs = checked_pred c.pairs }

pub snapshot : CapsInner → CapsSnapshot
snapshot c = record { servers = c.servers; pairs = c.pairs }

pub pair_snapshot : PairTicket → PairCapsSnapshot
pair_snapshot t = record { rate_remaining = t.rate_bucket; queued_bytes = t.queued_bytes }

pub try_consume_rate : PairTicket → ℕ → RelayResult PairTicket
unfolding consume_rate
try_consume_rate t bytes = do
  n ← consume_rate bytes t.rate_bucket
  ok (record t { rate_bucket = n })

-- The whole bytes of one tick, and the tenths of a byte that are carried to the next.
pub tick_bytes : PairTicket → ℕ
tick_bytes t = sat_add64 t.rate_remainder_tenths t.limits.max_bytes_per_sec / 10

pub next_remainder : PairTicket → ℕ
next_remainder t = sat_add64 t.rate_remainder_tenths t.limits.max_bytes_per_sec % 10

pub refill_one_tick : PairTicket → PairTicket
unfolding tick_bytes next_remainder
refill_one_tick t =
    let bytes = tick_bytes t in
    let t' : PairTicket = record t { rate_remainder_tenths = next_remainder t } in
    if bytes == 0
    then t'
    else record t' { rate_bucket = min (sat_add64 t.rate_bucket bytes) t.limits.max_bytes_per_sec }

unfoldable pub try_add_queued_bytes : PairTicket → ℕ → RelayResult PairTicket
unfolding add_queued_bytes
try_add_queued_bytes t bytes = do
  n ← add_queued_bytes t.limits.max_queued_bytes bytes t.queued_bytes
  ok (record t { queued_bytes = n })

pub remove_queued_bytes : PairTicket → ℕ → PairTicket
remove_queued_bytes t bytes = record t { queued_bytes = t.queued_bytes - bytes }
