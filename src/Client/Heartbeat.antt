-- ===== src/Client/Heartbeat.antt =====
-- crates/client/client-core/src/session.rs: `HeartbeatState`. Instants are in milliseconds; the nonce of a
-- ping is left out.
use cli_pocket.Prelude.{
  ℕ, suc, ◌+◌, ◌-◌, ◌≤◌, ◌<◌, ◌≡◌, ◌≢◌, refl, Bool, true, false, List, [], ◌∷◌, leb, ltb,
  if◌then◌else◌, arith,
}

abbrev pub heartbeat_idle_ms : ℕ
heartbeat_idle_ms = 10000

abbrev pub heartbeat_timeout_ms : ℕ
heartbeat_timeout_ms = 30000

pub record HeartbeatState : Type 0 where
  pub last_inbound_at_ms : ℕ
  pub ping_outstanding : Bool

pub data HeartbeatPoll : Type 0 where
  send_ping timeout wait : HeartbeatPoll

unfoldable pub start_heartbeat : ℕ → HeartbeatState
start_heartbeat now_ms = record { last_inbound_at_ms = now_ms; ping_outstanding = false }

unfoldable pub on_inbound : HeartbeatState → ℕ → HeartbeatState
on_inbound s now_ms = record { last_inbound_at_ms = now_ms; ping_outstanding = false }

unfoldable pub poll : HeartbeatState → ℕ → HeartbeatState × HeartbeatPoll
poll s now_ms =
    let elapsed_ms = now_ms - s.last_inbound_at_ms in
    if s.ping_outstanding
    then (s, if leb heartbeat_timeout_ms elapsed_ms then timeout else wait)
    else if leb heartbeat_idle_ms elapsed_ms
    then (record s { ping_outstanding = true }, send_ping)
    else (s, wait)

abbrev at_least_one : ℕ → ℕ
at_least_one n = if ltb n 1 then 1 else n

unfoldable pub sleep_ms : HeartbeatState → ℕ → ℕ
sleep_ms s now_ms =
    let elapsed_ms = now_ms - s.last_inbound_at_ms in
    at_least_one (
      if s.ping_outstanding
      then heartbeat_timeout_ms - elapsed_ms
      else heartbeat_idle_ms - elapsed_ms)

-- A loop that polled, had to wait and slept for `sleep_ms` without a frame has something to do at the
-- next poll, and not a millisecond earlier: it never sleeps in vain, and never too long.
pub sleep_exact :
    (s : HeartbeatState) (now_ms : ℕ)
    → s.last_inbound_at_ms ≤ now_ms
    → (poll s now_ms).1 ≡ wait
    → ((poll s (now_ms + sleep_ms s now_ms)).1 ≢ wait)
      × ((early : ℕ) → early < now_ms + sleep_ms s now_ms → (poll s early).1 ≡ wait)
unfolding poll sleep_ms
sleep_exact s now_ms h waiting = (λ e. ground arith, λ early k. ground arith)

-- Polls at the instants of the list, with no frame in between: what they answer.
unfoldable pub polls : HeartbeatState → List ℕ → List HeartbeatPoll
polls s [] = []
polls s (now ∷ later) = let (s', p) = poll s now in p ∷ polls s' later

abbrev pub pings : List HeartbeatPoll → ℕ
pings [] = 0
pings (send_ping ∷ ps) = suc (pings ps)
pings (_ ∷ ps) = pings ps

no_more_pings :
    (s : HeartbeatState) (times : List ℕ) → s.ping_outstanding ≡ true → pings (polls s times) ≡ 0
unfolding polls poll
no_more_pings s [] h = refl
no_more_pings s (now ∷ later) h = ground (arith, no_more_pings s later)

-- However often and whenever it polls, a client sends one ping at most between two frames.
pub one_ping : (s : HeartbeatState) (times : List ℕ) → pings (polls s times) ≤ 1
unfolding polls poll
one_ping s [] = omega arith
one_ping s (now ∷ later) =
    ground
      (arith, one_ping s later, no_more_pings (record s { ping_outstanding = true }) later refl)
