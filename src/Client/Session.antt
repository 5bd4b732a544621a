-- ===== src/Client/Session.antt =====
-- crates/client/client-core/src/session.rs: the loop of a session (`run_session_loop`), which connects again
-- and again. What the world does in one round of the loop is an `Attempt`.
pub mod Retries
use cli_pocket.Prelude.{
  ℕ, ◌≡◌, refl, Bool, true, false, not, ◌&&◌, ◌||◌, List, [], ◌∷◌, Result, ok, err, if◌then◌else◌,
}
use cli_pocket.Client.Errors.{
  ClientError, ClientEvent, Reason, shown, told, connecting, disconnected,
}
use cli_pocket.Client.Reconnect.{next_delay, jitter}

unfoldable pub should_retry_after_disconnect : ClientError → Bool
should_retry_after_disconnect (ClientError.rejected _) = false
should_retry_after_disconnect ClientError.closed = false
should_retry_after_disconnect _ = true

-- Whether `stop_requested` is set when it is looked at; how connecting goes; whether the connection was
-- set up and how it ended; the random byte for the pause.
pub record Attempt : Type 0 where
  pub stop_before : Bool
  pub connect : Result ClientError (Unit {0})
  pub stop_after : Bool
  pub reached_connected : Bool
  pub outcome : Result ClientError (Unit {0})
  pub stop_late : Bool
  pub random : ℕ

pub data Happening : Type 0 where
  event : ClientEvent → Happening
  pause : ℕ → Happening

-- `SessionConfig::backoff`.
pub record Backoff : Type 0 where
  pub start : ℕ
  pub max_ms : ℕ
  pub mul_x10 : ℕ

-- `rest` is the rest of the loop, for the next delay.
abbrev pub paused : Backoff → Attempt → ℕ → (ℕ → List Happening) → List Happening
paused b a delay rest = pause (jitter delay a.random) ∷ rest (next_delay delay b.max_ms b.mul_x10)

abbrev pub after_failure :
    Backoff → Attempt → Bool → ℕ → ClientError → (ℕ → List Happening) → List Happening
after_failure b a ever_connected delay e rest =
    if a.stop_after
    then []
    else let will_retry = ever_connected && should_retry_after_disconnect e in
      event (disconnected will_retry (shown e)) ∷ (if will_retry then paused b a delay rest else [])

abbrev pub may_retry : Result ClientError (Unit {0}) → Bool → Bool
may_retry (ok _) connected_once = connected_once
may_retry (err e) connected_once = should_retry_after_disconnect e && connected_once

abbrev pub reason_of : Result ClientError (Unit {0}) → Reason
reason_of (ok _) = told "remote closed"
reason_of (err e) = shown e

abbrev pub after_connection : Backoff → Attempt → Bool → ℕ → (ℕ → List Happening) → List Happening
after_connection b a connected_once delay rest =
    if a.stop_after
    then []
    else let will_retry = may_retry a.outcome connected_once in
      event (disconnected will_retry (reason_of a.outcome))
      ∷ (if will_retry then if a.stop_late then [] else paused b a delay rest else [])

abbrev pub round :
    Backoff
    → Attempt
    → Bool
    → ℕ
    → Result ClientError (Unit {0})
    → (Bool → ℕ → List Happening)
    → List Happening
round b a ever_connected delay (err e) rest =
    after_failure b a ever_connected delay e (rest ever_connected)
round b a ever_connected delay (ok _) rest =
    let connected_once = a.reached_connected || ever_connected in
    after_connection b a connected_once (if a.reached_connected then b.start else delay)
      (rest connected_once)

-- What the user of the session is told, and the pauses, until the loop ends or the attempts do.
unfoldable pub run_session_loop : Backoff → List Attempt → Bool → ℕ → List Happening
run_session_loop b [] ever_connected delay = []
run_session_loop b (a ∷ attempts) ever_connected delay =
    if a.stop_before
    then []
    else event connecting ∷ round b a ever_connected delay a.connect (run_session_loop b attempts)
