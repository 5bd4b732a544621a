-- ===== src/Client/Session/Retries.antt =====
-- crates/client/client-core/src/session.rs: when the session connects again, and when it does not.
use cli_pocket.Prelude.{
  ℕ, suc, ◌+◌, ◌-◌, ◌*◌, ◌/◌, ◌^◌, ◌≤◌, ◌<◌, min, u64_max, sym, ◌==◌, ◌≡◌, refl, ◌∙◌, ap, Bool,
  true, false, List, [], ◌∷◌, ok, err, if◌then◌else◌, arith, subst,
}
use cli_pocket.Proto.Frames.{Frame, ByeReason}
use cli_pocket.Client.Errors.{ClientError, shown, connecting, disconnected, closed, rejected}
use cli_pocket.Client.Reconnect.{
  next_delay, jitter, delay_after, delay_after-reaches, jitter-bounds,
}
use cli_pocket.Client.Runtime.{RuntimeState, exit_with}
use cli_pocket.Client.Runtime.Responses.{handle_inbound_frame, is_recoverable_bye}
use cli_pocket.Client.Session.{
  Attempt, Happening, Backoff, event, pause, run_session_loop, should_retry_after_disconnect,
}

bye_not_retried :
    (recoverable : Bool) (reason : ByeReason)
    → should_retry_after_disconnect (if recoverable then closed else rejected reason) ≡ false
unfolding should_retry_after_disconnect
bye_not_retried true reason = refl
bye_not_retried false reason = refl

-- The last round of a session.
ends_there :
    (e : ClientError) (b : Backoff) (a : Attempt) (attempts : List Attempt) (ever_connected : Bool)
    (delay : ℕ)
    → should_retry_after_disconnect e ≡ false
    → a.connect ≡ ok tt
    → a.outcome ≡ err e
    → a.stop_before ≡ false
    → a.stop_after ≡ false
    → run_session_loop b (a ∷ attempts) ever_connected delay
      ≡ event connecting ∷ event (disconnected false (shown e)) ∷ []
unfolding run_session_loop
ends_there e b a attempts ever_connected delay h c o before after = ground arith

-- When a connection that was made, with no stop requested, ends in the error of a `Bye` from the
-- daemon, whatever its reason, also a recoverable one, the session tells that it does not try
-- again, and ends.
pub bye_is_final :
    (reason : ByeReason) (s : RuntimeState) (e : ClientError) (b : Backoff) (a : Attempt)
    (attempts : List Attempt) (ever_connected : Bool) (delay : ℕ)
    → (handle_inbound_frame (Frame.bye reason) s).0 ≡ ok (exit_with (err e))
    → a.connect ≡ ok tt
    → a.outcome ≡ err e
    → a.stop_before ≡ false
    → a.stop_after ≡ false
    → run_session_loop b (a ∷ attempts) ever_connected delay
      ≡ event connecting ∷ event (disconnected false (shown e)) ∷ []
unfolding handle_inbound_frame
bye_is_final reason s e b a attempts ever_connected delay h c o before after =
    let same : (if is_recoverable_bye reason then closed else rejected reason) ≡ e = cc in
    ends_there e b a attempts ever_connected delay
      (subst (λ x. should_retry_after_disconnect x ≡ false) same
        (bye_not_retried (is_recoverable_bye reason) reason))
      c o before after

-- Attempts to connect that fail with errors after which it is worth to try again.
abbrev pub AreRetryable : List Attempt → Type 0
AreRetryable [] = Unit {0}
AreRetryable (a ∷ attempts) =
    ((e : ClientError) × (a.connect ≡ err e) × (should_retry_after_disconnect e ≡ true))
    × (a.stop_before ≡ false)
    × (a.stop_after ≡ false)
    × AreRetryable attempts

abbrev pub pauses : List Happening → List ℕ
pauses [] = []
pauses (event e ∷ rest) = pauses rest
pauses (pause ms ∷ rest) = ms ∷ pauses rest

-- The pauses of `n` failures in a row from the `k`-th on: `delay_after` with jitter.
abbrev pub backed_off : Backoff → ℕ → List Attempt → ℕ → List ℕ
backed_off b k [] start = []
backed_off b k (a ∷ attempts) start =
    jitter (delay_after k start b.max_ms b.mul_x10) a.random ∷ backed_off b (suc k) attempts start

failed_round :
    (b : Backoff) (a : Attempt) (attempts : List Attempt) (delay : ℕ) (e : ClientError)
    → a.connect ≡ err e
    → should_retry_after_disconnect e ≡ true
    → a.stop_before ≡ false
    → a.stop_after ≡ false
    → run_session_loop b (a ∷ attempts) true delay
      ≡ event connecting
        ∷ event (disconnected true (shown e))
        ∷ pause (jitter delay a.random)
        ∷ run_session_loop b attempts true (next_delay delay b.max_ms b.mul_x10)
unfolding run_session_loop
failed_round b a attempts delay e c h before after = ground arith

pauses-run_session_loop :
    (b : Backoff) (attempts : List Attempt) (k start : ℕ)
    → AreRetryable attempts
    → pauses (run_session_loop b attempts true (delay_after k start b.max_ms b.mul_x10))
      ≡ backed_off b k attempts start
unfolding run_session_loop delay_after
pauses-run_session_loop b [] k start h = refl
pauses-run_session_loop b (a ∷ attempts) k start ((e, c, r), before, after, h) =
    ap pauses
      (failed_round b a attempts (delay_after k start b.max_ms b.mul_x10) e c r before after)
    ∙ ap (λ ms. jitter (delay_after k start b.max_ms b.mul_x10) a.random ∷ ms)
        (pauses-run_session_loop b attempts (suc k) start h)

abbrev pub AreBytes : List Attempt → Type 0
AreBytes [] = Unit {0}
AreBytes (a ∷ attempts) = (a.random < 256) × AreBytes attempts

-- One pause for each attempt. Without a quarter to both sides, the one after the `k`-th failure is at
-- least 50 ms doubled `k` times, or the limit, and never above the limit.
abbrev pub AreDoubling : ℕ → ℕ → List Attempt → List ℕ → Type 0
AreDoubling max_ms k [] [] = Unit {0}
AreDoubling max_ms k (a ∷ attempts) (ms ∷ rest) =
    let least = min (50 * 2 ^ k) max_ms in
    (least - least / 4 ≤ ms) × (ms ≤ max_ms + max_ms / 4) × AreDoubling max_ms (suc k) attempts rest
AreDoubling max_ms k _ _ = ⊥

three_quarters : (least base : ℕ) → least ≤ base → least - least / 4 ≤ base - base / 4
three_quarters least base h = omega arith

at_most :
    (base max_ms ms : ℕ)
    → base ≤ max_ms
    → 50 ≤ max_ms
    → ms ≤ (if base == 0 then 1 else base + base / 4)
    → ms ≤ max_ms + max_ms / 4
at_most base max_ms ms h k up = ground arith

five_quarters :
    (base max_ms : ℕ) → base ≤ max_ms → max_ms + max_ms / 4 ≤ u64_max → base + base / 4 ≤ u64_max
five_quarters base max_ms h k = omega arith

module _ (b : Backoff) (start : ℕ) (factor : 20 ≤ b.mul_x10) (low : 50 ≤ start)
    (high : start ≤ b.max_ms) (fits : b.max_ms + b.max_ms / 4 ≤ u64_max) where
  backed_off-AreDoubling :
      (attempts : List Attempt) (k : ℕ)
      → AreBytes attempts
      → AreDoubling b.max_ms k attempts (backed_off b k attempts start)
  backed_off-AreDoubling [] k bytes = tt
  backed_off-AreDoubling (a ∷ attempts) k bytes =
      let base = delay_after k start b.max_ms b.mul_x10 in
      let (grown, limited) =
        delay_after-reaches k start b.max_ms b.mul_x10 factor low high (omega (arith, fits)) in
      let (one, down, up) =
        jitter-bounds base a.random (bytes.0) (five_quarters base b.max_ms limited fits) in
      (
        omega (arith, down, three_quarters (min (50 * 2 ^ k) b.max_ms) base grown),
        at_most base b.max_ms (jitter base a.random) limited (omega (arith, low, high)) up,
        backed_off-AreDoubling attempts (suc k) (bytes.1),
      )

  -- In a session that was connected once, when attempts to connect fail with errors that are no
  -- rejection and no close, and no stop is requested, each attempt is followed by a pause. With a
  -- factor of two at least, a first delay between 50 ms and the limit, a limit that fits 64 bits with a
  -- quarter of it added, and random bytes: the pause after the `k`-th failure, counted from 0, is at
  -- least three quarters of 50 ms doubled `k` times, or of the limit, and at most five quarters of
  -- the limit.
  pub pauses_double :
      (attempts : List Attempt)
      → AreRetryable attempts
      → AreBytes attempts
      → AreDoubling b.max_ms 0 attempts (pauses (run_session_loop b attempts true start))
  unfolding delay_after
  pauses_double attempts h bytes =
      subst (AreDoubling b.max_ms 0 attempts) (sym (pauses-run_session_loop b attempts 0 start h))
        (backed_off-AreDoubling attempts 0 bytes)

-- Before the first connection there is no second attempt.
pub no_retry_before_connection :
    (b : Backoff) (a : Attempt) (attempts : List Attempt) (delay : ℕ) (e : ClientError)
    → a.connect ≡ err e
    → a.stop_before ≡ false
    → a.stop_after ≡ false
    → run_session_loop b (a ∷ attempts) false delay
      ≡ event connecting ∷ event (disconnected false (shown e)) ∷ []
unfolding run_session_loop
no_retry_before_connection b a attempts delay e c before after = ground arith
