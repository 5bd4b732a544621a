-- ===== src/Relay/Pairs.antt =====
-- crates/relay/relay-core/src/pairs.rs and guillotine.rs: the live pairs, and the sweeper that closes
-- those which make no progress. Instants and durations are numbers of one unit.
pub mod Keyed
pub mod Sweep
use cli_pocket.Prelude.{
  ℕ, ◌-◌, Bool, true, false, ◌||◌, Option, none, some, List, [], ◌∷◌, ◌++◌, ltb, ◌==◌,
  if◌then◌else◌, keep,
}
use cli_pocket.Prelude.Dict.{Dict, lookup, insert, remove, values, contains_key}
use cli_pocket.Proto.Wire.{
  Bytes, PairId, ServerId, RelayCtrl, RelayData, pair_close, PairCloseReason, stuck,
}
use cli_pocket.Proto.Codec.{encode_relay_ctrl, encode_relay_data}
use cli_pocket.Relay.Caps.{drop_pair_ticket}
use cli_pocket.Relay.Errors.{protocol}
use cli_pocket.Relay.Registry.{Sender, ServerMsg, ctrl}
use cli_pocket.Relay.State.{
  Pair, Relay, Outside, Exit, done, M, ◌>>=◌, ◌>>◌, pure, fail, expect, gets, modify,
}

abbrev pub is_held : PairId → List PairId → Bool
is_held pair_id [] = false
is_held pair_id (p ∷ ps) = p == pair_id || is_held pair_id ps

-- The ticket of a pair that left the map, or whose task ended, goes with its last holder.
unfoldable pub release_ticket : PairId → Relay → Relay
release_ticket pair_id s =
    if is_held pair_id s.held || contains_key pair_id s.pairs
    then s
    else record s { caps = drop_pair_ticket s.caps }

-- `PairManager::insert`, `get`, `list_for_sweep`.
unfoldable pub insert_pair : Pair → M (Option Pair)
insert_pair pair s =
    (done (lookup pair.pair_id s.pairs), record s { pairs = insert pair.pair_id pair s.pairs })

unfoldable pub get_pair : PairId → M (Option Pair)
get_pair pair_id = gets (λ s. lookup pair_id s.pairs)

unfoldable pub list_for_sweep : M (List Pair)
list_for_sweep = gets (λ s. values s.pairs)

abbrev pub after_removal : PairId → Option Pair → Relay → Relay
after_removal pair_id none s = s
after_removal pair_id (some pair) s =
    release_ticket pair_id (record s { pairs = remove pair_id s.pairs })

-- `PairManager::remove`, with what the end of the returned `Arc` does.
unfoldable pub remove_pair : PairId → M (Option Pair)
remove_pair pair_id s =
    let found = lookup pair_id s.pairs in (done found, after_removal pair_id found s)

abbrev pub stamp : ℕ → PairId → Option Pair → Dict Pair → Dict Pair
stamp now pair_id none pairs = pairs
stamp now pair_id (some pair) pairs = insert pair_id (record pair { last_progress = now }) pairs

-- `Pair::touch` on a shared pair. A pair that left the map has no reader of the marker left.
unfoldable pub touch : ℕ → PairId → M (Unit {0})
touch now pair_id =
    modify (λ s. record s { pairs = stamp now pair_id (lookup pair_id s.pairs) s.pairs })

-- `duration_since` is 0 where the marker is later than `now`.
abbrev pub is_idle : ℕ → ℕ → Pair → Bool
is_idle threshold now pair = ltb threshold (now - pair.last_progress)

-- How a part of a sweep goes: to its end, or no further.
pub data Progress : Type 0 where
  finished waits : Progress

abbrev pub go_on : Progress → M Progress → M Progress
go_on finished rest = rest
go_on waits rest = pure waits

module _ (env : Outside) where
  unfoldable pub encode_ctrl_frame : RelayCtrl → M Bytes
  encode_ctrl_frame c = expect (encode_relay_ctrl env.codec c)

  unfoldable pub encode_data_frame : RelayData → M Bytes
  encode_data_frame d = expect (encode_relay_data env.codec d)

  unfoldable pub send_server_msg : Sender → ServerMsg → M (Unit {0})
  send_server_msg tx msg =
      if env.alive tx
      then modify (λ s. record s { sent = s.sent ++ (tx, msg) ∷ [] })
      else fail (protocol "relay peer writer closed")

  -- `let _ = tx.send(msg).await`.
  unfoldable pub send_ignored : Sender → ServerMsg → M (Unit {0})
  send_ignored tx msg =
      if env.alive tx then modify (λ s. record s { sent = s.sent ++ (tx, msg) ∷ [] }) else pure tt

  -- The same in the sweeper: a queue that stays full makes it wait for ever.
  unfoldable pub send_or_wait : Sender → ServerMsg → M Progress
  send_or_wait tx msg =
      if env.alive tx
      then if env.has_room tx
        then (λ s. (done finished, record s { sent = s.sent ++ (tx, msg) ∷ [] }))
        else pure waits
      else pure finished

  -- `PairHandle::close_stuck`.
  unfoldable pub close_stuck : Pair → M Progress
  unfolding ◌>>=◌
  close_stuck pair = do
    frame ← encode_ctrl_frame (pair_close pair.pair_id stuck)
    told ← send_or_wait pair.server_tx (ctrl frame)
    go_on told (send_or_wait pair.client_tx (ctrl frame))

  -- The loop of `sweep_once` over the pairs to kill.
  unfoldable pub kill_all : List Pair → M Progress
  unfolding ◌>>=◌
  kill_all [] = pure finished
  kill_all (pair ∷ rest) = do
    closed ← close_stuck pair
    go_on closed (do remove_pair pair.pair_id; kill_all rest)

  unfoldable pub sweep_once : ℕ → ℕ → M Progress
  unfolding list_for_sweep ◌>>=◌
  sweep_once threshold now = do live ← list_for_sweep; kill_all (keep (is_idle threshold now) live)
