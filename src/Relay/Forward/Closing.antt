-- ===== src/Relay/Forward/Closing.antt =====
-- crates/relay/relay-core/src/forward.rs: `close_pair`.
use mathlib.Core.List.{append-nil, append_assoc}
use cli_pocket.Prelude.{◌≡◌, refl, Option, none, some, List, [], ◌++◌, ◌==◌, if◌then◌else◌}
use cli_pocket.Prelude.Dict.{lookup, lookup-remove}
use cli_pocket.Proto.Wire.{PairId, pair_close, PairCloseReason}
use cli_pocket.Relay.Registry.{Sender, ServerMsg, ctrl}
use cli_pocket.Relay.State.{Pair, Relay, Outside, done}
use cli_pocket.Relay.Pairs.{remove_pair}
use cli_pocket.Relay.Pairs.Sweep.{
  Encodes, delivered, send_ignored_lem, encode_ctrl_frame_lem, pairs-after_removal,
  sent-after_removal,
}
use cli_pocket.Relay.Forward.{close_pair, notify_closed}

module _ (env : Outside) (enc : Encodes env) where
  -- Both ends of a pair that was in the map are told the reason.
  abbrev pub close_notices : PairId → PairCloseReason → Option Pair → List (Sender × ServerMsg)
  close_notices pair_id reason none = []
  close_notices pair_id reason (some p) =
      let frame = ctrl (enc (pair_close pair_id reason)).0 in
      delivered env p.server_tx frame ++ delivered env p.client_tx frame

  notify_closed_lem :
      (pair_id : PairId) (reason : PairCloseReason) (o : Option Pair) (s : Relay)
      → notify_closed env pair_id reason o s
        ≡ (done tt, record s { sent = s.sent ++ close_notices pair_id reason o })
  unfolding notify_closed
  notify_closed_lem pair_id reason none s = simp append-nil
  notify_closed_lem pair_id reason (some p) s =
      simp (encode_ctrl_frame_lem env enc, send_ignored_lem, append_assoc)

  -- Where frames encode, closing a pair ends, takes out that pair alone, and sends the notices to
  -- its two ends if it was in the map, and nothing otherwise.
  pub close_pair_exact :
      (pair_id : PairId) (reason : PairCloseReason) (s : Relay)
      → let (x, t) = close_pair env pair_id reason s in
        (x ≡ done tt)
        × ((k : PairId) → lookup k t.pairs ≡ (if pair_id == k then none else lookup k s.pairs))
        × (t.sent ≡ s.sent ++ close_notices pair_id reason (lookup pair_id s.pairs))
  unfolding close_pair remove_pair
  close_pair_exact pair_id reason s = rw notify_closed_lem (
    refl,
    λ k. rw (pairs-after_removal pair_id s) (lookup-remove pair_id k s.pairs),
    rw (sent-after_removal pair_id (lookup pair_id s.pairs) s) refl,
  )
