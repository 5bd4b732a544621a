-- ===== src/Relay/Pairs/Sweep.antt =====
-- crates/relay/relay-core/src/guillotine.rs: what a sweep does.
use mathlib.Core.List.{append-nil}
use cli_pocket.Prelude.{
  ◌≡◌, Bool, not, ◌&&◌, ◌||◌, Option, none, some, List, [], ◌∷◌, ◌++◌, ok, if◌then◌else◌, arith,
}
use cli_pocket.Prelude.Dict.{Dict, lookup, remove, remove_absent}
use cli_pocket.Proto.Wire.{Bytes, PairId, RelayCtrl, pair_close, stuck}
use cli_pocket.Proto.Codec.{encode_relay_ctrl}
use cli_pocket.Relay.Registry.{Sender, ServerMsg, ctrl}
use cli_pocket.Relay.State.{Pair, Relay, Outside, Exit, done}
use cli_pocket.Relay.Pairs.{
  encode_ctrl_frame, send_ignored, Progress, finished, waits, after_removal, release_ticket,
}
use cli_pocket.Relay.Pairs.Keyed.{named}

-- The frames that reach a channel: none if its receiver is gone.
abbrev pub delivered : Outside → Sender → ServerMsg → List (Sender × ServerMsg)
delivered env tx msg = if env.alive tx then (tx, msg) ∷ [] else []

-- What the `expect` of `encode_ctrl_frame` and `encode_data_frame` relies on.
abbrev pub Encodes : Outside → Type 0
Encodes env = (c : RelayCtrl) → (b : Bytes) × (encode_relay_ctrl env.codec c ≡ ok b)

-- The effect of the relay's primitive actions, as equations.
pub send_ignored_lem :
    (env : Outside) (tx : Sender) (msg : ServerMsg) (s : Relay)
    → send_ignored env tx msg s ≡ (done tt, record s { sent = s.sent ++ delivered env tx msg })
unfolding send_ignored
send_ignored_lem env tx msg s = ground (arith, append-nil s.sent)

pub encode_ctrl_frame_lem :
    (env : Outside) (enc : Encodes env) (c : RelayCtrl) (s : Relay)
    → encode_ctrl_frame env c s ≡ (done (enc c).0, s)
unfolding encode_ctrl_frame
encode_ctrl_frame_lem env enc c s = rw (enc c).1

pub pairs-after_removal :
    (k : PairId) (s : Relay) → (after_removal k (lookup k s.pairs) s).pairs ≡ remove k s.pairs
unfolding release_ticket
pairs-after_removal k s = ground (arith, remove_absent k s.pairs)

pub sent-after_removal :
    (k : PairId) (o : Option Pair) (s : Relay) → (after_removal k o s).sent ≡ s.sent
unfolding release_ticket
sent-after_removal k o s = ground arith

-- A channel whose receiver is there and whose queue stays full.
abbrev pub is_full : Outside → Sender → Bool
is_full env tx = env.alive tx && not (env.has_room tx)

abbrev pub is_blocked : Outside → Pair → Bool
is_blocked env p = is_full env p.server_tx || is_full env p.client_tx

-- The pairs before the first one that blocks the sweep, and that one.
abbrev pub reached : Outside → List Pair → List Pair
reached env [] = []
reached env (p ∷ ps) = let rest = reached env ps in if is_blocked env p then [] else p ∷ rest

abbrev pub blocking : Outside → List Pair → Option Pair
blocking env [] = none
blocking env (p ∷ ps) = let rest = blocking env ps in if is_blocked env p then some p else rest

abbrev pub progress_of : Option Pair → Progress
progress_of none = finished
progress_of (some p) = waits

module _ (env : Outside) (enc : Encodes env) where
  -- Both ends of a stuck pair are told so.
  abbrev pub stuck_notices : List Pair → List (Sender × ServerMsg)
  stuck_notices [] = []
  stuck_notices (p ∷ ps) =
      let frame = ctrl (enc (pair_close p.pair_id stuck)).0 in
      delivered env p.server_tx frame ++ (delivered env p.client_tx frame ++ stuck_notices ps)

  -- What a pair that blocks the sweep is told before: the server's end, if that is not the full one.
  abbrev pub last_notices : Option Pair → List (Sender × ServerMsg)
  last_notices none = []
  last_notices (some p) =
      if is_full env p.server_tx
      then []
      else delivered env p.server_tx (ctrl (enc (pair_close p.pair_id stuck)).0)

  -- What the loop over `l` comes to.
  record Swept (l : List Pair) (s : Relay) (out : Exit Progress × Relay) : Type 0 where
    course : out.0 ≡ done (progress_of (blocking env l))
    left_over :
        (k : PairId)
        → lookup k out.1.pairs ≡ (if named k (reached env l) then none else lookup k s.pairs)
    told : out.1.sent ≡ s.sent ++ (stuck_notices (reached env l) ++ last_notices (blocking env l))
