-- ===== src/Relay/Forward/Quiet.antt =====
-- crates/relay/relay-core/src/forward.rs: the actions that leave the registered servers alone.
use cli_pocket.Prelude.{
  ◌≡◌, refl, ◌∙◌, Option, none, some, List, [], ◌∷◌, Result, ok, err, ℕ, arith, if◌then◌else◌, Bool,
  true, false,
}
use cli_pocket.Proto.Wire.{
  Bytes, PairId, ServerId, RelayCtrl, RelayData, PairCloseReason, forward, pair_close,
}
use cli_pocket.Proto.Codec.{RelayWire}
use cli_pocket.Relay.Caps.{drop_pair_ticket}
use cli_pocket.Relay.Errors.{RelayError}
use cli_pocket.Relay.Registry.{Sender, ServerMsg}
use cli_pocket.Relay.State.{
  Pair, Relay, Outside, M, Exit, done, failed, panicked, ◌>>=◌, pure, fail, lift, gets, expect,
  resume,
}
use cli_pocket.Relay.Pairs.{
  release_ticket, get_pair, list_for_sweep, remove_pair, touch, encode_ctrl_frame,
  encode_data_frame, send_server_msg, send_ignored,
}
use cli_pocket.Relay.Forward.Sockets.{
  Item, received, broken, Message, text, binary, ping, pong, close,
}
use cli_pocket.Relay.Forward.{
  notify_closed, close_pair, forward_to, server_on_wire, server_loop, close_all, server_read_loop,
}

pub record SameServers (s t : Relay) : Type 0 where
  pub registry : t.registry ≡ s.registry
  pub servers : t.caps.servers ≡ s.caps.servers

pub record Quiet {A : Type 0} (m : M A) : Type 0 where
  pub at : (s : Relay) → SameServers s (m s).1

module _ {A : Type 0} where
  Quiet-pure : (a : A) → Quiet (pure a)
  Quiet-pure a = record { at = λ s. record { registry = refl; servers = refl } }

  Quiet-fail : (e : RelayError) → Quiet (fail {A = A} e)
  Quiet-fail e = record { at = λ s. record { registry = refl; servers = refl } }

  Quiet-lift : (r : Result RelayError A) → Quiet (lift r)
  Quiet-lift (ok a) = Quiet-pure a
  Quiet-lift (err e) = Quiet-fail e

  Quiet-gets : (f : Relay → A) → Quiet (gets f)
  Quiet-gets f = record { at = λ s. record { registry = refl; servers = refl } }

  Quiet-expect : {E : Type 0} (r : Result E A) → Quiet (expect r)
  Quiet-expect (ok a) = record { at = λ s. record { registry = refl; servers = refl } }
  Quiet-expect (err e) = record { at = λ s. record { registry = refl; servers = refl } }

  Quiet-if : (b : Bool) (m n : M A) → Quiet m → Quiet n → Quiet (if b then m else n)
  Quiet-if true m n km kn = km
  Quiet-if false m n km kn = kn

module _ {A B : Type 0} where
  Quiet-resume :
      (x : Exit A) (f : A → M B) (s : Relay)
      → ((a : A) → Quiet (f a))
      → SameServers s (resume x f s).1
  Quiet-resume (done a) f s k = (k a).at s
  Quiet-resume (failed e) f s k = record { registry = refl; servers = refl }
  Quiet-resume panicked f s k = record { registry = refl; servers = refl }

  pub Quiet-bind : (m : M A) (f : A → M B) → Quiet m → ((a : A) → Quiet (f a)) → Quiet (m >>= f)
  unfolding ◌>>=◌
  Quiet-bind m f km kf = record {
    at = λ s.
        let (x, t) = m s in
        let rest = Quiet-resume x f t kf in
        let first = km.at s in
        record {
          registry = rest.registry ∙ first.registry;
          servers = rest.servers ∙ first.servers;
        };
  }

Quiet-remove_pair : (pair_id : PairId) → Quiet (remove_pair pair_id)
unfolding remove_pair release_ticket drop_pair_ticket
Quiet-remove_pair pair_id = record { at = λ s. ground arith }

Quiet-get_pair : (pair_id : PairId) → Quiet (get_pair pair_id)
unfolding get_pair
Quiet-get_pair pair_id = Quiet-gets _

Quiet-touch : (now : ℕ) (pair_id : PairId) → Quiet (touch now pair_id)
unfolding touch
Quiet-touch now pair_id = record { at = λ s. record { registry = refl; servers = refl } }

module _ (env : Outside) where
  pub Quiet-encode_ctrl_frame : (c : RelayCtrl) → Quiet (encode_ctrl_frame env c)
  unfolding encode_ctrl_frame
  Quiet-encode_ctrl_frame c = Quiet-expect _

  Quiet-encode_data_frame : (d : RelayData) → Quiet (encode_data_frame env d)
  unfolding encode_data_frame
  Quiet-encode_data_frame d = Quiet-expect _

  pub Quiet-send_server_msg : (tx : Sender) (msg : ServerMsg) → Quiet (send_server_msg env tx msg)
  unfolding send_server_msg
  Quiet-send_server_msg tx msg = record { at = λ s. ground arith }

  Quiet-send_ignored : (tx : Sender) (msg : ServerMsg) → Quiet (send_ignored env tx msg)
  unfolding send_ignored
  Quiet-send_ignored tx msg = record { at = λ s. ground arith }

ruleset quiet_rules = (
  Quiet-pure, Quiet-fail, Quiet-lift, Quiet-gets, Quiet-if, Quiet-bind, Quiet-remove_pair,
  Quiet-get_pair, Quiet-touch, Quiet-encode_ctrl_frame, Quiet-encode_data_frame,
  Quiet-send_server_msg, Quiet-send_ignored,
)

module _ (env : Outside) where
  Quiet-notify_closed :
      (pair_id : PairId) (reason : PairCloseReason) (o : Option Pair)
      → Quiet (notify_closed env pair_id reason o)
  unfolding notify_closed
  Quiet-notify_closed pair_id reason none = search quiet_rules
  Quiet-notify_closed pair_id reason (some p) = search quiet_rules

  pub Quiet-close_pair :
      (pair_id : PairId) (reason : PairCloseReason) → Quiet (close_pair env pair_id reason)
  unfolding close_pair
  Quiet-close_pair pair_id reason = search (quiet_rules, Quiet-notify_closed)

  Quiet-forward_to :
      (server_id : ServerId) (tx : Sender) (now : ℕ) (pair_id : PairId) (bytes : Bytes)
      (o : Option Pair)
      → Quiet (forward_to env server_id tx now pair_id bytes o)
  unfolding forward_to
  Quiet-forward_to server_id tx now pair_id bytes none = search quiet_rules
  Quiet-forward_to server_id tx now pair_id bytes (some p) = search quiet_rules

  Quiet-server_on_wire :
      (server_id : ServerId) (tx : Sender) (now : ℕ) (w : RelayWire)
      → Quiet (server_on_wire env server_id tx now w)
  unfolding server_on_wire
  Quiet-server_on_wire server_id tx now (RelayWire.ctrl (pair_close pair_id reason)) =
      Quiet-close_pair pair_id reason
  Quiet-server_on_wire server_id tx now (RelayWire.ctrl other) = Quiet-pure tt
  Quiet-server_on_wire server_id tx now (RelayWire.payload (forward pair_id bytes)) =
      search (quiet_rules, Quiet-forward_to)

  Quiet-server_loop :
      (server_id : ServerId) (tx : Sender) (stream : List (ℕ × Item))
      → Quiet (server_loop env server_id tx stream)
  unfolding server_loop
  Quiet-server_loop server_id tx [] = Quiet-pure tt
  Quiet-server_loop server_id tx ((now, broken e) ∷ rest) = Quiet-fail _
  Quiet-server_loop server_id tx ((now, received (binary bytes)) ∷ rest) =
      Quiet-bind _ _ (Quiet-lift _) (λ w.
        Quiet-bind _ _ (Quiet-server_on_wire server_id tx now w)
          (λ _. Quiet-server_loop server_id tx rest))
  Quiet-server_loop server_id tx ((now, received close) ∷ rest) = Quiet-pure tt
  Quiet-server_loop server_id tx ((now, received (ping b)) ∷ rest) =
      Quiet-server_loop server_id tx rest
  Quiet-server_loop server_id tx ((now, received (pong b)) ∷ rest) =
      Quiet-server_loop server_id tx rest
  Quiet-server_loop server_id tx ((now, received (text b)) ∷ rest) = Quiet-fail _
  Quiet-server_loop server_id tx ((now, received (Message.frame b)) ∷ rest) = Quiet-fail _

  Quiet-close_all :
      (reason : PairCloseReason) (ids : List PairId) → Quiet (close_all env reason ids)
  unfolding close_all
  Quiet-close_all reason [] = Quiet-pure tt
  Quiet-close_all reason (p ∷ ids) =
      Quiet-bind _ _ (Quiet-close_pair p reason) (λ _. Quiet-close_all reason ids)

  pub Quiet-server_read_loop :
      (server_id : ServerId) (tx : Sender) (stream : List (ℕ × Item))
      → Quiet (server_read_loop env server_id tx stream)
  unfolding server_read_loop list_for_sweep
  Quiet-server_read_loop server_id tx stream =
      search (quiet_rules, Quiet-server_loop, Quiet-close_all)
