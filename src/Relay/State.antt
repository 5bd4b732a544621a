-- ===== src/Relay/State.antt =====
-- crates/relay/relay-core: the state that the tasks of the relay share, and their effects on it.
--
-- A task's code between two points where other tasks matter is an action of `M`: it changes the
-- shared state and is done, fails with an error, or panics. What was changed before a failure stays.
use cli_pocket.Prelude.{ℕ, Bool, String, List, Result, ok, err}
use cli_pocket.Prelude.Dict.{Dict}
use cli_pocket.Proto.Wire.{PairId, ServerId}
use cli_pocket.Proto.Codec.{Postcard, CodecError}
use cli_pocket.Relay.Errors.{RelayError}
use cli_pocket.Relay.Caps.{CapsInner}
use cli_pocket.Relay.Registry.{Sender, ServerMsg, ServerRegistry}

-- `Pair` of pairs.rs. Its ticket's meters are not used by the forwarder and are left out here.
pub record Pair : Type 0 where
  pub pair_id : PairId
  pub server_id : ServerId
  pub created_at : ℕ
  pub last_progress : ℕ
  pub server_tx : Sender
  pub client_tx : Sender

-- `held` lists the pairs that a running client task shares: a pair's ticket is dropped when neither
-- the map nor such a task holds the pair. `sent` lists what was put into the channels, oldest first.
pub record Relay : Type 0 where
  pub caps : CapsInner
  pub registry : ServerRegistry
  pub pairs : Dict Pair
  pub held : List PairId
  pub sent : List (Sender × ServerMsg)

-- What the relay does not implement: postcard, the text that `thiserror` derives for a codec error,
-- whether the receiver of a channel is still there, and whether its queue has room or gets room in
-- time. The task of a connection that sends to a full queue only waits, so its actions do not ask;
-- the sweeper, which others depend on, does.
pub record Outside : Type 0 where
  pub codec : Postcard
  pub codec_display : CodecError → String
  pub alive : Sender → Bool
  pub has_room : Sender → Bool

pub data Exit (A : Type 0) : Type 0 where
  done : A → Exit A
  failed : RelayError → Exit A
  panicked : Exit A

abbrev pub M : Type 0 → Type 0
M A = Relay → Exit A × Relay

abbrev pub resume : {A B : Type 0} → Exit A → (A → M B) → M B
resume (done a) f s = f a s
resume (failed e) f s = (failed e, s)
resume panicked f s = (panicked, s)

infixl 5 ◌>>=◌ ◌>>◌
unfoldable pub ◌>>=◌ : {A B : Type 0} → M A → (A → M B) → M B
◌>>=◌ m f s = let (x, s') = m s in resume x f s'

abbrev pub ◌>>◌ : {A B : Type 0} → M A → M B → M B
m >> k = m >>= λ _. k

abbrev pub pure : {A : Type 0} → A → M A
pure a s = (done a, s)

abbrev pub fail : {A : Type 0} → RelayError → M A
fail e s = (failed e, s)

-- `?` on a result that is at hand.
abbrev pub lift : {A : Type 0} → Result RelayError A → M A
lift (ok a) = pure a
lift (err e) = fail e

-- `expect`.
abbrev pub expect : {E A : Type 0} → Result E A → M A
expect (ok a) s = (done a, s)
expect (err e) s = (panicked, s)

abbrev pub gets : {A : Type 0} → (Relay → A) → M A
gets f s = (done (f s), s)

abbrev pub modify : (Relay → Relay) → M (Unit {0})
modify f s = (done tt, f s)

-- What a scope drops when it is left, in whatever way.
unfoldable pub on_exit : {A : Type 0} → (Relay → Relay) → M A → M A
on_exit cleanup m s = let (x, s') = m s in (x, cleanup s')
