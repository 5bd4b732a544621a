-- ===== src/Client/Errors.antt =====
-- crates/client/client-core/src/error.rs and events.rs. A text that the source formats with a number is
-- `about`, the text before the number with the number.
use cli_pocket.Prelude.{ℕ, Bool, String, Option}
use cli_pocket.Proto.Wire.{Bytes}
use cli_pocket.Proto.Frames.{ByeReason, TerminalInfo}

pub data Message : Type 0 where
  said : String → Message
  about : String → ℕ → Message

pub data ClientError : Type 0 where
  transport crypto proto identity internal : Message → ClientError
  rejected : ByeReason → ClientError
  not_connected no_terminal closed : ClientError
  connect_timeout : ℕ → ClientError

-- The reason of a disconnection: a text, or the text of an error.
pub data Reason : Type 0 where
  told : String → Reason
  shown : ClientError → Reason

pub data ClientEvent : Type 0 where
  connecting : ClientEvent
  connected : ℕ → Option String → ClientEvent
  disconnected : Bool → Reason → ClientEvent
  terminal_created : TerminalInfo → ClientEvent
  terminal_output : ℕ → ℕ → Bytes → ClientEvent
  error : String → ClientEvent
