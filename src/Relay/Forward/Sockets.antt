-- ===== src/Relay/Forward/Sockets.antt =====
-- crates/relay/relay-core/src/forward.rs: reading and writing websocket messages.
use Prim.Native.String.{◌++◌ as concat}
use cli_pocket.Prelude.{ℕ, zero, suc, String, List, [], ◌∷◌, ok, err}
use cli_pocket.Proto.Wire.{Bytes, forward}
use cli_pocket.Proto.Codec.{Postcard, CodecError, RelayWire, decode_relay}
use cli_pocket.Relay.Errors.{RelayError, protocol, internal, RelayResult}
use cli_pocket.Relay.Registry.{ServerMsg}

-- `tungstenite::Message`.
pub data Message : Type 0 where
  text binary ping pong : Bytes → Message
  close : Message
  frame : Bytes → Message

-- What `stream.next()` yields: a message, or an error with its text.
pub data Item : Type 0 where
  received : Message → Item
  broken : String → Item

abbrev pub ws_err : String → RelayError
ws_err e = internal (concat "websocket error: " e)

abbrev pub codec_err_to_protocol : (CodecError → String) → CodecError → RelayError
codec_err_to_protocol display e = internal (concat "relay codec error: " (display e))

abbrev pub non_binary : RelayError
non_binary = protocol "unexpected non-binary frame on relay socket"

-- The first binary message, and the items behind it.
unfoldable pub read_binary_frame : List (ℕ × Item) → RelayResult (Bytes × List (ℕ × Item))
read_binary_frame [] = err (protocol "relay websocket closed")
read_binary_frame ((t, broken e) ∷ rest) = err (ws_err e)
read_binary_frame ((t, received (binary bytes)) ∷ rest) = ok (bytes, rest)
read_binary_frame ((t, received (ping b)) ∷ rest) = read_binary_frame rest
read_binary_frame ((t, received (pong b)) ∷ rest) = read_binary_frame rest
read_binary_frame ((t, received close) ∷ rest) = err (protocol "relay websocket closed")
read_binary_frame ((t, received (text b)) ∷ rest) = err non_binary
read_binary_frame ((t, received (frame b)) ∷ rest) = err non_binary

-- The messages that reach the sink of a server, which takes `room` messages before it breaks.
unfoldable pub writer_loop : ℕ → List ServerMsg → List Message
writer_loop room [] = []
writer_loop zero (m ∷ rest) = []
writer_loop (suc room) (ServerMsg.ctrl bytes ∷ rest) = binary bytes ∷ writer_loop room rest
writer_loop (suc room) (ServerMsg.payload bytes ∷ rest) = binary bytes ∷ writer_loop room rest
writer_loop (suc room) (ServerMsg.close ∷ rest) = close ∷ []

-- The same for a client, whose data frames are unwrapped.
unfoldable pub client_writer_loop : Postcard → ℕ → List ServerMsg → List Message
client_writer_loop p room [] = []
client_writer_loop p zero (m ∷ rest) = []
client_writer_loop p (suc room) (ServerMsg.ctrl bytes ∷ rest) =
    binary bytes ∷ client_writer_loop p room rest
client_writer_loop p (suc room) (ServerMsg.payload bytes ∷ rest) =
    let others = client_writer_loop p room rest in
    elim (decode_relay p bytes) [
      | ok (RelayWire.payload (forward _ body)) ↦ binary body ∷ others
      | _ ↦ []
    ]
client_writer_loop p (suc room) (ServerMsg.close ∷ rest) = close ∷ []
