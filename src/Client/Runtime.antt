-- ===== src/Client/Runtime.antt =====
-- crates/client/client-core/src/session.rs: the state of one connection (`RuntimeState`), and what the
-- requests and the frames of the daemon do to it.
--
-- A `SharedReply` is the number of its channel, and `answers` has the channels that were answered: a
-- sender is taken out when it is used, so the first answer stands. `terminal` is the handle that the
-- session shares with its user, `next_request_id` the counter of `run_one_connection`.
pub mod Requests
pub mod Responses
pub mod Synced
pub mod Replies
pub mod Streams
use cli_pocket.Prelude.{
  ℕ, ◌+◌, min, Bool, true, false, Option, none, some, List, [], ◌∷◌, Result, ok, err, if◌then◌else◌,
  ◌==◌,
}
use cli_pocket.Prelude.Dict.{Dict, lookup, insert, remove, contains_key}
use cli_pocket.Proto.Wire.{Bytes}
use cli_pocket.Proto.Frames.{
  TerminalId, StreamId, TerminalInfo, ServerConfig, Frame, OpenTerminalAck, HistoryPage,
}
use cli_pocket.Client.Errors.{ClientError, ClientEvent}

abbrev pub u32_max : ℕ
u32_max = 4294967295

pub data RequestTxn : Type 0 where
  open_terminal : TerminalId → ℕ → RequestTxn
  read_history : TerminalId → ℕ → RequestTxn
  create_terminal : ℕ → RequestTxn
  list_terminals : ℕ → RequestTxn
  get_config : ℕ → RequestTxn
  set_config : ℕ → RequestTxn
  send_input_ack resize_ack : RequestTxn
  kill_terminal : Option ℕ → RequestTxn

-- `StreamState::Output`.
pub record StreamState : Type 0 where
  pub terminal_id : TerminalId
  pub last_seq : ℕ

pub record ActiveTerminalState : Type 0 where
  pub terminal : TerminalId
  pub stream : StreamId
  pub last_seq : Option ℕ

pub record TerminalHandle : Type 0 where
  pub info : TerminalInfo
  pub stream : StreamId
  pub last_seq : Option ℕ

pub data Value : Type 0 where
  created : TerminalInfo → Value
  opened : OpenTerminalAck → Value
  listed : List TerminalInfo → Value
  page : HistoryPage → Value
  config : ServerConfig → Value
  killed : Value

abbrev pub Answer : Type 0
Answer = Result ClientError Value

pub record RuntimeState : Type 0 where
  pub active : Option ActiveTerminalState
  pub info_cache : Dict TerminalInfo
  pub pending_requests : Dict RequestTxn
  pub active_streams : Dict StreamState
  pub terminal : Option TerminalHandle
  pub answers : Dict Answer
  pub next_request_id : ℕ

pub data Action : Type 0 where
  send : Frame → Action
  send_pending_command : Frame → Action
  drop_pending_command : Action
  send_pending_session_command : Frame → Action
  emit : ClientEvent → Action
  exit_with : Result ClientError (Unit {0}) → Action
  nothing : Action

abbrev pub Handled : Type 0
Handled = Result ClientError Action × RuntimeState

-- `RuntimeState::default()` and the counter, with the handle and the replies that the session has.
abbrev pub fresh : Option TerminalHandle → Dict Answer → RuntimeState
fresh terminal answers = record {
  active = none;
  info_cache = [];
  pending_requests = [];
  active_streams = [];
  terminal = terminal;
  answers = answers;
  next_request_id = 1;
}

-- `reply.borrow_mut().take()`, and the sending.
unfoldable pub answer : ℕ → Answer → RuntimeState → RuntimeState
answer reply value s =
    if contains_key reply s.answers then s else record s { answers = insert reply value s.answers }

abbrev pub fail_shared_reply : ℕ → ClientError → RuntimeState → RuntimeState
fail_shared_reply reply error s = answer reply (err error) s

abbrev pub stream_of : Option ActiveTerminalState → Option StreamId
stream_of none = none
stream_of (some active) = some active.stream

unfoldable pub active_stream : RuntimeState → Option StreamId
active_stream s = stream_of s.active

abbrev pub terminal_of : Option ActiveTerminalState → Option TerminalId
terminal_of none = none
terminal_of (some active) = some active.terminal

unfoldable pub active_terminal : RuntimeState → Option TerminalId
active_terminal s = terminal_of s.active

abbrev pub with_seq : ℕ → Option ActiveTerminalState → Option ActiveTerminalState
with_seq seq none = none
with_seq seq (some active) = some (record active { last_seq = some seq })

unfoldable pub update_active_seq : ℕ → RuntimeState → RuntimeState
update_active_seq seq s = record s { active = with_seq seq s.active }

unfoldable pub store_info : TerminalInfo → RuntimeState → RuntimeState
store_info info s = record s { info_cache = insert info.terminal info s.info_cache }

unfoldable pub set_active : TerminalInfo → StreamId → Option ℕ → RuntimeState → RuntimeState
set_active info stream last_seq s = record s {
  info_cache = insert info.terminal info s.info_cache;
  active = some (record { terminal = info.terminal; stream = stream; last_seq = last_seq });
}

abbrev pub without_stream : Option ActiveTerminalState → Dict StreamState → Dict StreamState
without_stream none streams = streams
without_stream (some active) streams = remove active.stream streams

unfoldable pub clear_active : RuntimeState → RuntimeState
clear_active s = record s {
  active_streams = without_stream s.active s.active_streams;
  active = none;
}

unfoldable pub clear_active_terminal : RuntimeState → RuntimeState
clear_active_terminal s = record (clear_active s) { terminal = none }

-- The `record_…` methods and `start_open_terminal`: they differ in the transaction alone.
unfoldable pub record_request : ℕ → RequestTxn → RuntimeState → RuntimeState
record_request request_id txn s = record s {
  pending_requests = insert request_id txn s.pending_requests;
}

-- The counter saturates.
unfoldable pub take_request_id : RuntimeState → ℕ × RuntimeState
take_request_id s =
    (s.next_request_id, record s { next_request_id = min (s.next_request_id + 1) u32_max })

unfoldable pub remove_pending : ℕ → RuntimeState → Option RequestTxn × RuntimeState
remove_pending request_id s = (
  lookup request_id s.pending_requests,
  record s { pending_requests = remove request_id s.pending_requests },
)

-- Fails the reply of a transaction, if it has one.
unfoldable pub fail_txn : ClientError → RequestTxn → RuntimeState → RuntimeState
fail_txn error (open_terminal _ reply) s = fail_shared_reply reply error s
fail_txn error (read_history _ reply) s = fail_shared_reply reply error s
fail_txn error (create_terminal reply) s = fail_shared_reply reply error s
fail_txn error (list_terminals reply) s = fail_shared_reply reply error s
fail_txn error (get_config reply) s = fail_shared_reply reply error s
fail_txn error (set_config reply) s = fail_shared_reply reply error s
fail_txn error send_input_ack s = s
fail_txn error resize_ack s = s
fail_txn error (kill_terminal none) s = s
fail_txn error (kill_terminal (some reply)) s = fail_shared_reply reply error s
