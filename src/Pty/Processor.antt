-- ===== src/Pty/Processor.antt =====
-- crates/server/pty/src/terminal.rs: `ServerOutputProcessor`, which answers and strips the queries that
-- a terminal's program sends to the terminal itself, before the output goes to the clients.
pub mod Matches
pub mod Chunks
pub mod Query
pub mod Plain
use cli_pocket.Prelude.{
  ℕ, zero, suc, ◌+◌, Bool, true, false, not, ◌&&◌, ◌||◌, Option, none, some, List, [], ◌∷◌, ◌++◌,
  length, get_elem?, take, drop, ◌==◌, if◌then◌else◌, sat_add16,
}
use cli_pocket.Proto.Wire.{Bytes}
use cli_pocket.Proto.Snapshot.Decimal.{decimal}
use cli_pocket.Pty.Parser.Utf8.{is_utf8}

abbrev pub cursor_position_query : Bytes
cursor_position_query = 0x1b ∷ b'[' ∷ b'6' ∷ b'n' ∷ []

abbrev pub win32_input_mode_prefix : Bytes
win32_input_mode_prefix = 0x1b ∷ b'[' ∷ b'?' ∷ b'9' ∷ b'0' ∷ b'0' ∷ b'1' ∷ []

abbrev pub focus_event_mode_prefix : Bytes
focus_event_mode_prefix = 0x1b ∷ b'[' ∷ b'?' ∷ b'1' ∷ b'0' ∷ b'0' ∷ b'4' ∷ []

abbrev pub osc_prefix : Bytes
osc_prefix = 0x1b ∷ b']' ∷ []

pub record ServerOutputProcessor : Type 0 where
  pub pending : Bytes
  pub pending_response : Bytes
  pub pending_title : Option Bytes
  pub skip_next_cursor_position_response : Bool

pub data SequenceMatch : Type 0 where
  consumed : ℕ → SequenceMatch
  incomplete : SequenceMatch

pub data TitleSequenceMatch : Type 0 where
  consumed : ℕ → Option Bytes → TitleSequenceMatch
  incomplete : TitleSequenceMatch

abbrev pub new_processor : Bool → ServerOutputProcessor
new_processor skip = record {
  pending = [];
  pending_response = [];
  pending_title = none;
  skip_next_cursor_position_response = skip;
}

-- `bytes.starts_with(prefix)`.
unfoldable pub starts_with : Bytes → Bytes → Bool
starts_with bytes [] = true
starts_with [] (p ∷ prefix) = false
starts_with (b ∷ bytes) (p ∷ prefix) = b == p && starts_with bytes prefix

abbrev pub suffix_match : Option ℕ → ℕ → Option SequenceMatch
suffix_match none size = some SequenceMatch.incomplete
suffix_match (some suffix) size =
    if suffix == b'h' || suffix == b'l' then some (SequenceMatch.consumed (size + 1)) else none

unfoldable pub split_prefixed_control_sequence : Bytes → Bytes → Option SequenceMatch
split_prefixed_control_sequence bytes prefix =
    if starts_with prefix bytes
    then some SequenceMatch.incomplete
    else if starts_with bytes prefix
    then suffix_match (get_elem? bytes (length prefix)) (length prefix)
    else none

-- The loop from `index` on, over the bytes from there.
unfoldable pub find_from : ℕ → Bytes → Option (ℕ × ℕ)
find_from index [] = none
find_from index (b ∷ []) = if b == 0x07 then some (index, 1) else none
find_from index (b ∷ c ∷ rest) =
    let later = find_from (suc index) (c ∷ rest) in
    if b == 0x07
    then some (index, 1)
    else if b == 0x1b
    then (if c == b'\\' then some (index, 2) else later)
    else later

abbrev pub find_osc_terminator : Bytes → Option (ℕ × ℕ)
find_osc_terminator bytes = find_from 0 bytes

abbrev pub from_utf8 : Bytes → Option Bytes
from_utf8 bytes = if is_utf8 bytes then some bytes else none

abbrev pub title_match : Bytes → Option (ℕ × ℕ) → TitleSequenceMatch
title_match title_bytes none = TitleSequenceMatch.incomplete
title_match title_bytes (some (title_len, terminator_len)) =
    TitleSequenceMatch.consumed (4 + title_len + terminator_len)
      (from_utf8 (take title_len title_bytes))

abbrev pub after_selector : Bytes → Option ℕ → Option TitleSequenceMatch
after_selector bytes none = some TitleSequenceMatch.incomplete
after_selector bytes (some c) =
    if c == b';'
    then some (title_match (drop 4 bytes) (find_osc_terminator (drop 4 bytes)))
    else none

abbrev pub after_prefix : Bytes → Option ℕ → Option TitleSequenceMatch
after_prefix bytes none = some TitleSequenceMatch.incomplete
after_prefix bytes (some selector) =
    if selector == b'0' || selector == b'2' then after_selector bytes (get_elem? bytes 3) else none

unfoldable pub split_osc_title_sequence : Bytes → Option TitleSequenceMatch
split_osc_title_sequence bytes =
    if starts_with osc_prefix bytes
    then some TitleSequenceMatch.incomplete
    else if starts_with bytes osc_prefix
    then after_prefix bytes (get_elem? bytes 2)
    else none

unfoldable pub cursor_position_report : ℕ × ℕ → Bytes
cursor_position_report (col, row) =
    0x1b ∷ b'[' ∷ (decimal (sat_add16 row 1) ++ b';' ∷ (decimal (sat_add16 col 1) ++ b'R' ∷ []))

-- What the turn of the loop does with the remaining bytes: it waits for more, it answers a query, it
-- leaves out a number of bytes, or a title, or it passes one byte on.
pub data Verdict : Type 0 where
  waits : Verdict
  answers : Verdict
  strips : ℕ → Verdict
  titles : ℕ → Option Bytes → Verdict
  passes : Verdict

abbrev pub title_verdict : Option TitleSequenceMatch → Verdict
title_verdict none = passes
title_verdict (some (TitleSequenceMatch.consumed n t)) = titles n t
title_verdict (some TitleSequenceMatch.incomplete) = waits

abbrev pub sequence_verdict : Option SequenceMatch → Verdict → Verdict
sequence_verdict none other = other
sequence_verdict (some (SequenceMatch.consumed n)) other = strips n
sequence_verdict (some SequenceMatch.incomplete) other = waits

unfoldable pub verdict : Bytes → Verdict
verdict remaining =
    if starts_with cursor_position_query remaining
    then waits
    else if starts_with remaining cursor_position_query
    then answers
    else sequence_verdict (split_prefixed_control_sequence remaining win32_input_mode_prefix) (
        sequence_verdict (split_prefixed_control_sequence remaining focus_event_mode_prefix)
          (title_verdict (split_osc_title_sequence remaining)))

abbrev pub answer : ℕ × ℕ → ServerOutputProcessor → ServerOutputProcessor
answer cursor s =
    if s.skip_next_cursor_position_response
    then record s { skip_next_cursor_position_response = false }
    else record s { pending_response = s.pending_response ++ cursor_position_report cursor }

abbrev pub store_title : Option Bytes → ServerOutputProcessor → ServerOutputProcessor
store_title none s = s
store_title (some t) s = record s { pending_title = some t }

abbrev pub passed : ℕ → Bytes × ServerOutputProcessor → Bytes × ServerOutputProcessor
passed b (out, s) = (b ∷ out, s)

-- One turn of the loop with the remaining bytes `b ∷ rest`; `go_on` is the rest of the loop.
abbrev pub turn :
    Verdict
    → ℕ × ℕ
    → ℕ
    → Bytes
    → ServerOutputProcessor
    → (Bytes → ServerOutputProcessor → Bytes × ServerOutputProcessor)
    → Bytes × ServerOutputProcessor
turn waits cursor b rest s go_on = ([], record s { pending = b ∷ rest })
turn answers cursor b rest s go_on =
    go_on (drop (length cursor_position_query) (b ∷ rest)) (answer cursor s)
turn (strips n) cursor b rest s go_on = go_on (drop n (b ∷ rest)) s
turn (titles n t) cursor b rest s go_on = go_on (drop n (b ∷ rest)) (store_title t s)
turn passes cursor b rest s go_on = passed b (go_on rest s)

-- The loop over the input from `index` on: the filtered bytes, and the new state. Each turn moves by a
-- byte at least, so that the number of bytes is fuel enough.
unfoldable pub scan : ℕ → ℕ × ℕ → Bytes → ServerOutputProcessor → Bytes × ServerOutputProcessor
scan zero cursor remaining s = ([], s)
scan (suc fuel) cursor [] s = ([], s)
scan (suc fuel) cursor (b ∷ rest) s = turn (verdict (b ∷ rest)) cursor b rest s (scan fuel cursor)

unfoldable pub process : ServerOutputProcessor → Bytes → ℕ × ℕ → Bytes × ServerOutputProcessor
process s bytes cursor =
    let input = s.pending ++ bytes in scan (length input) cursor input (record s { pending = [] })

pub take_pending_response : ServerOutputProcessor → Bytes × ServerOutputProcessor
take_pending_response s = (s.pending_response, record s { pending_response = [] })

pub take_pending_title : ServerOutputProcessor → Option Bytes × ServerOutputProcessor
take_pending_title s = (s.pending_title, record s { pending_title = none })
