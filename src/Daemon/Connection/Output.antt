-- ===== src/Daemon/Connection/Output.antt =====
-- crates/server/daemon-core/src/connection.rs: the output of a terminal on its way to the client
-- (`live_output_frames`, and the branch of the loop that sends it).
use cli_pocket.Prelude.{
  ℕ, zero, suc, ◌+◌, ◌-◌, ◌≤◌, ◌<◌, ◌≡◌, refl, sym, false, Option, none, some, List, [], ◌∷◌, ◌++◌,
  ok, err, ltb, ◌==◌, if◌then◌else◌, length, take, drop, length-take, length-drop, take-append-drop,
  subst, sat_add64, u64_max, arith, Bool-cases, inl, inr, ◌⊎◌,
}
use cli_pocket.Prelude.Dict.{lookup}
use cli_pocket.Proto.Wire.{Bytes}
use cli_pocket.Proto.Frames.{TerminalId, StreamId, StreamDataFrame, stream_data}
use cli_pocket.Daemon.Errors.{DaemonResult, internal}
use cli_pocket.Daemon.Connection.{Outside, Connection, send_frame}

abbrev pub output_chunk_bytes : ℕ
output_chunk_bytes = 16384

pub record OutputChunk : Type 0 where
  pub seq_at_end : ℕ
  pub bytes : Bytes

pub record OutboundOutput : Type 0 where
  pub stream : StreamId
  pub terminal_id : TerminalId
  pub frame : StreamDataFrame

-- `chunks` of a slice. Each piece has a byte at least, so that as many pieces as bytes are enough.
unfoldable pub pieces : ℕ → ℕ → Bytes → List Bytes
pieces size zero bytes = []
pieces size (suc fuel) [] = []
pieces size (suc fuel) (b ∷ bytes) =
    take size (b ∷ bytes) ∷ pieces size fuel (drop size (b ∷ bytes))

abbrev pub frame_at : StreamId → TerminalId → ℕ → Bytes → OutboundOutput
frame_at stream terminal seq piece = record {
  stream = stream;
  terminal_id = terminal;
  frame = record { stream_id = stream; seq = seq; offset = none; bytes = piece; last = false };
}

unfoldable pub framed_from : StreamId → TerminalId → ℕ → ℕ → List Bytes → List OutboundOutput
framed_from stream terminal start_seq sent [] = []
framed_from stream terminal start_seq sent (piece ∷ rest) =
    let sent' = sat_add64 sent (length piece) in
    frame_at stream terminal (sat_add64 start_seq sent') piece
    ∷ framed_from stream terminal start_seq sent' rest

unfoldable pub live_output_frames :
    StreamId → TerminalId → OutputChunk → DaemonResult (List OutboundOutput)
live_output_frames stream terminal chunk =
    let total = length chunk.bytes in
    if total == 0
    then ok []
    else if ltb chunk.seq_at_end total
    then err (internal "output sequence underflow")
    else ok (
        framed_from stream terminal (chunk.seq_at_end - total) 0
          (pieces output_chunk_bytes total chunk.bytes))

-- The branch of the loop for output: only for a stream that is attached, to the same terminal.
module _ {P : Type 0} (out : Outside P) where
  abbrev pub passed_on :
      Option TerminalId → OutboundOutput → Connection P → DaemonResult (Unit {0}) × Connection P
  passed_on none output c = (ok tt, c)
  passed_on (some terminal) output c =
      if terminal == output.terminal_id
      then send_frame out (stream_data output.frame) c
      else (ok tt, c)

  unfoldable pub handle_output :
      OutboundOutput → Connection P → DaemonResult (Unit {0}) × Connection P
  handle_output output c = passed_on (lookup output.stream c.streams) output c

-- The frames follow on one another from number `from` to number `to`, have these bytes, and none is larger
-- than `size`.
abbrev pub AreConsecutive : ℕ → StreamId → TerminalId → ℕ → List OutboundOutput → ℕ → Bytes → Type 0
AreConsecutive size stream terminal from [] to bytes = (from ≡ to) × (bytes ≡ [])
AreConsecutive size stream terminal from (o ∷ rest) to bytes =
    (o ≡ frame_at stream terminal o.frame.seq o.frame.bytes)
    × (o.frame.seq ≡ from + length o.frame.bytes)
    × (1 ≤ length o.frame.bytes)
    × (length o.frame.bytes ≤ size)
    × ((later : Bytes) × (bytes ≡ o.frame.bytes ++ later)
        × AreConsecutive size stream terminal o.frame.seq rest to later)

module _ (size : ℕ) (some_size : 1 ≤ size) (stream : StreamId) (terminal : TerminalId) where
  framed_lem :
      (fuel start sent : ℕ) (bytes : Bytes)
      → length bytes ≤ fuel
      → start + sent + length bytes ≤ u64_max
      → AreConsecutive size stream terminal
          (start + sent)
          (framed_from stream terminal start sent (pieces size fuel bytes))
          (start + sent + length bytes)
          bytes
  unfolding framed_from pieces
  framed_lem zero start sent [] enough fits = (omega arith, refl)
  framed_lem zero start sent (b ∷ bytes) enough fits = absurd (omega arith)
  framed_lem (suc fuel) start sent [] enough fits = (omega arith, refl)
  framed_lem (suc fuel) start sent (b ∷ bytes) enough fits =
      let piece = take size (b ∷ bytes) in
      let rest = drop size (b ∷ bytes) in
      let sent' = sat_add64 sent (length piece) in
      let taken = length-take size (b ∷ bytes) in
      let dropped = length-drop size (b ∷ bytes) in
      let at : start + sent' ≡ sat_add64 start sent' = ground (arith, taken, dropped) in
      let to : start + sent' + length rest ≡ start + sent + length (b ∷ bytes) =
        ground (arith, taken, dropped) in
      let ih =
        framed_lem fuel start sent' rest (omega (arith, dropped))
          (ground (arith, taken, dropped)) in
      (
        refl,
        ground (arith, taken),
        omega (arith, taken),
        omega (arith, taken),
        (
          rest,
          sym (take-append-drop size (b ∷ bytes)),
          subst
              (λ n.
                AreConsecutive size stream terminal n
                  (framed_from stream terminal start sent' (pieces size fuel rest))
                  (start + sent + length (b ∷ bytes)) rest)
              at
              (subst
                (λ n.
                  AreConsecutive size stream terminal (start + sent')
                    (framed_from stream terminal start sent' (pieces size fuel rest)) n rest)
                to ih),
        ),
      )

-- What becomes of a chunk with these bytes that ends at `seq`.
abbrev pub GoodFrames : StreamId → TerminalId → ℕ → Bytes → Type 0
GoodFrames stream terminal seq bytes =
    (frames : List OutboundOutput) × (live_output_frames stream terminal
        (record { seq_at_end = seq; bytes = bytes })
      ≡ ok frames)
    × AreConsecutive output_chunk_bytes stream terminal (seq - length bytes) frames seq bytes

pub good_frames :
    (stream : StreamId) (terminal : TerminalId) (seq : ℕ) (bytes : Bytes)
    → seq ≤ u64_max
    → length bytes ≤ seq
    → GoodFrames stream terminal seq bytes
unfolding live_output_frames
good_frames stream terminal seq [] small fits = ([], ground arith, (omega arith, refl))
good_frames stream terminal seq (b ∷ bytes) small fits =
    let total = length (b ∷ bytes) in
    let start = seq - total in
    let frames =
      framed_from stream terminal start 0 (pieces output_chunk_bytes total (b ∷ bytes)) in
    let from : start + 0 ≡ start = omega arith in
    let to : start + 0 + total ≡ seq = omega arith in
    (
      frames,
      ground arith,
      subst (λ n. AreConsecutive output_chunk_bytes stream terminal n frames seq (b ∷ bytes)) from
          (subst
            (λ n.
              AreConsecutive output_chunk_bytes stream terminal (start + 0) frames n (b ∷ bytes))
            to
            (framed_lem output_chunk_bytes (omega arith) stream terminal total start 0 (b ∷ bytes)
              (omega arith) (omega arith))),
    )

-- A chunk of output whose number at the end is a 64-bit number and not less than its length becomes
-- frames of the stream, none empty or above the size of a chunk, that put together have its bytes,
-- each with the number at its own end, the last with the chunk's; a chunk with a smaller number is
-- an error.
pub live_output_frames_exact :
    (stream : StreamId) (terminal : TerminalId) (chunk : OutputChunk)
    → chunk.seq_at_end ≤ u64_max
    → ((length chunk.bytes ≤ chunk.seq_at_end)
        × GoodFrames stream terminal chunk.seq_at_end chunk.bytes)
      ⊎ ((chunk.seq_at_end < length chunk.bytes)
          × (live_output_frames stream terminal chunk ≡ err (internal "output sequence underflow")))
unfolding live_output_frames
live_output_frames_exact stream terminal chunk small =
    elim (Bool-cases (ltb chunk.seq_at_end (length chunk.bytes))) [
      | inl low ↦ inr (ground arith, ground arith)
      | inr high ↦ inl (
        ground arith,
        good_frames stream terminal chunk.seq_at_end chunk.bytes small (ground arith),
      )
    ]
