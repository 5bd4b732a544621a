-- ===== src/Exchange/Opening.antt =====
-- crates/server/daemon-core/src/connection.rs and crates/client/client-core/src/session.rs: output that is
-- in the snapshot of an opened terminal and comes as live output too. The daemon subscribes to the output
-- before it takes the snapshot, and the reader of the terminal adds to the ring before it sends.
use cli_pocket.Prelude.{
  ℕ, ◌+◌, ◌-◌, ◌≤◌, ◌<◌, ◌≡◌, refl, ◌∙◌, ap, Option, none, some, List, [], ◌∷◌, ok, err, length,
  length-append, u64_max, arith,
}
use cli_pocket.Proto.Wire.{Bytes}
use cli_pocket.Proto.Frames.{TerminalInfo}
use cli_pocket.Pty.Ring.{
  ScrollbackRing, Anchor, snapshot_with_max_bytes, snapshot_from_anchor, bounded,
}
use cli_pocket.Client.Errors.{proto, said}
use cli_pocket.Client.Runtime.{RuntimeState, ActiveTerminalState}
use cli_pocket.Client.Runtime.Responses.{handle_stream_data_frame}
use cli_pocket.Client.Runtime.Synced.{IsSynced}
use cli_pocket.Client.Runtime.Streams.{stream_data_cases}
use cli_pocket.Daemon.Sessions.{Terminal}
use cli_pocket.Daemon.Connection.{ack_of, open_terminal_max_bytes}
use cli_pocket.Daemon.Connection.Output.{
  OutputChunk, OutboundOutput, live_output_frames, good_frames, AreConsecutive, frame_at,
  output_chunk_bytes,
}

module _ {P : Type 0} where
  head_seq-bounded :
      (r : ScrollbackRing P) (o : Option Anchor) → (bounded r o).head_seq ≡ r.head_seq
  unfolding snapshot_from_anchor
  head_seq-bounded r none = refl
  head_seq-bounded r (some a) = refl

  -- The answer to an opening ends at the head of the ring.
  end_seq-ack_of :
      (stream : ℕ) (info : TerminalInfo) (t : Terminal P)
      → (ack_of stream info t (snapshot_with_max_bytes t.ring open_terminal_max_bytes)).end_seq
        ≡ t.ring.head_seq
  unfolding snapshot_with_max_bytes
  end_seq-ack_of stream info t = head_seq-bounded t.ring _

-- The first of some frames that follow on one another.
first_frame :
    (stream terminal from to : ℕ) (frames : List OutboundOutput) (bytes : Bytes)
    → 1 ≤ length bytes
    → from + length bytes ≤ to
    → AreConsecutive output_chunk_bytes stream terminal from frames to bytes
    → (f : OutboundOutput) × (rest : List OutboundOutput) × (frames ≡ f ∷ rest)
      × (f ≡ frame_at stream terminal f.frame.seq f.frame.bytes)
      × (f.frame.seq ≤ to)
first_frame stream terminal from to [] bytes some_bytes fits c =
    absurd (omega (arith, ap length (c.1)))
first_frame stream terminal from to (f ∷ rest) bytes some_bytes fits
      (shape, next, _, _, (later, split, _)) =
    (f, rest, refl, shape, omega (arith, next, ap length split, length-append f.frame.bytes later))

-- The subscription of stream `stream` delivers a chunk that ends before the head of the ring.
module _ {P : Type 0} (s : RuntimeState) (a : ActiveTerminalState) (info : TerminalInfo)
    (t : Terminal P) (chunk : OutputChunk) (synced : IsSynced s) (active : s.active ≡ some a)
    (last : a.last_seq
      ≡ some
          (ack_of a.stream info t (snapshot_with_max_bytes t.ring open_terminal_max_bytes)).end_seq)
    (some_bytes : 1 ≤ length chunk.bytes) (fits : length chunk.bytes ≤ chunk.seq_at_end)
    (small : chunk.seq_at_end ≤ u64_max) (within : chunk.seq_at_end < t.ring.head_seq) where
  -- Where the client's handle and active terminal agree and the last number is the end that the
  -- daemon's answer to the opening gave: of a chunk of output that is not empty, whose number fits,
  -- and that ends before the head of the terminal's ring at the snapshot, the first frame that the
  -- daemon sends is refused by the client as moving backwards, which ends the connection.
  pub opening_overlap :
      (f : OutboundOutput) × (rest : List OutboundOutput) × (live_output_frames a.stream a.terminal
          chunk
        ≡ ok (f ∷ rest))
      × (handle_stream_data_frame f.frame s
          ≡ (err (proto (said "output sequence moved backwards")), s))
  opening_overlap =
      let (frames, made, consecutive) =
        good_frames a.stream a.terminal chunk.seq_at_end chunk.bytes small fits in
      let (f, rest, first, shape, low) =
        first_frame a.stream a.terminal (chunk.seq_at_end - length chunk.bytes) chunk.seq_at_end
          frames chunk.bytes some_bytes (omega arith) consecutive in
      let n = t.ring.head_seq in
      let at : a.last_seq ≡ some n = last ∙ ap some (end_seq-ack_of a.stream info t) in
      let plain : f.frame.offset ≡ none = ap (λ (o : OutboundOutput). o.frame.offset) shape in
      let there : f.frame.stream_id ≡ a.stream =
        ap (λ (o : OutboundOutput). o.frame.stream_id) shape in
      (
        f,
        rest,
        made ∙ ap ok first,
        ((stream_data_cases f.frame s a n plain synced active at).0 there).0 (omega (arith, low)),
      )
