-- ===== src/Pty/Ring/Represents.antt =====
-- crates/server/pty/src/ring.rs: what the ring keeps of the history of a terminal, all the bytes that
-- were pushed.
use cli_pocket.Prelude.{ℕ, ◌+◌, ◌≤◌, ◌<◌, ◌≡◌, ◌⊎◌, List, [], ◌∷◌, length, take, drop}
use cli_pocket.Proto.Wire.{Bytes}
use cli_pocket.Pty.Parser.{Vte, AnchorTracker, advance, advance_byte, snapshot_state}
use cli_pocket.Pty.Parser as Parser
use cli_pocket.Pty.Ring.{Anchor, ScrollbackRing}

module _ {P : Type 0} (vte : Vte P) where
  -- The tracker that has read a history.
  abbrev pub after : Bytes → AnchorTracker P
  after history = advance vte (Parser.new vte) history

  -- The anchor has the state of the terminal after the bytes up to its offset.
  abbrev pub IsSound : Bytes → Anchor → Type 0
  IsSound history a =
      (a.byte_offset ≤ length history)
      × (a.state ≡ snapshot_state (after (take a.byte_offset history)))

  -- The offsets increase, and `behind` bytes follow the last one.
  abbrev pub AreLinked : Bytes → ℕ → Anchor → List Anchor → Type 0
  AreLinked history behind a [] = a.byte_offset + behind ≡ length history
  AreLinked history behind a (b ∷ bs) =
      (a.byte_offset < b.byte_offset) × IsSound history b × AreLinked history behind b bs

  -- The first anchor stands at the beginning of the window.
  abbrev pub AreAnchors : Bytes → ℕ → ℕ → List Anchor → Type 0
  AreAnchors history tail behind [] = ⊥
  AreAnchors history tail behind (a ∷ rest) =
      (a.byte_offset ≡ tail) × IsSound history a × AreLinked history behind a rest

  pub record Represents (history : Bytes) (r : ScrollbackRing P) : Type 0 where
    pub head : r.head_seq ≡ length history
    pub tracked : r.tracker ≡ after history
    pub window : r.bytes ≡ drop r.tail_offset history
    pub anchored : AreAnchors history r.tail_offset r.bytes_since_anchor r.anchors
    pub spaced : 1 ≤ r.anchor_interval

  -- The ring is within its capacity, unless it has one anchor only.
  abbrev pub IsBounded : ScrollbackRing P → Type 0
  IsBounded r = (length r.bytes ≤ r.cap) ⊎ (length r.anchors ≡ 1)
