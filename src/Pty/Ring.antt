-- ===== src/Pty/Ring.antt =====
-- crates/server/pty/src/ring.rs: the window of a terminal's output that is kept, with the anchors at
-- which a terminal can take it up. `usize` has 64 bits, so that the conversions between it and `u64`
-- are the identity. A call of `drain` beyond the end panics: then there is no result.
pub mod Represents
pub mod Evict
pub mod Push
pub mod Pages
pub mod Views
use cli_pocket.Prelude.{
  ℕ, zero, suc, ◌+◌, ◌-◌, ◌*◌, min, Bool, true, false, not, ◌&&◌, Option, none, some, List, [], ◌∷◌,
  ◌++◌, length, get_elem?, take, drop, ltb, leb, ◌==◌, if◌then◌else◌, sat_add64, u64_max, Result,
  ok, err,
}
use cli_pocket.Proto.Wire.{Bytes}
use cli_pocket.Proto.Snapshot.{AnchorState, Snapshot, DeltaSlice}
use cli_pocket.Pty.Parser.{AnchorTracker, Vte, advance, snapshot_state}
use cli_pocket.Pty.Parser as Parser

abbrev pub default_capacity_bytes : ℕ
default_capacity_bytes = 4 * 1024 * 1024

abbrev default_anchor_interval : ℕ
default_anchor_interval = 64 * 1024

abbrev pub max_capacity_bytes : ℕ
max_capacity_bytes = 64 * 1024 * 1024

pub data RingError : Type 0 where
  capacity_too_large : ℕ → RingError

pub record Anchor : Type 0 where
  pub byte_offset : ℕ
  pub state : AnchorState

pub record HistorySlice : Type 0 where
  pub start_seq : ℕ
  pub end_seq : ℕ
  pub bytes : Bytes
  pub has_more : Bool

pub record ScrollbackRing (P : Type 0) : Type 0 where
  pub bytes : Bytes
  pub anchors : List Anchor
  pub head_seq : ℕ
  pub tail_offset : ℕ
  pub tracker : AnchorTracker P
  pub bytes_since_anchor : ℕ
  pub cap : ℕ
  pub anchor_interval : ℕ
  pub cols : ℕ
  pub rows : ℕ

abbrev pub is_empty : List Anchor → Bool
is_empty [] = true
is_empty (a ∷ rest) = false

abbrev pub unwrap_or : Option ℕ → ℕ → ℕ
unwrap_or none d = d
unwrap_or (some n) d = n

-- `unwrap_or_else` of the oldest anchor.
abbrev pub anchor_or : Option Anchor → Anchor → Anchor
anchor_or none d = d
anchor_or (some a) d = a

abbrev pub found : Option Anchor → Bool → Anchor → Option Anchor
found none fits a = if fits then some a else none
found (some b) fits a = some b

-- `iter().rev().find(p)`.
unfoldable pub find_last : (Anchor → Bool) → List Anchor → Option Anchor
find_last p [] = none
find_last p (a ∷ rest) = found (find_last p rest) (p a) a

abbrev pub offset_to_relative : ℕ → ℕ → ℕ
offset_to_relative offset tail_offset = offset - tail_offset

-- The anchors that `drop_stale_anchors` leaves.
unfoldable pub drop_stale_anchors : ℕ → List Anchor → List Anchor
drop_stale_anchors tail [] = []
drop_stale_anchors tail (a ∷ []) = a ∷ []
drop_stale_anchors tail (a ∷ b ∷ others) =
    let rest = drop_stale_anchors tail (b ∷ others) in
    if leb b.byte_offset tail then rest else a ∷ b ∷ others

abbrev pub clamp : ℕ → ℕ → ℕ → ℕ
clamp n low high = if ltb n low then low else if ltb high n then high else n

abbrev pub target_of : Option Anchor → ℕ → Option ℕ
target_of none tail = none
target_of (some a) tail = if ltb tail a.byte_offset then some a.byte_offset else none

module _ {P : Type 0} where
  abbrev pub head_anchor : ScrollbackRing P → Anchor
  head_anchor r = record { byte_offset = r.head_seq; state = snapshot_state r.tracker }

  unfoldable pub maybe_place_anchor : ScrollbackRing P → ScrollbackRing P
  maybe_place_anchor r =
      if not (is_empty r.anchors) && ltb r.bytes_since_anchor r.anchor_interval
      then r
      else if not (is_empty r.anchors) && not r.tracker.at_safe_split
      then r
      else record r { anchors = r.anchors ++ head_anchor r ∷ []; bytes_since_anchor = 0 }

  unfoldable pub eviction_target : ScrollbackRing P → Option ℕ
  eviction_target r = target_of (get_elem? r.anchors 1) r.tail_offset

  -- One turn of the loop behind `drain`, for the target that was found.
  abbrev pub dropped : ℕ → ScrollbackRing P → ScrollbackRing P
  dropped to_drop r =
      let tail = sat_add64 r.tail_offset to_drop in
      record r {
        bytes = drop to_drop r.bytes;
        tail_offset = tail;
        anchors = drop_stale_anchors tail r.anchors;
      }

  -- The loop of `maybe_evict`.
  unfoldable pub evict : ℕ → ScrollbackRing P → Option (ScrollbackRing P)
  evict zero r = none
  evict (suc fuel) r =
      if ltb r.cap (length r.bytes)
      then elim (eviction_target r) [
        | none ↦ some r
        | some target ↦
            let to_drop = offset_to_relative target r.tail_offset in
            if to_drop == 0
            then some r
            else if ltb (length r.bytes) to_drop
            then none
            else evict fuel (dropped to_drop r)
      ]
      else some r

  -- Each turn drops a byte at least.
  abbrev pub maybe_evict : ScrollbackRing P → Option (ScrollbackRing P)
  maybe_evict r = evict (suc (length r.bytes)) r

  pub set_dims : ℕ → ℕ → ScrollbackRing P → ScrollbackRing P
  set_dims cols rows r = record r { cols = cols; rows = rows }

  unfoldable pub snapshot_from_anchor : ScrollbackRing P → Anchor → Snapshot
  snapshot_from_anchor r anchor = record {
    cols = r.cols;
    rows = r.rows;
    anchor_state = anchor.state;
    bytes = drop (offset_to_relative anchor.byte_offset r.tail_offset) r.bytes;
    head_seq = r.head_seq;
  }

  unfoldable pub snapshot : ScrollbackRing P → Snapshot
  snapshot r = snapshot_from_anchor r (
      anchor_or (get_elem? r.anchors 0)
        (record { byte_offset = r.tail_offset; state = snapshot_state r.tracker }))

  abbrev pub empty_snapshot : ScrollbackRing P → Snapshot
  empty_snapshot r = record {
    cols = r.cols;
    rows = r.rows;
    anchor_state = snapshot_state r.tracker;
    bytes = [];
    head_seq = r.head_seq;
  }

  abbrev pub bounded : ScrollbackRing P → Option Anchor → Snapshot
  bounded r none = empty_snapshot r
  bounded r (some a) = snapshot_from_anchor r a

  unfoldable pub snapshot_with_max_bytes : ScrollbackRing P → ℕ → Snapshot
  snapshot_with_max_bytes r max_bytes =
      bounded r (find_last (λ a. leb (r.head_seq - a.byte_offset) max_bytes) r.anchors)

  unfoldable pub since : ScrollbackRing P → ℕ → Option DeltaSlice
  since r seq =
      if ltb seq r.tail_offset
      then none
      else if ltb r.head_seq seq
      then none
      else some (record {
        bytes = drop (offset_to_relative seq r.tail_offset) r.bytes;
        head_seq = r.head_seq;
      })

  abbrev pub page_ending : ScrollbackRing P → ℕ → ℕ → HistorySlice
  page_ending r end_offset max_bytes =
      let page_len = min (end_offset - r.tail_offset) max_bytes in
      let start_offset = end_offset - page_len in
      record {
        start_seq = start_offset;
        end_seq = end_offset;
        bytes = take page_len (drop (offset_to_relative start_offset r.tail_offset) r.bytes);
        has_more = ltb r.tail_offset start_offset;
      }

  unfoldable pub history_page : ScrollbackRing P → Option ℕ → ℕ → HistorySlice
  history_page r before max_bytes =
      page_ending r (clamp (unwrap_or before r.head_seq) r.tail_offset r.head_seq) max_bytes

module _ {P : Type 0} (vte : Vte P) where
  abbrev pub empty_ring : ℕ → ℕ → ℕ → ScrollbackRing P
  empty_ring cols rows cap = record {
    bytes = [];
    anchors = [];
    head_seq = 0;
    tail_offset = 0;
    tracker = Parser.new vte;
    bytes_since_anchor = u64_max;
    cap = cap;
    anchor_interval = min default_anchor_interval (if cap == 0 then 1 else cap);
    cols = cols;
    rows = rows;
  }

  unfoldable pub new : ℕ → ℕ → Option ℕ → Result RingError (ScrollbackRing P)
  new cols rows capacity =
      let cap = unwrap_or capacity default_capacity_bytes in
      if ltb max_capacity_bytes cap
      then err (capacity_too_large cap)
      else ok (maybe_place_anchor (empty_ring cols rows cap))

  -- What the loop of `push` does before it places anchors and evicts.
  abbrev pub appended : ScrollbackRing P → ℕ → ScrollbackRing P
  appended r byte = record r {
    tracker = advance vte r.tracker (byte ∷ []);
    bytes = r.bytes ++ byte ∷ [];
    head_seq = sat_add64 r.head_seq 1;
    bytes_since_anchor = sat_add64 r.bytes_since_anchor 1;
  }

  unfoldable pub push_byte : ScrollbackRing P → ℕ → Option (ScrollbackRing P)
  push_byte r byte = maybe_evict (maybe_place_anchor (appended r byte))

  unfoldable pub push : ScrollbackRing P → Bytes → Option (ScrollbackRing P)
  push r [] = some r
  push r (b ∷ bs) = elim (push_byte r b) [ none ↦ none | some r' ↦ push r' bs ]
