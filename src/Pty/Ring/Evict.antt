-- ===== src/Pty/Ring/Evict.antt =====
-- crates/server/pty/src/ring.rs: `maybe_evict` ends, never drains more than there is, and drops the
-- bytes of the history in front of an anchor.
use cli_pocket.Prelude.{
  ℕ, zero, suc, ◌+◌, ◌-◌, ◌≤◌, ◌<◌, ◌≡◌, refl, sym, subst, ap, ◌∙◌, ◌⊎◌, inl, inr, true, false,
  none, some, List, [], ◌∷◌, length, get_elem?, length-drop, drop, drop-drop, arith, ltb, ◌==◌,
  sat_add64, u64_max, Bool-cases,
}
use cli_pocket.Proto.Wire.{Bytes}
use cli_pocket.Pty.Parser.{Vte}
use cli_pocket.Pty.Ring.{
  Anchor, ScrollbackRing, drop_stale_anchors, target_of, eviction_target, evict, dropped,
}
use cli_pocket.Pty.Ring.Represents.{AreLinked, AreAnchors, Represents, IsBounded}

module _ {P : Type 0} (vte : Vte P) where
  -- The anchors that remain when the window begins at the second one.
  drop_stale-second :
      (history : Bytes) (behind : ℕ) (a b : Anchor) (rest : List Anchor)
      → AreLinked vte history behind b rest
      → drop_stale_anchors b.byte_offset (a ∷ b ∷ rest) ≡ b ∷ rest
  unfolding drop_stale_anchors
  drop_stale-second history behind a b [] h = ground arith
  drop_stale-second history behind a b (c ∷ rest) h = ground arith

  -- What an evicting ring keeps of its other fields.
  abbrev pub IsTrimmed : ScrollbackRing P → ScrollbackRing P → Type 0
  IsTrimmed r r' =
      (r'.cap ≡ r.cap) × (r'.cols ≡ r.cols) × (r'.rows ≡ r.rows) × (r.tail_offset ≤ r'.tail_offset)

  pub window_length :
      (history : Bytes) (r : ScrollbackRing P)
      → Represents vte history r
      → length r.bytes ≡ length history - r.tail_offset
  window_length history r h = ap length h.window ∙ length-drop r.tail_offset history

  dropped-Represents :
      (history : Bytes) (r : ScrollbackRing P) (a b : Anchor) (rest : List Anchor)
      → Represents vte history r
      → r.anchors ≡ a ∷ b ∷ rest
      → length history ≤ u64_max
      → Represents vte history (dropped (b.byte_offset - r.tail_offset) r)
  dropped-Represents history r a b rest h e small =
      let anchors =
        subst (AreAnchors vte history r.tail_offset r.bytes_since_anchor) e h.anchored in
      let (at_tail, sound, (increasing, sound_b, linked)) = anchors in
      let to_drop = b.byte_offset - r.tail_offset in
      let sum : r.tail_offset + to_drop ≡ b.byte_offset = omega (arith, anchors) in
      let tail : sat_add64 r.tail_offset to_drop ≡ b.byte_offset = omega (arith, anchors) in
      let left : drop_stale_anchors (sat_add64 r.tail_offset to_drop) r.anchors ≡ b ∷ rest =
        rw (tail, e) (drop_stale-second history r.bytes_since_anchor a b rest linked) in
      record {
        head = h.head;
        tracked = h.tracked;
        window =
            ap (drop to_drop) h.window
            ∙ drop-drop to_drop r.tail_offset history
            ∙ ap (λ k. drop k history) (sum ∙ sym tail);
        anchored = rw left (sym tail, sound_b, linked);
        spaced = h.spaced;
      }

  anchors_cases :
      (history : Bytes) (tail behind : ℕ) (anchors : List Anchor)
      → AreAnchors vte history tail behind anchors
      → ((a : Anchor) × (anchors ≡ a ∷ []))
        ⊎ ((a : Anchor) × (b : Anchor) × (rest : List Anchor) × (anchors ≡ a ∷ b ∷ rest))
  anchors_cases history tail behind [] h = absurd h
  anchors_cases history tail behind (a ∷ []) h = inl (a, refl)
  anchors_cases history tail behind (a ∷ b ∷ rest) h = inr (a, b, rest, refl)

  -- The tests of the loop, on a ring with a second anchor.
  second_anchor :
      (history : Bytes) (r : ScrollbackRing P) (a b : Anchor) (rest : List Anchor)
      → Represents vte history r
      → r.anchors ≡ a ∷ b ∷ rest
      → (ltb r.tail_offset b.byte_offset ≡ true)
        × (b.byte_offset ≤ length history)
        × ((b.byte_offset - r.tail_offset == 0) ≡ false)
        × (ltb (length r.bytes) (b.byte_offset - r.tail_offset) ≡ false)
  second_anchor history r a b rest h e =
      let anchors =
        subst (AreAnchors vte history r.tail_offset r.bytes_since_anchor) e h.anchored in
      let (at_tail, sound, (increasing, sound_b, linked)) = anchors in
      let size = window_length history r h in
      let before : r.tail_offset < b.byte_offset = omega (arith, anchors) in
      let inside : b.byte_offset ≤ length history = sound_b.0 in
      (ground arith, inside, ground arith, ground (arith, size))

  evict_fits :
      (fuel : ℕ) (r : ScrollbackRing P)
      → ltb r.cap (length r.bytes) ≡ false
      → evict (suc fuel) r ≡ some r
  unfolding evict
  evict_fits fuel r h = rw h refl

  target_one : (r : ScrollbackRing P) (a : Anchor) → r.anchors ≡ a ∷ [] → eviction_target r ≡ none
  unfolding eviction_target
  target_one r a e = ap (λ anchors. target_of (get_elem? anchors 1) r.tail_offset) e

  target_second :
      (r : ScrollbackRing P) (a b : Anchor) (rest : List Anchor)
      → r.anchors ≡ a ∷ b ∷ rest
      → ltb r.tail_offset b.byte_offset ≡ true
      → eviction_target r ≡ some b.byte_offset
  unfolding eviction_target
  target_second r a b rest e before =
      ap (λ anchors. target_of (get_elem? anchors 1) r.tail_offset) e ∙ rw before refl

  evict_one :
      (fuel : ℕ) (r : ScrollbackRing P)
      → ltb r.cap (length r.bytes) ≡ true
      → eviction_target r ≡ none
      → evict (suc fuel) r ≡ some r
  unfolding evict
  evict_one fuel r full e = rw (full, e) refl

  evict_step :
      (fuel target : ℕ) (r : ScrollbackRing P)
      → ltb r.cap (length r.bytes) ≡ true
      → eviction_target r ≡ some target
      → (target - r.tail_offset == 0) ≡ false
      → ltb (length r.bytes) (target - r.tail_offset) ≡ false
      → evict (suc fuel) r ≡ evict fuel (dropped (target - r.tail_offset) r)
  unfolding evict
  evict_step fuel target r full e some_dropped enough_held =
      rw (full, e, some_dropped, enough_held) refl

  -- With a turn for each byte the loop ends, never drains more than the ring holds, and leaves a ring
  -- of the same history within its capacity.
  pub evict-Represents :
      (fuel : ℕ) (history : Bytes) (r : ScrollbackRing P)
      → Represents vte history r
      → length history ≤ u64_max
      → length r.bytes < fuel
      → (r' : ScrollbackRing P) × (evict fuel r ≡ some r')
        × Represents vte history r'
        × IsBounded vte r'
        × IsTrimmed r r'
  unfolding evict eviction_target
  evict-Represents zero history r h small enough = absurd (omega arith)
  evict-Represents (suc fuel) history r h small enough =
      elim (Bool-cases (ltb r.cap (length r.bytes))) [
        | inr fits ↦
            (r, evict_fits fuel r fits, h, inl (ground arith), (refl, refl, refl, omega arith))
        | inl full ↦
            elim (anchors_cases history r.tail_offset r.bytes_since_anchor r.anchors h.anchored) [
              | inl (a, e) ↦ (
                r,
                evict_one fuel r full (target_one r a e),
                h,
                inr (ap length e),
                (refl, refl, refl, omega arith),
              )
              | inr (a, b, rest, e) ↦
                  let (before, inside, some_dropped, enough_held) =
                    second_anchor history r a b rest h e in
                  let to_drop = b.byte_offset - r.tail_offset in
                  let size = length-drop to_drop r.bytes in
                  let (r', run, h', bounded, trimmed) =
                    evict-Represents fuel history (dropped to_drop r)
                      (dropped-Represents history r a b rest h e small) small
                      (ground (arith, size)) in
                  (
                    r',
                    evict_step fuel b.byte_offset r full (target_second r a b rest e before)
                          some_dropped enough_held
                        ∙ run,
                    h',
                    bounded,
                    (trimmed.0, trimmed.1, trimmed.2, ground (arith, trimmed)),
                  )
            ]
      ]
