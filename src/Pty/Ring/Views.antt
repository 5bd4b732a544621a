-- ===== src/Pty/Ring/Views.antt =====
-- crates/server/pty/src/ring.rs: `snapshot`, `snapshot_with_max_bytes` and `since` against the history.
use cli_pocket.Prelude.{
  ℕ, ◌+◌, ◌-◌, ◌≤◌, ◌<◌, ◌≡◌, refl, sym, subst, ap, ◌∙◌, ◌⊎◌, inl, inr, Bool, none, some, List, [],
  ◌∷◌, ◌++◌, length, length-drop, get_elem?, take, drop, drop-drop, drop_all, take-append-drop,
  take_all, arith, ltb, leb, Bool-cases, if◌then◌else◌,
}
use cli_pocket.Proto.Wire.{Bytes}
use cli_pocket.Proto.Snapshot.{Snapshot, DeltaSlice}
use cli_pocket.Pty.Parser.{Vte, snapshot_state}
use cli_pocket.Pty.Ring.{
  Anchor, ScrollbackRing, find_last, found, anchor_or, bounded, snapshot, snapshot_from_anchor,
  empty_snapshot, snapshot_with_max_bytes, since,
}
use cli_pocket.Pty.Ring.Represents.{after, AreLinked, AreAnchors, IsSound, Represents}

module _ {P : Type 0} (vte : Vte P) where
  -- A terminal in the state of the snapshot, fed with its bytes, has read the whole history: the state
  -- is the one behind a beginning of the history, and the bytes are the rest.
  abbrev pub IsCut : Bytes → Snapshot → Type 0
  IsCut history s =
      (n : ℕ) × (n ≤ length history)
      × (s.anchor_state ≡ snapshot_state (after vte (take n history)))
      × (s.bytes ≡ drop n history)
      × (s.head_seq ≡ length history)

  abbrev last : Anchor → List Anchor → Anchor
  last a [] = a
  last a (b ∷ rest) = last b rest

  last_lem :
      (history : Bytes) (tail behind : ℕ) (a : Anchor) (rest : List Anchor)
      → tail ≤ a.byte_offset
      → IsSound vte history a
      → AreLinked vte history behind a rest
      → IsSound vte history (last a rest)
        × (tail ≤ (last a rest).byte_offset)
        × ((last a rest).byte_offset + behind ≡ length history)
  last_lem history tail behind a [] low sound h = (sound, low, h)
  last_lem history tail behind a (b ∷ rest) low sound (before, sound_b, linked) =
      last_lem history tail behind b rest (omega arith) sound_b linked

  abbrev fits : ℕ → ℕ → Anchor → Bool
  fits head max_bytes a = leb (head - a.byte_offset) max_bytes

  -- The search from the end stops at the newest anchor, or finds none.
  find_last_newest :
      (history : Bytes) (behind max_bytes : ℕ) (a : Anchor) (rest : List Anchor)
      → AreLinked vte history behind a rest
      → find_last (fits (length history) max_bytes) (a ∷ rest)
        ≡ (if leb behind max_bytes then some (last a rest) else none)
  unfolding find_last
  find_last_newest history behind max_bytes a [] h = ground arith
  find_last_newest history behind max_bytes a (b ∷ rest) (before, sound, linked) =
      let (_, low, at) = last_lem history a.byte_offset behind b rest (omega arith) sound linked in
      let newest = find_last_newest history behind max_bytes b rest linked in
      ap (λ o. found o (fits (length history) max_bytes a) a) newest ∙ ground arith

  cut_at :
      (history : Bytes) (r : ScrollbackRing P) (a : Anchor)
      → Represents vte history r
      → IsSound vte history a
      → r.tail_offset ≤ a.byte_offset
      → (snapshot_from_anchor r a).bytes ≡ drop a.byte_offset history
  unfolding snapshot_from_anchor
  cut_at history r a h sound low =
      ap (drop (a.byte_offset - r.tail_offset)) h.window
      ∙ drop-drop (a.byte_offset - r.tail_offset) r.tail_offset history
      ∙ ap (λ k. drop k history) (omega arith)

  -- Inside the window and at both its ends, `since` returns the rest of the history, which completes the
  -- part of it in front of the sequence number; before the window and beyond the head it returns none.
  pub since_exact :
      (history : Bytes) (r : ScrollbackRing P) (seq : ℕ)
      → Represents vte history r
      → (((seq < r.tail_offset) ⊎ (length history < seq)) × (since r seq ≡ none))
        ⊎ ((r.tail_offset ≤ seq)
            × (seq ≤ length history)
            × (d : DeltaSlice) × (since r seq ≡ some d)
            × (take seq history ++ d.bytes ≡ history)
            × (d.head_seq ≡ length history))
  unfolding since
  since_exact history r seq h = elim (Bool-cases (ltb seq r.tail_offset)) [
    | inl old ↦ inl (inl (ground arith), rw old refl)
    | inr kept ↦ elim (Bool-cases (ltb r.head_seq seq)) [
      | inl ahead ↦ inl (inr (ground (arith, h.head)), rw (kept, ahead) refl)
      | inr within ↦
          let rest : drop (seq - r.tail_offset) r.bytes ≡ drop seq history =
            ap (drop (seq - r.tail_offset)) h.window
            ∙ drop-drop (seq - r.tail_offset) r.tail_offset history
            ∙ ap (λ k. drop k history) (ground arith) in
          inr (
            ground arith,
            ground (arith, h.head),
            _,
            rw (kept, within) refl,
            ap (λ bs. take seq history ++ bs) rest ∙ take-append-drop seq history,
            h.head,
          )
    ]
  ]

  anchor_cases :
      (history : Bytes) (r : ScrollbackRing P)
      → Represents vte history r
      → (a : Anchor) × (rest : List Anchor) × (r.anchors ≡ a ∷ rest)
        × (a.byte_offset ≡ r.tail_offset)
        × IsSound vte history a
        × AreLinked vte history r.bytes_since_anchor a rest
  anchor_cases history r h = split r.anchors h.anchored
    where
      split :
          (anchors : List Anchor)
          → AreAnchors vte history r.tail_offset r.bytes_since_anchor anchors
          → (a : Anchor) × (rest : List Anchor) × (anchors ≡ a ∷ rest)
            × (a.byte_offset ≡ r.tail_offset)
            × IsSound vte history a
            × AreLinked vte history r.bytes_since_anchor a rest
      split [] k = absurd k
      split (a ∷ rest) (at_tail, sound, linked) = (a, rest, refl, at_tail, sound, linked)

  from_anchor-IsCut :
      (history : Bytes) (r : ScrollbackRing P) (a : Anchor)
      → Represents vte history r
      → IsSound vte history a
      → r.tail_offset ≤ a.byte_offset
      → IsCut history (snapshot_from_anchor r a)
  unfolding snapshot_from_anchor
  from_anchor-IsCut history r a h sound low =
      (a.byte_offset, sound.0, sound.1, cut_at history r a h sound low, h.head)

  -- The snapshot is a cut of the history, and shows the whole window.
  pub snapshot_whole :
      (history : Bytes) (r : ScrollbackRing P)
      → Represents vte history r
      → IsCut history (snapshot r) × ((snapshot r).bytes ≡ r.bytes)
  unfolding snapshot
  snapshot_whole history r h =
      let (a, rest, e, at_tail, sound, linked) = anchor_cases history r h in
      let low : r.tail_offset ≤ a.byte_offset = omega (arith, at_tail) in
      let oldest : Anchor = record {
        byte_offset = r.tail_offset;
        state = snapshot_state r.tracker;
      } in
      let first : snapshot r ≡ snapshot_from_anchor r a =
        ap (λ anchors. snapshot_from_anchor r (anchor_or (get_elem? anchors 0) oldest)) e in
      subst (λ s. IsCut history s × (s.bytes ≡ r.bytes)) (sym first)
        (
          from_anchor-IsCut history r a h sound low,
          cut_at history r a h sound low ∙ ap (λ k. drop k history) at_tail ∙ sym h.window,
        )

  bounded_choice :
      (history : Bytes) (r : ScrollbackRing P) (max_bytes : ℕ) (a : Anchor) (rest : List Anchor)
      → Represents vte history r
      → r.anchors ≡ a ∷ rest
      → AreLinked vte history r.bytes_since_anchor a rest
      → snapshot_with_max_bytes r max_bytes
        ≡ bounded r (if leb r.bytes_since_anchor max_bytes then some (last a rest) else none)
  unfolding snapshot_with_max_bytes
  bounded_choice history r max_bytes a rest h e linked =
      ap (λ k. bounded r (find_last (fits k max_bytes) r.anchors)) h.head
      ∙ ap (λ anchors. bounded r (find_last (fits (length history) max_bytes) anchors)) e
      ∙ ap (bounded r) (find_last_newest history r.bytes_since_anchor max_bytes a rest linked)

  -- Nothing is shown: the state is the one at the end of the history.
  empty-IsCut :
      (history : Bytes) (r : ScrollbackRing P)
      → Represents vte history r
      → IsCut history (empty_snapshot r)
  empty-IsCut history r h =
      let all = take_all (length history) history (omega arith) in
      (length history, omega arith, rw (all, h.tracked) refl, sym (drop_all history), h.head)

  abbrev IsBoundedCut : Bytes → ScrollbackRing P → ℕ → Snapshot → Type 0
  IsBoundedCut history r max_bytes s =
      IsCut history s
      × (length s.bytes ≡ (if leb r.bytes_since_anchor max_bytes then r.bytes_since_anchor else 0))

  -- A bounded snapshot is a cut of the history, so that it has at most `max_bytes` bytes: those behind
  -- the newest anchor when they fit, and none otherwise, even when more of the window would fit.
  pub snapshot_bounded :
      (history : Bytes) (r : ScrollbackRing P) (max_bytes : ℕ)
      → Represents vte history r
      → IsCut history (snapshot_with_max_bytes r max_bytes)
        × (length (snapshot_with_max_bytes r max_bytes).bytes
            ≡ (if leb r.bytes_since_anchor max_bytes then r.bytes_since_anchor else 0))
  snapshot_bounded history r max_bytes h =
      let (a, rest, e, at_tail, sound, linked) = anchor_cases history r h in
      let (sound', low, at) =
        last_lem history r.tail_offset r.bytes_since_anchor a rest (omega (arith, at_tail)) sound
          linked in
      let choice = bounded_choice history r max_bytes a rest h e linked in
      let size : length (snapshot_from_anchor r (last a rest)).bytes ≡ r.bytes_since_anchor =
        ap length (cut_at history r (last a rest) h sound' low)
        ∙ length-drop (last a rest).byte_offset history
        ∙ omega (arith, at) in
      subst (IsBoundedCut history r max_bytes) (sym choice)
        (elim (Bool-cases (leb r.bytes_since_anchor max_bytes)) [
          | inl fit ↦ rw fit (from_anchor-IsCut history r (last a rest) h sound' low, size)
          | inr over ↦ rw over (empty-IsCut history r h, refl)
        ])
