-- ===== src/Pty/Ring/Push.antt =====
-- crates/server/pty/src/ring.rs: `push` keeps the history.
use mathlib.Core.List.{append_assoc, append-nil}
use cli_pocket.Prelude.{
  ℕ, suc, ◌≤◌, ◌<◌, ◌≡◌, refl, sym, subst, ap, ◌∙◌, ◌⊎◌, inl, inr, true, false, not, ◌&&◌, Option,
  none, some, List, [], ◌∷◌, ◌++◌, length, length-append, take, drop-append, take-append_le,
  take_all, arith, ltb, sat_add64, u64_max, Bool-cases, ok, err,
}
use cli_pocket.Proto.Wire.{Bytes}
use cli_pocket.Pty.Parser.{Vte, AnchorTracker, advance, advance_byte}
use cli_pocket.Pty.Ring.{
  Anchor, ScrollbackRing, is_empty, head_anchor, maybe_place_anchor, appended, push_byte, push, new,
  capacity_too_large, max_capacity_bytes, unwrap_or, empty_ring, default_capacity_bytes,
}
use cli_pocket.Pty.Ring.Represents.{AreLinked, AreAnchors, IsSound, Represents, IsBounded}
use cli_pocket.Pty.Ring.Evict.{evict-Represents}

module _ {P : Type 0} (vte : Vte P) where
  advance-append :
      (t : AnchorTracker P) (xs ys : Bytes)
      → advance vte t (xs ++ ys) ≡ advance vte (advance vte t xs) ys
  unfolding advance
  advance-append t [] ys = refl
  advance-append t (x ∷ xs) ys = advance-append (advance_byte vte t x) xs ys

  IsSound-append :
      (history more : Bytes) (a : Anchor) → IsSound vte history a → IsSound vte (history ++ more) a
  IsSound-append history more a (inside, state) = (
    omega (arith, length-append history more),
    rw (take-append_le a.byte_offset history more inside) state,
  )

  AreLinked-append :
      (history : Bytes) (byte behind : ℕ) (a : Anchor) (rest : List Anchor)
      → AreLinked vte history behind a rest
      → AreLinked vte (history ++ byte ∷ []) (suc behind) a rest
  AreLinked-append history byte behind a [] h = omega (arith, length-append history (byte ∷ []))
  AreLinked-append history byte behind a (b ∷ rest) (before, sound, linked) = (
    before,
    IsSound-append history (byte ∷ []) b sound,
    AreLinked-append history byte behind b rest linked,
  )

  behind-le :
      (history : Bytes) (behind : ℕ) (a : Anchor) (rest : List Anchor)
      → AreLinked vte history behind a rest
      → behind ≤ length history
  behind-le history behind a [] h = omega arith
  behind-le history behind a (b ∷ rest) (before, sound, linked) =
      behind-le history behind b rest linked

  AreLinked-snoc :
      (history : Bytes) (behind : ℕ) (a c : Anchor) (rest : List Anchor)
      → AreLinked vte history behind a rest
      → 1 ≤ behind
      → IsSound vte history c
      → c.byte_offset ≡ length history
      → AreLinked vte history 0 a (rest ++ c ∷ [])
  AreLinked-snoc history behind a c [] h some_behind sound at_head =
      (omega arith, sound, omega arith)
  AreLinked-snoc history behind a c (b ∷ rest) (before, sound_b, linked) some_behind sound at_head =
      (before, sound_b, AreLinked-snoc history behind b c rest linked some_behind sound at_head)

  AreAnchors-append :
      (history : Bytes) (byte tail behind : ℕ) (anchors : List Anchor)
      → AreAnchors vte history tail behind anchors
      → AreAnchors vte (history ++ byte ∷ []) tail (suc behind) anchors
  AreAnchors-append history byte tail behind [] h = h
  AreAnchors-append history byte tail behind (a ∷ rest) (at_tail, sound, linked) = (
    at_tail,
    IsSound-append history (byte ∷ []) a sound,
    AreLinked-append history byte behind a rest linked,
  )

  AreAnchors-snoc :
      (history : Bytes) (tail behind : ℕ) (c : Anchor) (anchors : List Anchor)
      → AreAnchors vte history tail behind anchors
      → 1 ≤ behind
      → IsSound vte history c
      → c.byte_offset ≡ length history
      → AreAnchors vte history tail 0 (anchors ++ c ∷ [])
  AreAnchors-snoc history tail behind c [] h some_behind sound at_head = absurd h
  AreAnchors-snoc history tail behind c (a ∷ rest) (at_tail, sound_a, linked) some_behind sound
        at_head =
      (at_tail, sound_a, AreLinked-snoc history behind a c rest linked some_behind sound at_head)

  -- The window begins inside the history, and the count of the bytes behind the last anchor is a part
  -- of it.
  pub AreAnchors-le :
      (history : Bytes) (tail behind : ℕ) (anchors : List Anchor)
      → AreAnchors vte history tail behind anchors
      → (tail ≤ length history) × (behind ≤ length history)
  AreAnchors-le history tail behind [] h = absurd h
  AreAnchors-le history tail behind (a ∷ rest) (at_tail, sound, linked) =
      (omega (arith, sound.0, at_tail), behind-le history behind a rest linked)

  AreAnchors-some :
      (history : Bytes) (tail behind : ℕ) (anchors : List Anchor)
      → AreAnchors vte history tail behind anchors
      → is_empty anchors ≡ false
  AreAnchors-some history tail behind [] h = absurd h
  AreAnchors-some history tail behind (a ∷ rest) h = refl

  appended-Represents :
      (history : Bytes) (byte : ℕ) (r : ScrollbackRing P)
      → Represents vte history r
      → suc (length history) ≤ u64_max
      → Represents vte (history ++ byte ∷ []) (appended vte r byte)
  appended-Represents history byte r h small =
      let (tail_le, behind_le) =
        AreAnchors-le history r.tail_offset r.bytes_since_anchor r.anchors h.anchored in
      let counted : sat_add64 r.bytes_since_anchor 1 ≡ suc r.bytes_since_anchor = omega arith in
      record {
        head = omega (arith, h.head, length-append history (byte ∷ []));
        tracked =
            ap (λ t. advance vte t (byte ∷ [])) h.tracked
            ∙ sym (advance-append _ history (byte ∷ []));
        window =
            ap (λ bs. bs ++ byte ∷ []) h.window
            ∙ sym (drop-append r.tail_offset history (byte ∷ []) tail_le);
        anchored = rw counted (
            AreAnchors-append history byte r.tail_offset r.bytes_since_anchor r.anchors h.anchored);
        spaced = h.spaced;
      }

  head_anchor-IsSound :
      (history : Bytes) (r : ScrollbackRing P)
      → Represents vte history r
      → IsSound vte history (head_anchor r)
  head_anchor-IsSound history r h =
      let all : take r.head_seq history ≡ history =
        take_all r.head_seq history (omega (arith, h.head)) in
      (omega (arith, h.head), rw (all, h.tracked) refl)

  maybe_place_anchor-Represents :
      (history : Bytes) (r : ScrollbackRing P)
      → Represents vte history r
      → Represents vte history (maybe_place_anchor r)
  unfolding maybe_place_anchor
  maybe_place_anchor-Represents history r h =
      elim (Bool-cases (not (is_empty r.anchors) && ltb r.bytes_since_anchor r.anchor_interval)) [
        | inl near ↦ rw near h
        | inr far ↦ elim (Bool-cases (not (is_empty r.anchors) && not r.tracker.at_safe_split)) [
          | inl unsafe ↦ rw (far, unsafe) h
          | inr safe ↦
              let there =
                AreAnchors-some history r.tail_offset r.bytes_since_anchor r.anchors h.anchored in
              let some_behind : 1 ≤ r.bytes_since_anchor = ground (arith, h.spaced) in
              rw (far, safe)
                (record {
                  head = h.head;
                  tracked = h.tracked;
                  window = h.window;
                  anchored =
                      AreAnchors-snoc history r.tail_offset r.bytes_since_anchor (head_anchor r)
                        r.anchors h.anchored some_behind (head_anchor-IsSound history r h) h.head;
                  spaced = h.spaced;
                })
        ]
      ]

  push_byte-Represents :
      (history : Bytes) (byte : ℕ) (r : ScrollbackRing P)
      → Represents vte history r
      → suc (length history) ≤ u64_max
      → (r' : ScrollbackRing P) × (push_byte vte r byte ≡ some r')
        × Represents vte (history ++ byte ∷ []) r'
        × IsBounded vte r'
  unfolding push_byte
  push_byte-Represents history byte r h small =
      let longer : length (history ++ byte ∷ []) ≤ u64_max =
        omega (arith, length-append history (byte ∷ [])) in
      let placed =
        maybe_place_anchor-Represents (history ++ byte ∷ []) (appended vte r byte)
          (appended-Represents history byte r h small) in
      let (r', run, h', bounded, trimmed) =
        evict-Represents vte _ (history ++ byte ∷ []) (maybe_place_anchor (appended vte r byte))
          placed longer (omega arith) in
      (r', run, h', bounded)

  push_step :
      (r r' : ScrollbackRing P) (byte : ℕ) (rest : Bytes)
      → push_byte vte r byte ≡ some r'
      → push vte r (byte ∷ rest) ≡ push vte r' rest
  unfolding push
  push_step r r' byte rest e =
      ap
        (λ o. elim o as (λ x. Option (ScrollbackRing P)) [ none ↦ none | some x ↦ push vte x rest ])
        e

  -- As long as the history fits a 64-bit counter, pushing a chunk has a result: no loop of the eviction
  -- runs on and no `drain` panics. The ring then represents the history with the chunk behind it: its
  -- window is the end of the history, each anchor holds the state of a terminal that has read the
  -- history up to it, and it is within its capacity or has one anchor only.
  pub push-Represents :
      (chunk history : Bytes) (r : ScrollbackRing P)
      → Represents vte history r
      → IsBounded vte r
      → length (history ++ chunk) ≤ u64_max
      → (r' : ScrollbackRing P) × (push vte r chunk ≡ some r')
        × Represents vte (history ++ chunk) r'
        × IsBounded vte r'
  unfolding push
  push-Represents [] history r h bounded small = (r, refl, rw (append-nil history) h, bounded)
  push-Represents (b ∷ chunk) history r h bounded small =
      let step =
        push_byte-Represents history b r h (omega (arith, length-append history (b ∷ chunk))) in
      let assoc : (history ++ b ∷ []) ++ chunk ≡ history ++ b ∷ chunk =
        append_assoc history (b ∷ []) chunk in
      let (r', run, h', bounded') =
        push-Represents chunk (history ++ b ∷ []) step.0 step.2 step.3 (rw assoc small) in
      (
        r',
        push_step r step.0 b chunk step.1 ∙ run,
        subst (λ bs. Represents vte bs r') assoc h',
        bounded',
      )

  pub empty-Represents :
      (cols rows cap : ℕ) → Represents vte [] (maybe_place_anchor (empty_ring vte cols rows cap))
  unfolding maybe_place_anchor advance
  empty-Represents cols rows cap = record {
    head = refl;
    tracked = refl;
    window = refl;
    anchored = (refl, (omega arith, refl), refl);
    spaced = ground arith;
  }

  -- A new ring represents the empty history, or the capacity is over the limit and refused.
  pub new-Represents :
      (cols rows : ℕ) (capacity : Option ℕ)
      → ((r : ScrollbackRing P) × (new vte cols rows capacity ≡ ok r)
          × Represents vte [] r
          × IsBounded vte r
          × (r.cols ≡ cols)
          × (r.rows ≡ rows)
          × (r.cap ≤ max_capacity_bytes))
        ⊎ ((cap : ℕ) × (capacity ≡ some cap)
            × (max_capacity_bytes < cap)
            × (new vte cols rows capacity ≡ err (capacity_too_large cap)))
  unfolding new maybe_place_anchor advance
  new-Represents cols rows capacity =
      elim (Bool-cases (ltb max_capacity_bytes (unwrap_or capacity default_capacity_bytes))) [
        | inl over ↦ inr (given capacity over)
        | inr within ↦ inl (
          maybe_place_anchor (empty_ring vte cols rows (unwrap_or capacity default_capacity_bytes)),
          rw within refl,
          empty-Represents cols rows _,
          inr refl,
          refl,
          refl,
          ground arith,
        )
      ]
    where
      given :
          (c : Option ℕ)
          → ltb max_capacity_bytes (unwrap_or c default_capacity_bytes) ≡ true
          → (cap : ℕ) × (c ≡ some cap)
            × (max_capacity_bytes < cap)
            × (new vte cols rows c ≡ err (capacity_too_large cap))
      given none over = absurd (ground arith)
      given (some limit) over = (limit, refl, ground arith, rw over refl)
