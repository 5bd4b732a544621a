-- ===== src/Pty/Ring/Pages.antt =====
-- crates/server/pty/src/ring.rs: `history_page`, and a client that pages backwards through the window.
use cli_pocket.Prelude.{
  ℕ, zero, suc, ◌+◌, ◌-◌, ◌≤◌, ◌<◌, ◌≡◌, refl, sym, subst, ap, ◌∙◌, inl, inr, Option, none, some,
  [], ◌++◌, length, length-drop, length-take, take, drop, drop-drop, take-drop, take_all,
  slice_append, min, arith, ltb, Bool-cases, if◌then◌else◌,
}
use cli_pocket.Proto.Wire.{Bytes}
use cli_pocket.Pty.Parser.{Vte}
use cli_pocket.Pty.Ring.{ScrollbackRing, HistorySlice, history_page, page_ending, unwrap_or, clamp}
use cli_pocket.Pty.Ring.Represents.{Represents}
use cli_pocket.Pty.Ring.Push.{AreAnchors-le}

module _ {P : Type 0} (vte : Vte P) where
  -- A page of the history: where it ends, which bytes it has, and whether there are older ones.
  abbrev pub IsPage : Bytes → ScrollbackRing P → ℕ → ℕ → HistorySlice → Type 0
  IsPage history r end max_bytes p =
      (p.end_seq ≡ clamp end r.tail_offset (length history))
      × (r.tail_offset ≤ p.start_seq)
      × (p.start_seq + length p.bytes ≡ p.end_seq)
      × (p.end_seq ≤ length history)
      × (p.bytes ≡ drop p.start_seq (take p.end_seq history))
      × (length p.bytes ≡ min (p.end_seq - r.tail_offset) max_bytes)
      × (p.has_more ≡ ltb r.tail_offset p.start_seq)

  -- A page ends where it is asked to, moved into the window, has the bytes of the history between its
  -- start and its end, as many of them as the limit and the window allow, and tells whether the window
  -- has older ones.
  pub history_page_exact :
      (history : Bytes) (r : ScrollbackRing P) (before : Option ℕ) (max_bytes : ℕ)
      → Represents vte history r
      → IsPage history r
          (unwrap_or before (length history))
          max_bytes
          (history_page r before max_bytes)
  unfolding history_page
  history_page_exact history r before max_bytes h =
      let tail_le =
        (AreAnchors-le vte history r.tail_offset r.bytes_since_anchor r.anchors h.anchored).0 in
      let end = clamp (unwrap_or before (length history)) r.tail_offset (length history) in
      let page_len = min (end - r.tail_offset) max_bytes in
      let start = end - page_len in
      let low : r.tail_offset ≤ end = ground arith in
      let high : end ≤ length history = ground arith in
      let from : r.tail_offset + (start - r.tail_offset) ≡ start = omega arith in
      let to : start + page_len ≡ end = omega arith in
      let bytes : take page_len (drop (start - r.tail_offset) r.bytes)
          ≡ drop start (take end history) =
        ap (λ bs. take page_len (drop (start - r.tail_offset) bs)) h.window
        ∙ ap (take page_len) (drop-drop (start - r.tail_offset) r.tail_offset history)
        ∙ take-drop page_len (r.tail_offset + (start - r.tail_offset)) history
        ∙ ap (λ k. drop k (take (k + page_len) history)) from
        ∙ ap (λ k. drop start (take k history)) to in
      let size : length (take page_len (drop (start - r.tail_offset) r.bytes)) ≡ page_len =
        ap length bytes
        ∙ length-drop start (take end history)
        ∙ omega (arith, length-take end history) in
      let page : history_page r before max_bytes ≡ page_ending r end max_bytes =
        ap (λ k. page_ending r (clamp (unwrap_or before k) r.tail_offset k) max_bytes) h.head in
      subst (IsPage history r (unwrap_or before (length history)) max_bytes) (sym page)
        (refl, omega arith, omega (arith, size), high, bytes, size, refl)

  -- A client that asks for the pages before `before`, the newest first, until there are no more.
  abbrev pub scroll_back : ℕ → ScrollbackRing P → Option ℕ → ℕ → Bytes
  scroll_back zero r before max_bytes = []
  scroll_back (suc fuel) r before max_bytes =
      let p = history_page r before max_bytes in
      let older = scroll_back fuel r (some p.start_seq) max_bytes in
      (if p.has_more then older else []) ++ p.bytes

  pages_before :
      (fuel : ℕ) (history : Bytes) (r : ScrollbackRing P) (before : Option ℕ) (max_bytes : ℕ)
      → Represents vte history r
      → 1 ≤ max_bytes
      → r.tail_offset ≤ unwrap_or before (length history)
      → unwrap_or before (length history) ≤ length history
      → unwrap_or before (length history) - r.tail_offset < fuel
      → scroll_back fuel r before max_bytes
        ≡ drop r.tail_offset (take (unwrap_or before (length history)) history)
  pages_before zero history r before max_bytes h some_bytes low high enough = absurd (omega arith)
  pages_before (suc fuel) history r before max_bytes h some_bytes low high enough =
      let end = unwrap_or before (length history) in
      let p = history_page r before max_bytes in
      let (at, above, size, inside, bytes, len, more) =
        history_page_exact history r before max_bytes h in
      let at_end : p.end_seq ≡ end = at ∙ ground arith in
      elim (Bool-cases p.has_more) [
        | inr all ↦
            let first : p.start_seq ≡ r.tail_offset = ground arith in
            rw all (
              bytes
              ∙ ap (λ k. drop k (take p.end_seq history)) first
              ∙ ap (λ k. drop r.tail_offset (take k history)) at_end)
        | inl older ↦
            let behind : r.tail_offset < p.start_seq = ground arith in
            let rest =
              pages_before fuel history r (some p.start_seq) max_bytes h some_bytes above
                (omega arith) (omega (arith, behind)) in
            rw (older, rest, bytes)
              (slice_append r.tail_offset p.start_seq p.end_seq history above (omega arith) inside
                ∙ ap (λ k. drop r.tail_offset (take k history)) at_end)
      ]

  -- A client that asks for pages of one byte at least, each before the start of the last one, has after
  -- finitely many of them exactly the window: no byte is left out, and none comes twice.
  pub scroll_back-window :
      (history : Bytes) (r : ScrollbackRing P) (max_bytes : ℕ)
      → Represents vte history r
      → 1 ≤ max_bytes
      → scroll_back (suc (length history)) r none max_bytes ≡ r.bytes
  scroll_back-window history r max_bytes h some_bytes =
      let tail_le =
        (AreAnchors-le vte history r.tail_offset r.bytes_since_anchor r.anchors h.anchored).0 in
      pages_before (suc (length history)) history r none max_bytes h some_bytes tail_le
        (omega arith) (omega arith)
      ∙ ap (drop r.tail_offset) (take_all (length history) history (omega arith))
      ∙ sym h.window
