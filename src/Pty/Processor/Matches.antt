-- ===== src/Pty/Processor/Matches.antt =====
-- crates/server/pty/src/terminal.rs: a match that does not wait for more bytes is the same when there
-- are more.
use cli_pocket.Prelude.{
  ℕ, zero, suc, ◌+◌, ◌≤◌, ◌<◌, ◌≡◌, ◌≢◌, refl, ap, true, false, ◌||◌, Option, none, some, [], ◌∷◌,
  ◌++◌, length, get_elem?, drop, drop-append, take-append_le, length-drop, ◌==◌, Bool-cases,
  Option-cases, inl, inr, arith,
}
use cli_pocket.Proto.Wire.{Bytes}
use cli_pocket.Pty.Processor.{
  SequenceMatch, TitleSequenceMatch, Verdict, waits, answers, strips, titles, starts_with,
  suffix_match, split_prefixed_control_sequence, find_from, find_osc_terminator, title_match,
  after_selector, after_prefix, split_osc_title_sequence, title_verdict, sequence_verdict, verdict,
  cursor_position_query, win32_input_mode_prefix, focus_event_mode_prefix, osc_prefix,
}

starts_with-append : (r p more : Bytes) → starts_with r p ≡ true → starts_with (r ++ more) p ≡ true
unfolding starts_with
starts_with-append r [] more h = refl
starts_with-append [] (q ∷ p) more h = cc
starts_with-append (x ∷ r) (q ∷ p) more h = ground (arith, starts_with-append r p more)

no_prefix-append : (p r more : Bytes) → starts_with p r ≡ false → starts_with p (r ++ more) ≡ false
unfolding starts_with
no_prefix-append p [] more h = cc
no_prefix-append [] (x ∷ r) more h = refl
no_prefix-append (q ∷ p) (x ∷ r) more h = ground (arith, no_prefix-append p r more)

mismatch-append :
    (p r more : Bytes)
    → starts_with p r ≡ false
    → starts_with r p ≡ false
    → starts_with (r ++ more) p ≡ false
unfolding starts_with
mismatch-append [] r more h k = cc
mismatch-append (q ∷ p) [] more h k = cc
mismatch-append (q ∷ p) (x ∷ r) more h k = ground (arith, mismatch-append p r more)

get_elem?-append :
    (r more : Bytes) (i : ℕ) {c : ℕ} → get_elem? r i ≡ some c → get_elem? (r ++ more) i ≡ some c
get_elem?-append [] more i h = cc
get_elem?-append (x ∷ r) more zero h = h
get_elem?-append (x ∷ r) more (suc i) h = get_elem?-append r more i h

get_elem?-length : (r : Bytes) (i : ℕ) {c : ℕ} → get_elem? r i ≡ some c → i < length r
get_elem?-length [] i h = cc
get_elem?-length (x ∷ r) zero h = omega arith
get_elem?-length (x ∷ r) (suc i) h = omega (arith, get_elem?-length r i h)

find_from-append :
    (i : ℕ) (r more : Bytes) {x : ℕ × ℕ} → find_from i r ≡ some x → find_from i (r ++ more) ≡ some x
unfolding find_from
find_from-append i [] more h = cc
find_from-append i (b ∷ []) [] h = h
find_from-append i (b ∷ []) (m ∷ more) h = ground arith
find_from-append i (b ∷ c ∷ r) more {x} h =
    ground (arith, find_from-append (suc i) (c ∷ r) more {x = x})

split-append :
    (p r more : Bytes)
    → split_prefixed_control_sequence r p ≢ some SequenceMatch.incomplete
    → split_prefixed_control_sequence (r ++ more) p ≡ split_prefixed_control_sequence r p
unfolding split_prefixed_control_sequence
split-append p r more h = elim (Bool-cases (starts_with p r)) [
  | inl early ↦ absurd (h (rw early refl))
  | inr late ↦ elim (Bool-cases (starts_with r p)) [
    | inr other ↦
        rw (late, other, no_prefix-append p r more late, mismatch-append p r more late other) refl
    | inl matched ↦ elim (Option-cases (get_elem? r (length p))) [
      | inl short ↦ absurd (h (rw (late, matched, short) refl))
      | inr (c, at) ↦
          rw
            (
              late,
              matched,
              no_prefix-append p r more late,
              starts_with-append r p more matched,
              at,
              get_elem?-append r more (length p) at,
            )
            refl
    ]
  ]
]

find_from-bound :
    (i : ℕ) (r : Bytes) {n l : ℕ} → find_from i r ≡ some (n, l) → (i ≤ n) × (n + l ≤ i + length r)
unfolding find_from
find_from-bound i [] h = cc
find_from-bound i (b ∷ []) h = ground arith
find_from-bound i (b ∷ c ∷ r) {n} {l} h =
    ground (arith, find_from-bound (suc i) (c ∷ r) {n = n} {l = l})

title_match-append :
    (t more : Bytes)
    → title_match t (find_osc_terminator t) ≢ TitleSequenceMatch.incomplete
    → title_match (t ++ more) (find_osc_terminator (t ++ more))
      ≡ title_match t (find_osc_terminator t)
title_match-append t more h = elim (Option-cases (find_osc_terminator t)) [
  | inl open_ended ↦ absurd (h (rw open_ended refl))
  | inr ((n, l), e) ↦
      let inside : n ≤ length t = omega (arith, find_from-bound 0 t e) in
      rw (e, find_from-append 0 t more e, take-append_le n t more inside) refl
]

after_selector-append :
    (r more : Bytes)
    → after_selector r (get_elem? r 3) ≢ some TitleSequenceMatch.incomplete
    → after_selector (r ++ more) (get_elem? (r ++ more) 3) ≡ after_selector r (get_elem? r 3)
after_selector-append r more h = elim (Option-cases (get_elem? r 3)) [
  | inl short ↦ absurd (h (rw short refl))
  | inr (c, at) ↦
      let cut = drop-append 4 r more (omega (arith, get_elem?-length r 3 at)) in
      elim (Bool-cases (c == b';')) [
        | inr other ↦ rw (at, get_elem?-append r more 3 at, other) refl
        | inl matched ↦
            rw (at, get_elem?-append r more 3 at, matched, cut)
              (ap some (title_match-append (drop 4 r) more λ e. h (rw (at, matched) (ap some e))))
      ]
]

after_prefix-append :
    (r more : Bytes)
    → after_prefix r (get_elem? r 2) ≢ some TitleSequenceMatch.incomplete
    → after_prefix (r ++ more) (get_elem? (r ++ more) 2) ≡ after_prefix r (get_elem? r 2)
after_prefix-append r more h = elim (Option-cases (get_elem? r 2)) [
  | inl short ↦ absurd (h (rw short refl))
  | inr (c, at) ↦ elim (Bool-cases (c == b'0' || c == b'2')) [
    | inr other ↦ rw (at, get_elem?-append r more 2 at, other) refl
    | inl matched ↦
        rw (at, get_elem?-append r more 2 at, matched)
          (after_selector-append r more λ e. h (rw (at, matched) e))
  ]
]

osc-append :
    (r more : Bytes)
    → split_osc_title_sequence r ≢ some TitleSequenceMatch.incomplete
    → split_osc_title_sequence (r ++ more) ≡ split_osc_title_sequence r
unfolding split_osc_title_sequence
osc-append r more h = elim (Bool-cases (starts_with osc_prefix r)) [
  | inl early ↦ absurd (h (rw early refl))
  | inr late ↦
      let late' = no_prefix-append osc_prefix r more late in
      elim (Bool-cases (starts_with r osc_prefix)) [
        | inr other ↦ rw (late, other, late', mismatch-append osc_prefix r more late other) refl
        | inl matched ↦
            let matched' = starts_with-append r osc_prefix more matched in
            rw (late, matched, late', matched')
              (after_prefix-append r more λ e. h (rw (late, matched) e))
      ]
]

sequence_verdict-cong :
    (o : Option SequenceMatch) (v w : Verdict)
    → (o ≡ none → v ≡ w)
    → sequence_verdict o v ≡ sequence_verdict o w
sequence_verdict-cong none v w h = h refl
sequence_verdict-cong (some (SequenceMatch.consumed n)) v w h = refl
sequence_verdict-cong (some SequenceMatch.incomplete) v w h = refl

abbrev after_win32 : Bytes → Verdict
after_win32 r =
    sequence_verdict (split_prefixed_control_sequence r focus_event_mode_prefix)
      (title_verdict (split_osc_title_sequence r))

-- A verdict that does not wait for more bytes holds with any bytes behind.
pub verdict-append : (r more : Bytes) → verdict r ≢ waits → verdict (r ++ more) ≡ verdict r
unfolding verdict
verdict-append r more h = elim (Bool-cases (starts_with cursor_position_query r)) [
  | inl early ↦ absurd (h (rw early refl))
  | inr late ↦
      let late' = no_prefix-append cursor_position_query r more late in
      elim (Bool-cases (starts_with r cursor_position_query)) [
        | inl matched ↦
            rw (late, matched, late', starts_with-append r cursor_position_query more matched) refl
        | inr other ↦
            let win32 =
              split-append win32_input_mode_prefix r more λ e. h (rw (late, other, e) refl) in
            rw (late, other, late', mismatch-append cursor_position_query r more late other, win32)
              (sequence_verdict-cong (split_prefixed_control_sequence r win32_input_mode_prefix)
                (after_win32 (r ++ more)) (after_win32 r)
                λ no_win32.
                  let focus =
                    split-append focus_event_mode_prefix r more
                      λ e. h (rw (late, other, no_win32, e) refl) in
                  rw focus (
                    sequence_verdict-cong
                      (split_prefixed_control_sequence r focus_event_mode_prefix)
                      (title_verdict (split_osc_title_sequence (r ++ more)))
                      (title_verdict (split_osc_title_sequence r))
                      λ no_focus.
                        ap title_verdict (
                          osc-append r more λ e. h (rw (late, other, no_win32, no_focus, e) refl))))
      ]
]

starts_with-length : (r p : Bytes) → starts_with r p ≡ true → length p ≤ length r
unfolding starts_with
starts_with-length r [] h = omega arith
starts_with-length [] (q ∷ p) h = cc
starts_with-length (x ∷ r) (q ∷ p) h = ground (arith, starts_with-length r p)

-- A verdict takes a byte at least, and no more than there are.
abbrev pub IsWithin : Bytes → Verdict → Type 0
IsWithin r answers = 4 ≤ length r
IsWithin r (strips n) = (1 ≤ n) × (n ≤ length r)
IsWithin r (titles n t) = (1 ≤ n) × (n ≤ length r)
IsWithin r _ = Unit

suffix_match-IsWithin :
    (r p : Bytes) (other : Verdict)
    → IsWithin r other
    → IsWithin r (sequence_verdict (suffix_match (get_elem? r (length p)) (length p)) other)
suffix_match-IsWithin r p other h = elim (Option-cases (get_elem? r (length p))) [
  | inl short ↦ rw short tt
  | inr (c, at) ↦
      let inside = get_elem?-length r (length p) at in
      elim (Bool-cases (c == b'h' || c == b'l')) [
        | inl ends ↦ rw (at, ends) (omega arith, omega arith)
        | inr goes_on ↦ rw (at, goes_on) h
      ]
]

split-IsWithin :
    (r p : Bytes) (other : Verdict)
    → IsWithin r other
    → IsWithin r (sequence_verdict (split_prefixed_control_sequence r p) other)
unfolding split_prefixed_control_sequence
split-IsWithin r p other h = elim (Bool-cases (starts_with p r)) [
  | inl early ↦ rw early tt
  | inr late ↦ elim (Bool-cases (starts_with r p)) [
    | inl matched ↦ rw (late, matched) (suffix_match-IsWithin r p other h)
    | inr mismatched ↦ rw (late, mismatched) h
  ]
]

title_match-IsWithin :
    (r : Bytes)
    → 4 ≤ length r
    → IsWithin r (title_verdict (some (title_match (drop 4 r) (find_osc_terminator (drop 4 r)))))
title_match-IsWithin r h = elim (Option-cases (find_osc_terminator (drop 4 r))) [
  | inl open_ended ↦ rw open_ended tt
  | inr ((n, l), e) ↦
      let inside = find_from-bound 0 (drop 4 r) e in
      let size = length-drop 4 r in rw e (omega arith, omega (arith, inside, size))
]

after_selector-IsWithin :
    (r : Bytes) → IsWithin r (title_verdict (after_selector r (get_elem? r 3)))
after_selector-IsWithin r = elim (Option-cases (get_elem? r 3)) [
  | inl short ↦ rw short tt
  | inr (c, at) ↦ elim (Bool-cases (c == b';')) [
    | inl matched ↦
        rw (at, matched) (title_match-IsWithin r (omega (arith, get_elem?-length r 3 at)))
    | inr other ↦ rw (at, other) tt
  ]
]

after_prefix-IsWithin : (r : Bytes) → IsWithin r (title_verdict (after_prefix r (get_elem? r 2)))
after_prefix-IsWithin r = elim (Option-cases (get_elem? r 2)) [
  | inl short ↦ rw short tt
  | inr (c, at) ↦ elim (Bool-cases (c == b'0' || c == b'2')) [
    | inl matched ↦ rw (at, matched) (after_selector-IsWithin r)
    | inr other ↦ rw (at, other) tt
  ]
]

osc-IsWithin : (r : Bytes) → IsWithin r (title_verdict (split_osc_title_sequence r))
unfolding split_osc_title_sequence
osc-IsWithin r = elim (Bool-cases (starts_with osc_prefix r)) [
  | inl early ↦ rw early tt
  | inr late ↦ elim (Bool-cases (starts_with r osc_prefix)) [
    | inr mismatched ↦ rw (late, mismatched) tt
    | inl matched ↦ rw (late, matched) (after_prefix-IsWithin r)
  ]
]

pub verdict-IsWithin : (r : Bytes) → IsWithin r (verdict r)
unfolding verdict
verdict-IsWithin r = elim (Bool-cases (starts_with cursor_position_query r)) [
  | inl early ↦ rw early tt
  | inr late ↦ elim (Bool-cases (starts_with r cursor_position_query)) [
    | inl matched ↦ rw (late, matched) (starts_with-length r cursor_position_query matched)
    | inr mismatched ↦
        rw (late, mismatched)
          (split-IsWithin r win32_input_mode_prefix _
            (split-IsWithin r focus_event_mode_prefix _ (osc-IsWithin r)))
  ]
]
