-- ===== src/Pty/Processor/Chunks.antt =====
-- crates/server/pty/src/terminal.rs: it does not matter to `process` how the output is cut into chunks.
use cli_pocket.Prelude.{
  ℕ, zero, suc, ◌≤◌, ◌≡◌, ◌≢◌, refl, sym, ap, ◌∙◌, inl, inr, none, some, [], ◌∷◌, ◌++◌, length,
  drop, drop-append, length-drop, Bool-cases, arith,
}
use mathlib.Core.List.{append_assoc}
use cli_pocket.Proto.Wire.{Bytes}
use cli_pocket.Pty.Processor.{
  ServerOutputProcessor, Verdict, waits, answers, strips, titles, passes, verdict, answer,
  store_title, passed, turn, scan, process,
}
use cli_pocket.Pty.Processor.Matches.{IsWithin, verdict-IsWithin, verdict-append}

-- What a verdict that moves on does: the bytes taken, and the new state.
abbrev taken : Verdict → ℕ
taken answers = 4
taken (strips n) = n
taken (titles n t) = n
taken _ = 0

abbrev effect : ℕ × ℕ → Verdict → ServerOutputProcessor → ServerOutputProcessor
effect cursor answers s = answer cursor s
effect cursor (titles n t) s = store_title t s
effect cursor _ s = s

-- What the loop does with remaining bytes.
data Turn (r : Bytes) : Type 0 where
  stops : verdict r ≡ waits → Turn r
  hands_on : verdict r ≡ passes → Turn r
  moves :
      (v : Verdict)
      → verdict r ≡ v
      → v ≢ waits
      → 1 ≤ taken v
      → taken v ≤ length r
      → ((cursor : ℕ × ℕ) (b : ℕ) (rest : Bytes) (s : ServerOutputProcessor)
            (go_on : Bytes → ServerOutputProcessor → Bytes × ServerOutputProcessor)
          → turn v cursor b rest s go_on ≡ go_on (drop (taken v) (b ∷ rest)) (effect cursor v s))
      → Turn r

take_verdict : (r : Bytes) (v : Verdict) → verdict r ≡ v → IsWithin r v → Turn r
take_verdict r waits e w = stops e
take_verdict r passes e w = hands_on e
take_verdict r answers e w =
    moves answers e (λ c. cc) (omega arith) w (λ cursor b rest s go_on. refl)
take_verdict r (strips n) e w = moves (strips n) e (λ c. cc) w.0 w.1 (λ cursor b rest s go_on. refl)
take_verdict r (titles n t) e w =
    moves (titles n t) e (λ c. cc) w.0 w.1 (λ cursor b rest s go_on. refl)

take_bytes : (r : Bytes) → Turn r
take_bytes r = take_verdict r (verdict r) refl (verdict-IsWithin r)

passes_not_waits : passes ≢ waits
passes_not_waits c = cc

pub scan-turn :
    (fuel : ℕ) (cursor : ℕ × ℕ) (s : ServerOutputProcessor) (b : ℕ) (rest : Bytes) (v : Verdict)
    → verdict (b ∷ rest) ≡ v
    → scan (suc fuel) cursor (b ∷ rest) s ≡ turn v cursor b rest s (scan fuel cursor)
unfolding scan
scan-turn fuel cursor s b rest v e = ap (λ x. turn x cursor b rest s (scan fuel cursor)) e

-- One turn for each byte is enough.
scan_enough :
    (fuel k : ℕ) (cursor : ℕ × ℕ) (r : Bytes) (s : ServerOutputProcessor)
    → length r ≤ fuel
    → length r ≤ k
    → scan fuel cursor r s ≡ scan k cursor r s
unfolding scan
scan_enough zero zero cursor [] s h l = refl
scan_enough zero (suc k) cursor [] s h l = refl
scan_enough (suc fuel) zero cursor [] s h l = refl
scan_enough (suc fuel) (suc k) cursor [] s h l = refl
scan_enough zero k cursor (b ∷ rest) s h l = absurd (omega arith)
scan_enough (suc fuel) zero cursor (b ∷ rest) s h l = absurd (omega arith)
scan_enough (suc fuel) (suc k) cursor (b ∷ rest) s h l = elim (take_bytes (b ∷ rest)) [
  | stops e ↦ rw e refl
  | hands_on e ↦ rw e (ap (passed b) (scan_enough fuel k cursor rest s (omega arith) (omega arith)))
  | moves v e busy some_taken inside go ↦
      let size = length-drop (taken v) (b ∷ rest) in
      scan-turn fuel cursor s b rest v e
      ∙ go cursor b rest s (scan fuel cursor)
      ∙ scan_enough fuel k cursor (drop (taken v) (b ∷ rest)) (effect cursor v s)
          (omega (arith, size)) (omega (arith, size))
      ∙ sym (go cursor b rest s (scan k cursor))
      ∙ sym (scan-turn k cursor s b rest v e)
]

abbrev pub clear : ServerOutputProcessor → ServerOutputProcessor
clear s = record s { pending = [] }

abbrev pub run : ℕ × ℕ → Bytes → ServerOutputProcessor → Bytes × ServerOutputProcessor
run cursor r s = scan (length r) cursor r s

-- The next chunk behind what the loop over the last one came to.
abbrev next_chunk : ℕ × ℕ → Bytes → Bytes × ServerOutputProcessor → Bytes × ServerOutputProcessor
next_chunk cursor more (out, s) =
    let (out', s') = run cursor (s.pending ++ more) (clear s) in (out ++ out', s')

pub effect-clear :
    (cursor : ℕ × ℕ) (v : Verdict) (s : ServerOutputProcessor)
    → effect cursor v (clear s) ≡ clear (effect cursor v s)
effect-clear cursor waits s = refl
effect-clear cursor passes s = refl
effect-clear cursor (strips n) s = refl
effect-clear cursor (titles n none) s = refl
effect-clear cursor (titles n (some t)) s = refl
effect-clear cursor answers s = elim (Bool-cases s.skip_next_cursor_position_response) [
  | inl skip ↦ rw skip refl
  | inr report ↦ rw report refl
]

pub run_moves :
    (cursor : ℕ × ℕ) (s : ServerOutputProcessor) (b : ℕ) (rest : Bytes) (v : Verdict)
    → verdict (b ∷ rest) ≡ v
    → 1 ≤ taken v
    → ((go_on : Bytes → ServerOutputProcessor → Bytes × ServerOutputProcessor)
        → turn v cursor b rest s go_on ≡ go_on (drop (taken v) (b ∷ rest)) (effect cursor v s))
    → run cursor (b ∷ rest) s ≡ run cursor (drop (taken v) (b ∷ rest)) (effect cursor v s)
run_moves cursor s b rest v e some_taken go =
    let size = length-drop (taken v) (b ∷ rest) in
    scan-turn (length rest) cursor s b rest v e
    ∙ go (scan (length rest) cursor)
    ∙ scan_enough (length rest) (length (drop (taken v) (b ∷ rest))) cursor
        (drop (taken v) (b ∷ rest)) (effect cursor v s) (omega (arith, size)) (omega arith)

run-append :
    (k : ℕ) (cursor : ℕ × ℕ) (r more : Bytes) (s : ServerOutputProcessor)
    → length r ≤ k
    → run cursor (r ++ more) (clear s) ≡ next_chunk cursor more (run cursor r (clear s))
unfolding scan
run-append k cursor [] more s h = refl
run-append zero cursor (b ∷ rest) more s h = absurd (omega arith)
run-append (suc k) cursor (b ∷ rest) more s h = elim (take_bytes (b ∷ rest)) [
  | stops e ↦
      sym (ap (next_chunk cursor more) (scan-turn (length rest) cursor (clear s) b rest waits e))
  | hands_on e ↦
      let e' = verdict-append (b ∷ rest) more (λ w. passes_not_waits (sym e ∙ w)) ∙ e in
      scan-turn (length (rest ++ more)) cursor (clear s) b (rest ++ more) passes e'
      ∙ ap (passed b) (run-append k cursor rest more s (omega arith))
      ∙ sym (ap (next_chunk cursor more) (scan-turn (length rest) cursor (clear s) b rest passes e))
  | moves v e busy some_taken inside go ↦
      let e' = verdict-append (b ∷ rest) more (λ w. busy (sym e ∙ w)) ∙ e in
      let size = length-drop (taken v) (b ∷ rest) in
      let left = drop (taken v) (b ∷ rest) in
      run_moves cursor (clear s) b (rest ++ more) v e' some_taken
        (go cursor b (rest ++ more) (clear s))
      ∙ ap (λ bs. run cursor bs (effect cursor v (clear s)))
          (drop-append (taken v) (b ∷ rest) more inside)
      ∙ ap (run cursor (left ++ more)) (effect-clear cursor v s)
      ∙ run-append k cursor left more (effect cursor v s) (omega (arith, size))
      ∙ sym (ap (λ x. next_chunk cursor more (run cursor left x)) (effect-clear cursor v s))
      ∙ sym (
          ap (next_chunk cursor more)
            (run_moves cursor (clear s) b rest v e some_taken (go cursor b rest (clear s))))
]

-- Feeding the output in two chunks is feeding it at once, for a cursor that is the same at both: the
-- filtered bytes are put together, and the titles, the responses, and the bytes held back are the same.
pub process_chunks :
    (s : ServerOutputProcessor) (first second : Bytes) (cursor : ℕ × ℕ)
    → let (out, t) = process s first cursor in
      let (out', t') = process t second cursor in
      process s (first ++ second) cursor ≡ (out ++ out', t')
unfolding process
process_chunks s first second cursor =
    ap (λ bs. run cursor bs (clear s)) (sym (append_assoc s.pending first second))
    ∙ run-append (length (s.pending ++ first)) cursor (s.pending ++ first) second s (omega arith)
