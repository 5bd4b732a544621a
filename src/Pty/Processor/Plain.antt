-- ===== src/Pty/Processor/Plain.antt =====
-- crates/server/pty/src/terminal.rs: output without an escape byte goes through as it is.
use cli_pocket.Prelude.{ℕ, ◌≡◌, refl, sym, ap, ◌∙◌, false, [], ◌∷◌, ◌++◌, length, ◌==◌, arith}
use cli_pocket.Proto.Wire.{Bytes}
use cli_pocket.Pty.Processor.{
  ServerOutputProcessor, passes, passed, verdict, scan, process, starts_with,
  split_prefixed_control_sequence, split_osc_title_sequence,
}
use cli_pocket.Pty.Processor.Chunks.{scan-turn}

abbrev pub AreText : Bytes → Type 0
AreText [] = Unit
AreText (b ∷ bs) = ((b == 0x1b) ≡ false) × AreText bs

verdict_text : (b : ℕ) (rest : Bytes) → (b == 0x1b) ≡ false → verdict (b ∷ rest) ≡ passes
unfolding verdict starts_with split_prefixed_control_sequence split_osc_title_sequence
verdict_text b rest h = ground arith

scan_text :
    (cursor : ℕ × ℕ) (bytes : Bytes) (s : ServerOutputProcessor)
    → AreText bytes
    → scan (length bytes) cursor bytes s ≡ (bytes, s)
unfolding scan
scan_text cursor [] s h = refl
scan_text cursor (b ∷ bytes) s h =
    scan-turn (length bytes) cursor s b bytes passes (verdict_text b bytes h.0)
    ∙ ap (passed b) (scan_text cursor bytes s h.1)

-- With nothing held back, bytes without an escape byte go through unchanged, and leave no trace in the
-- processor: no response, no title, nothing held back.
pub process_text :
    (s : ServerOutputProcessor) (bytes : Bytes) (cursor : ℕ × ℕ)
    → s.pending ≡ []
    → AreText bytes
    → process s bytes cursor ≡ (bytes, s)
unfolding process
process_text s bytes cursor settled h =
    ap (λ p. scan (length (p ++ bytes)) cursor (p ++ bytes) (record s { pending = [] })) settled
    ∙ scan_text cursor bytes (record s { pending = [] }) h
    ∙ ap (λ p. (bytes, record s { pending = p })) (sym settled)
