-- ===== src/Pty/Processor/Query.antt =====
-- crates/server/pty/src/terminal.rs: a cursor query at the end of a chunk is answered with the next one.
use cli_pocket.Prelude.{
  ℕ, drop, Bool-cases, inl, inr, arith, ◌≡◌, refl, sym, ap, ◌∙◌, [], ◌∷◌, ◌++◌,
}
use cli_pocket.Proto.Wire.{Bytes}
use cli_pocket.Pty.Processor.{
  ServerOutputProcessor, answers, waits, verdict, answer, process, starts_with,
  cursor_position_query,
}
use cli_pocket.Pty.Processor.Chunks.{clear, run, effect-clear, scan-turn, run_moves, process_chunks}

query_waits : verdict cursor_position_query ≡ waits
unfolding verdict starts_with
query_waits = refl

query_answers : (b : ℕ) (more : Bytes) → verdict (cursor_position_query ++ b ∷ more) ≡ answers
unfolding verdict starts_with
query_answers b more = refl

answer_pending :
    (cursor : ℕ × ℕ) (t : ServerOutputProcessor) → (answer cursor t).pending ≡ t.pending
answer_pending cursor t = elim (Bool-cases t.skip_next_cursor_position_response) [
  | inl skip ↦ rw skip refl
  | inr report ↦ rw report refl
]

abbrev holding : ServerOutputProcessor → ServerOutputProcessor
holding t = record t { pending = cursor_position_query }

process_query :
    (t : ServerOutputProcessor) (cursor : ℕ × ℕ)
    → t.pending ≡ []
    → process t cursor_position_query cursor ≡ ([], holding t)
unfolding process
process_query t cursor settled =
    ap (λ p. run cursor (p ++ cursor_position_query) (clear t)) settled
    ∙ scan-turn 3 cursor (clear t) 0x1b (drop 1 cursor_position_query) waits query_waits

process_later :
    (t : ServerOutputProcessor) (cursor : ℕ × ℕ) (b : ℕ) (more : Bytes)
    → t.pending ≡ []
    → process (holding t) (b ∷ more) cursor ≡ process (answer cursor t) (b ∷ more) cursor
unfolding process
process_later t cursor b more settled =
    run_moves cursor (clear t) 0x1b (drop 1 cursor_position_query ++ b ∷ more) answers
      (query_answers b more) (omega arith) (λ go_on. refl)
    ∙ ap (run cursor (b ∷ more)) (effect-clear cursor answers t)
    ∙ sym (
        ap (λ p. run cursor (p ++ b ∷ more) (clear (answer cursor t)))
          (answer_pending cursor t ∙ settled))

-- When a chunk ends with the whole cursor query, and nothing was held back before it, the query is held
-- back and no response is stored; only the next byte of output, whatever it is, brings the response.
pub query_at_the_end :
    (s : ServerOutputProcessor) (before : Bytes) (cursor : ℕ × ℕ) (b : ℕ) (more : Bytes)
    → (process s before cursor).1.pending ≡ []
    → let (out, t) = process s before cursor in
      let held : ServerOutputProcessor = record t { pending = cursor_position_query } in
      (process s (before ++ cursor_position_query) cursor ≡ (out ++ [], held))
      × (process held (b ∷ more) cursor ≡ process (answer cursor t) (b ∷ more) cursor)
query_at_the_end s before cursor b more settled =
    let (out, t) = process s before cursor in
    (
      process_chunks s before cursor_position_query cursor
          ∙ ap (λ x. (out ++ x.0, x.1)) (process_query t cursor settled),
      process_later t cursor b more settled,
    )
