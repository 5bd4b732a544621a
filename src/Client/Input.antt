-- ===== src/Client/Input.antt =====
-- crates/client/client-core/src/session.rs: how the client joins pieces of input, before it sends them
-- (`coalesce_pending_input_front`) and while it waits for more (`batch_input_command`).
pub mod Batch
use mathlib.Core.List.{append_assoc, append-nil, map-append}
use cli_pocket.Prelude.{
  ℕ, zero, suc, ◌≡◌, refl, sym, subst, ap, ◌∙◌, Bool, true, false, List, [], ◌∷◌, ◌++◌, map, ◌==◌,
  if◌then◌else◌, Result, ok, err, Result-cases, Bool-cases, inl, inr, ==_iff, ==_self, arith,
}
use cli_pocket.Proto.Wire.{Bytes}

pub data TerminalCmd : Type 0 where
  input : ℕ → Bytes → TerminalCmd
  resize : ℕ → ℕ → ℕ → TerminalCmd
  kill : ℕ → TerminalCmd

-- The merged command, or the next one back.
unfoldable pub try_merge_input_command : TerminalCmd → TerminalCmd → Result TerminalCmd TerminalCmd
try_merge_input_command (input base bytes) (input terminal more) =
    if base == terminal then ok (input base (bytes ++ more)) else err (input terminal more)
try_merge_input_command base next = err next

-- The loop of `coalesce_pending_input_front` with the command that was taken from the front.
abbrev pub kept_apart :
    Result TerminalCmd TerminalCmd
    → TerminalCmd
    → List TerminalCmd
    → (TerminalCmd → List TerminalCmd)
    → List TerminalCmd
kept_apart (ok merged) front rest go_on = go_on merged
kept_apart (err next) front rest go_on = front ∷ next ∷ rest

unfoldable pub absorb : List TerminalCmd → TerminalCmd → List TerminalCmd
absorb [] front = front ∷ []
absorb (next ∷ rest) front =
    kept_apart (try_merge_input_command front next) front rest (absorb rest)

unfoldable pub coalesce_pending_input_front : List TerminalCmd → List TerminalCmd
coalesce_pending_input_front [] = []
coalesce_pending_input_front (front ∷ rest) = absorb rest front

-- The loop of `batch_input_command` over the commands that arrive in time.
abbrev pub collected :
    Result TerminalCmd TerminalCmd
    → TerminalCmd
    → List TerminalCmd
    → (TerminalCmd → List TerminalCmd → TerminalCmd × List TerminalCmd)
    → TerminalCmd × List TerminalCmd
collected (ok merged) cmd deferred go_on = go_on merged deferred
collected (err next) cmd deferred go_on = go_on cmd (deferred ++ next ∷ [])

unfoldable pub collect :
    List TerminalCmd → TerminalCmd → List TerminalCmd → TerminalCmd × List TerminalCmd
collect [] cmd deferred = (cmd, deferred)
collect (next ∷ later) cmd deferred =
    collected (try_merge_input_command cmd next) cmd deferred (collect later)

-- What is done to the terminals, a byte at a time.
pub data Event : Type 0 where
  key : ℕ → ℕ → Event
  resized : ℕ → ℕ → ℕ → Event
  killed : ℕ → Event

abbrev pub events_of : TerminalCmd → List Event
events_of (input terminal bytes) = map (key terminal) bytes
events_of (resize terminal cols rows) = resized terminal cols rows ∷ []
events_of (kill terminal) = killed terminal ∷ []

abbrev pub events : List TerminalCmd → List Event
events [] = []
events (c ∷ cs) = events_of c ++ events cs

merge-events :
    (base next : TerminalCmd) {merged : TerminalCmd}
    → try_merge_input_command base next ≡ ok merged
    → events_of merged ≡ events_of base ++ events_of next
unfolding try_merge_input_command
merge-events (input b bytes) (input t more) {merged} h = elim (Bool-cases (b == t)) [
  | inr apart ↦ absurd (ground arith)
  | inl same ↦
      let e : input b (bytes ++ more) ≡ merged = ground arith in
      subst (λ m. events_of m ≡ map (key b) bytes ++ map (key t) more) e
        (map-append (key b) bytes more
          ∙ ap (λ k. map (key b) bytes ++ map (key k) more) ((==_iff b t).0 same))
]
merge-events (input b bytes) (resize t c r) h = cc
merge-events (input b bytes) (kill t) h = cc
merge-events (resize b c r) next h = cc
merge-events (kill b) next h = cc

merge-back :
    (base next : TerminalCmd) {back : TerminalCmd}
    → try_merge_input_command base next ≡ err back
    → back ≡ next
unfolding try_merge_input_command
merge-back (input b bytes) (input t more) h = ground arith
merge-back (input b bytes) (resize t c r) h = cc
merge-back (input b bytes) (kill t) h = cc
merge-back (resize b c r) next h = cc
merge-back (kill b) next h = cc

absorb-events :
    (rest : List TerminalCmd) (front : TerminalCmd)
    → events (absorb rest front) ≡ events (front ∷ rest)
unfolding absorb
absorb-events [] front = refl
absorb-events (next ∷ rest) front = elim (Result-cases (try_merge_input_command front next)) [
  | inl (merged, e) ↦
      ap (λ r. events (kept_apart r front rest (absorb rest))) e
      ∙ absorb-events rest merged
      ∙ ap (λ es. es ++ events rest) (merge-events front next e)
      ∙ append_assoc (events_of front) (events_of next) (events rest)
  | inr (back, e) ↦
      ap (λ r. events (kept_apart r front rest (absorb rest))) e
      ∙ ap (λ c. events (front ∷ c ∷ rest)) (merge-back front next e)
]

-- Joining the input at the front of the queue changes nothing of what is done to the terminals: the same
-- bytes go to the same terminals, and the other commands stand at the same places between them.
pub coalesce-events :
    (cmds : List TerminalCmd) → events (coalesce_pending_input_front cmds) ≡ events cmds
unfolding coalesce_pending_input_front
coalesce-events [] = refl
coalesce-events (front ∷ rest) = absorb-events rest front

-- The part of the events that one terminal's program reads, and the part that are no keys.
abbrev pub typed : ℕ → List Event → Bytes
typed terminal [] = []
typed terminal (key t b ∷ es) =
    let rest = typed terminal es in if t == terminal then b ∷ rest else rest
typed terminal (resized _ _ _ ∷ es) = typed terminal es
typed terminal (killed _ ∷ es) = typed terminal es

abbrev pub controls : List Event → List Event
controls [] = []
controls (key t b ∷ es) = controls es
controls (resized t c r ∷ es) = resized t c r ∷ controls es
controls (killed t ∷ es) = killed t ∷ controls es
