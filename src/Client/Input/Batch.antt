-- ===== src/Client/Input/Batch.antt =====
-- crates/client/client-core/src/session.rs: what `batch_input_command` does to the order of commands.
use mathlib.Core.List.{append_assoc, append-nil, map-append}
use cli_pocket.Prelude.{
  ℕ, ◌≡◌, refl, sym, subst, ap, ◌∙◌, false, List, [], ◌∷◌, ◌++◌, map, ◌==◌, err, Bool-cases, inl,
  inr, ==_iff, ==_self, arith,
}
use cli_pocket.Proto.Wire.{Bytes}
use cli_pocket.Client.Input.{
  TerminalCmd, input, resize, kill, try_merge_input_command, collected, collect, Event, key,
  resized, killed, events_of, events, typed, controls,
}

pub events-append : (cs ds : List TerminalCmd) → events (cs ++ ds) ≡ events cs ++ events ds
events-append [] ds = refl
events-append (c ∷ cs) ds =
    ap (λ es. events_of c ++ es) (events-append cs ds)
    ∙ sym (append_assoc (events_of c) (events cs) (events ds))

pub typed-append : (t : ℕ) (es fs : List Event) → typed t (es ++ fs) ≡ typed t es ++ typed t fs
typed-append t [] fs = refl
typed-append t (key k b ∷ es) fs = ground (arith, typed-append t es fs)
typed-append t (resized _ _ _ ∷ es) fs = typed-append t es fs
typed-append t (killed _ ∷ es) fs = typed-append t es fs

controls-append : (es fs : List Event) → controls (es ++ fs) ≡ controls es ++ controls fs
controls-append [] fs = refl
controls-append (key k b ∷ es) fs = controls-append es fs
controls-append (resized t c r ∷ es) fs = ap (◌∷◌ (resized t c r)) (controls-append es fs)
controls-append (killed t ∷ es) fs = ap (◌∷◌ (killed t)) (controls-append es fs)

typed_keys : (t : ℕ) (bytes : Bytes) → typed t (map (key t) bytes) ≡ bytes
typed_keys t [] = refl
typed_keys t (b ∷ bytes) = rw (==_self t) (ap (◌∷◌ b) (typed_keys t bytes))

typed_other : (t k : ℕ) (bytes : Bytes) → (k == t) ≡ false → typed t (map (key k) bytes) ≡ []
typed_other t k [] h = refl
typed_other t k (b ∷ bytes) h = rw h (typed_other t k bytes h)

controls_keys : (k : ℕ) (bytes : Bytes) → controls (map (key k) bytes) ≡ []
controls_keys k [] = refl
controls_keys k (b ∷ bytes) = controls_keys k bytes

-- The next command is input for the terminal `b`, or is kept apart and no such input.
data Arrival (b : ℕ) (next : TerminalCmd) : Type 0 where
  joins : (more : Bytes) → next ≡ input b more → Arrival b next
  apart :
      ((bytes : Bytes) → try_merge_input_command (input b bytes) next ≡ err next)
      → typed b (events_of next) ≡ []
      → Arrival b next

classify : (b : ℕ) (next : TerminalCmd) → Arrival b next
unfolding try_merge_input_command
classify b (input t more) = elim (Bool-cases (b == t)) [
  | inl same ↦ joins more (ap (λ k. input k more) (sym ((==_iff b t).0 same)))
  | inr other ↦ apart (λ bytes. rw other refl) (typed_other b t more (ground arith))
]
classify b (resize t c r) = apart (λ bytes. refl) refl
classify b (kill t) = apart (λ bytes. refl) refl

collect_joins :
    (b : ℕ) (bytes more : Bytes) (later deferred : List TerminalCmd)
    → collect (input b more ∷ later) (input b bytes) deferred
      ≡ collect later (input b (bytes ++ more)) deferred
unfolding collect try_merge_input_command
collect_joins b bytes more later deferred = rw (==_self b) refl

collect_apart :
    (cmd next : TerminalCmd) (later deferred : List TerminalCmd)
    → try_merge_input_command cmd next ≡ err next
    → collect (next ∷ later) cmd deferred ≡ collect later cmd (deferred ++ next ∷ [])
unfolding collect
collect_apart cmd next later deferred e = ap (λ r. collected r cmd deferred (collect later)) e

-- What `collect` hands out, in its order.
abbrev pub handed_out : TerminalCmd × List TerminalCmd → List TerminalCmd
handed_out (cmd, deferred) = cmd ∷ deferred

-- The same bytes are typed in the same order at every terminal, and the other commands are the same in
-- the same order.
abbrev pub SameEffects : List Event → List Event → Type 0
SameEffects es fs = ((t : ℕ) → typed t es ≡ typed t fs) × (controls es ≡ controls fs)

joined_typed :
    (t b : ℕ) (bytes more : Bytes) (deferred later : List TerminalCmd)
    → typed b (events deferred) ≡ []
    → typed t (events (input b (bytes ++ more) ∷ (deferred ++ later)))
      ≡ typed t (events (input b bytes ∷ (deferred ++ input b more ∷ later)))
joined_typed t b bytes more deferred later clean = elim (Bool-cases (b == t)) [
  | inl same ↦
      let clean' : typed t (events deferred) ≡ [] =
        subst (λ k. typed k (events deferred) ≡ []) ((==_iff b t).0 same) clean in
      simp (map-append, events-append, typed-append, clean', append_assoc)
  | inr other ↦
      simp (map-append, events-append, typed-append, typed_other t b more other, append_assoc)
]

joined_controls :
    (b : ℕ) (bytes more : Bytes) (deferred later : List TerminalCmd)
    → controls (events (input b (bytes ++ more) ∷ (deferred ++ later)))
      ≡ controls (events (input b bytes ∷ (deferred ++ input b more ∷ later)))
joined_controls b bytes more deferred later = simp (events-append, controls-append, controls_keys)

apart_clean :
    (b : ℕ) (next : TerminalCmd) (deferred : List TerminalCmd)
    → typed b (events deferred) ≡ []
    → typed b (events_of next) ≡ []
    → typed b (events (deferred ++ next ∷ [])) ≡ []
apart_clean b next deferred clean none_typed =
    simp (events-append, typed-append, clean, none_typed, append-nil)

-- While a client collects input for a terminal, whatever arrives and whatever it has put aside that is no
-- input for that terminal: every terminal is typed the same bytes in the same order, and the commands
-- that are no input keep their order too.
pub collect-SameEffects :
    (later : List TerminalCmd) (b : ℕ) (bytes : Bytes) (deferred : List TerminalCmd)
    → typed b (events deferred) ≡ []
    → SameEffects
        (events (handed_out (collect later (input b bytes) deferred)))
        (events (input b bytes ∷ (deferred ++ later)))
unfolding collect
collect-SameEffects [] b bytes deferred clean =
    (λ t. rw (append-nil deferred) refl, rw (append-nil deferred) refl)
collect-SameEffects (next ∷ later) b bytes deferred clean = elim (classify b next) [
  | joins more e ↦
      let (keys, others) = collect-SameEffects later b (bytes ++ more) deferred clean in
      let run =
        ap (λ c. collect (c ∷ later) (input b bytes) deferred) e
        ∙ collect_joins b bytes more later deferred in
      (
        λ t.
            ap (λ r. typed t (events (handed_out r))) run
            ∙ keys t
            ∙ joined_typed t b bytes more deferred later clean
            ∙ ap (λ c. typed t (events (input b bytes ∷ (deferred ++ c ∷ later)))) (sym e),
        ap (λ r. controls (events (handed_out r))) run
            ∙ others
            ∙ joined_controls b bytes more deferred later
            ∙ ap (λ c. controls (events (input b bytes ∷ (deferred ++ c ∷ later)))) (sym e),
      )
  | apart back none_typed ↦
      let aside = deferred ++ next ∷ [] in
      let (keys, others) =
        collect-SameEffects later b bytes aside (apart_clean b next deferred clean none_typed) in
      let run = collect_apart (input b bytes) next later deferred (back bytes) in
      let order = append_assoc deferred (next ∷ []) later in
      (
        λ t.
            ap (λ r. typed t (events (handed_out r))) run
            ∙ keys t
            ∙ ap (λ cs. typed t (events (input b bytes ∷ cs))) order,
        ap (λ r. controls (events (handed_out r))) run
            ∙ others
            ∙ ap (λ cs. controls (events (input b bytes ∷ cs))) order,
      )
]

-- No command of the list is input for the terminal.
abbrev pub AreApart : ℕ → List TerminalCmd → Type 0
AreApart b [] = Unit
AreApart b (c ∷ cs) =
    ((bytes : Bytes) → try_merge_input_command (input b bytes) c ≡ err c) × AreApart b cs

put_aside :
    (between : List TerminalCmd) (b : ℕ) (bytes : Bytes) (later deferred : List TerminalCmd)
    → AreApart b between
    → collect (between ++ later) (input b bytes) deferred
      ≡ collect later (input b bytes) (deferred ++ between)
put_aside [] b bytes later deferred h =
    ap (collect later (input b bytes)) (sym (append-nil deferred))
put_aside (c ∷ between) b bytes later deferred h =
    collect_apart (input b bytes) c (between ++ later) deferred (h.0 bytes)
    ∙ put_aside between b bytes later (deferred ++ c ∷ []) h.1
    ∙ ap (collect later (input b bytes)) (append_assoc deferred (c ∷ []) between)

-- Input for a terminal that arrives in time overtakes the commands that were put aside, also a resize or
-- a kill of that very terminal: it is sent before them, though it was given after them.
pub collect_overtakes :
    (b : ℕ) (bytes more : Bytes) (between : List TerminalCmd)
    → AreApart b between
    → collect (between ++ input b more ∷ []) (input b bytes) [] ≡ (input b (bytes ++ more), between)
unfolding collect
collect_overtakes b bytes more between h =
    put_aside between b bytes (input b more ∷ []) [] h ∙ collect_joins b bytes more [] between
