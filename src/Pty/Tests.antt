-- ===== src/Pty/Tests.antt =====
-- crates/server/pty: the theorems of the tracker and of the ring at concrete values.
use cli_pocket.Prelude.{
  ℕ, ◌≤◌, ◌<◌, ◌≡◌, refl, ◌⊎◌, inl, true, none, some, [], ◌∷◌, ◌++◌, map, length, take, arith,
}
use cli_pocket.Proto.Wire.{Bytes}
use cli_pocket.Proto.Snapshot.{
  palette, rgb, SgrAttrs, default_sgr, sgr_params, off, button_event, TerminalModes, default_modes,
  mode_commands, default_charset, AnchorState, DeltaSlice,
}
use cli_pocket.Pty.Parser.{
  Perform, print, execute, csi_dispatch, Vte, AnchorTracker, advance, advance_byte, perform,
  perform_all, execute_byte, snapshot_state,
}
use cli_pocket.Pty.Parser as Parser
use cli_pocket.Pty.Parser.Sgr.{sgr}
use cli_pocket.Pty.Parser.Sgr.Restore.{alone, sgr_restores}
use cli_pocket.Pty.Parser.Modes.Replay.{replay, modes_replayed}
use cli_pocket.Pty.Ring.{ScrollbackRing, push, since, snapshot_with_max_bytes}
use cli_pocket.Pty.Processor.{
  ServerOutputProcessor, new_processor, process, answer, cursor_position_query,
}
use cli_pocket.Pty.Processor.Chunks.{process_chunks}
use cli_pocket.Pty.Processor.Query.{query_at_the_end}
use cli_pocket.Pty.Processor.Plain.{process_text}
use cli_pocket.Prelude.{ap, false}
use cli_pocket.Pty.Ring.Represents.{Represents, IsBounded}
use cli_pocket.Pty.Ring.Push.{push-Represents}
use cli_pocket.Pty.Ring.Pages.{scroll_back, scroll_back-window}
use cli_pocket.Pty.Ring.Views.{IsCut, since_exact, snapshot_bounded}

abbrev colorful : SgrAttrs
colorful = record default_sgr {
  fg = some (palette 9);
  bg = some (rgb 1 2 3);
  bold = true;
  reverse = true;
}

sgr_restores_example : sgr (map alone (sgr_params colorful)) default_sgr ≡ colorful
sgr_restores_example = sgr_restores colorful (omega arith) (omega arith, omega arith, omega arith)

abbrev button_modes : TerminalModes
button_modes = record default_modes { mouse_reporting = button_event; alt_screen = true }

modes_replayed_example :
    replay (mode_commands button_modes) default_modes
    ≡ record button_modes { mouse_reporting = off }
modes_replayed_example = modes_replayed default_modes button_modes

-- A reader that prints each byte.
abbrev plain : Vte (Unit {0})
plain = record { start = tt; advance = λ p b. (p, print b ∷ []) }

abbrev column : ℕ → AnchorState
column n = record {
  cursor = (n, 0);
  sgr = default_sgr;
  modes = default_modes;
  charset = default_charset;
  title = none;
}

-- After `abcde`, with a capacity of three bytes.
abbrev history : Bytes
history = 97 ∷ 98 ∷ 99 ∷ 100 ∷ 101 ∷ []

abbrev ring : ScrollbackRing (Unit {0})
ring = record {
  bytes = 100 ∷ 101 ∷ [];
  anchors = record { byte_offset = 3; state = column 3 } ∷ [];
  head_seq = 5;
  tail_offset = 3;
  tracker = record {
    parser = tt;
    state = record {
      cursor_row = 0;
      cursor_col = 5;
      sgr = default_sgr;
      modes = default_modes;
      charset = default_charset;
      title = none;
    };
    at_safe_split = true;
  };
  bytes_since_anchor = 2;
  cap = 3;
  anchor_interval = 3;
  cols = 80;
  rows = 24;
}

ring-Represents : Represents plain history ring
unfolding advance advance_byte perform_all perform Parser.new snapshot_state
ring-Represents = record {
  head = refl;
  tracked = refl;
  window = refl;
  anchored = (refl, (omega arith, refl), refl);
  spaced = omega arith;
}

push-Represents_example :
    (r' : ScrollbackRing (Unit {0})) × (push plain ring (102 ∷ 103 ∷ []) ≡ some r')
    × Represents plain (history ++ 102 ∷ 103 ∷ []) r'
    × IsBounded plain r'
push-Represents_example =
    push-Represents plain (102 ∷ 103 ∷ []) history ring ring-Represents (inl (omega arith))
      (omega arith)

since_exact_example :
    (((4 < 3) ⊎ (5 < 4)) × (since ring 4 ≡ none))
    ⊎ ((3 ≤ 4)
        × (4 ≤ 5)
        × (d : DeltaSlice) × (since ring 4 ≡ some d)
        × (take 4 history ++ d.bytes ≡ history)
        × (d.head_seq ≡ 5))
since_exact_example = since_exact plain history ring 4 ring-Represents

snapshot_bounded_example :
    IsCut plain history (snapshot_with_max_bytes ring 1)
    × (length (snapshot_with_max_bytes ring 1).bytes ≡ 0)
snapshot_bounded_example = snapshot_bounded plain history ring 1 ring-Represents

scroll_back-window_example : scroll_back plain 6 ring none 1 ≡ 100 ∷ 101 ∷ []
scroll_back-window_example = scroll_back-window plain history ring 1 ring-Represents (omega arith)

abbrev fresh : ServerOutputProcessor
fresh = new_processor false

-- A title and a query, cut inside the title.
abbrev titled : Bytes
titled = 0x1b ∷ b']' ∷ b'0' ∷ b';' ∷ b'a' ∷ []

abbrev titled_rest : Bytes
titled_rest = b'b' ∷ 0x07 ∷ 0x1b ∷ b'[' ∷ b'6' ∷ b'n' ∷ b'c' ∷ []

process_chunks_example :
    let (out, t) = process fresh titled (4, 2) in
    let (out', t') = process t titled_rest (4, 2) in
    process fresh (titled ++ titled_rest) (4, 2) ≡ (out ++ out', t')
process_chunks_example = process_chunks fresh titled titled_rest (4, 2)

settled : (process fresh (104 ∷ 105 ∷ []) (4, 2)).1.pending ≡ []
settled = ap (λ x. x.1.pending) (process_text fresh (104 ∷ 105 ∷ []) (4, 2) refl (refl, (refl, tt)))

query_at_the_end_example :
    let (out, t) = process fresh (104 ∷ 105 ∷ []) (4, 2) in
    let held : ServerOutputProcessor = record t { pending = cursor_position_query } in
    (process fresh ((104 ∷ 105 ∷ []) ++ cursor_position_query) (4, 2) ≡ (out ++ [], held))
    × (process held (111 ∷ []) (4, 2) ≡ process (answer (4, 2) t) (111 ∷ []) (4, 2))
query_at_the_end_example = query_at_the_end fresh (104 ∷ 105 ∷ []) (4, 2) 111 [] settled
