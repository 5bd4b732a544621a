-- ===== src/Daemon/Sample.antt =====
-- crates/server/daemon-core: a terminal and a system for the tests.
use cli_pocket.Prelude.{true, false, none, [], ◌∷◌, ok}
use cli_pocket.Pty.Parser.{AnchorTracker, default_state, snapshot_state}
use cli_pocket.Daemon.Sessions.{Terminal}
use cli_pocket.Daemon.Connection.{Outside}

abbrev pub tracker : AnchorTracker (Unit {0})
tracker = record { parser = tt; state = default_state; at_safe_split = true }

abbrev pub shell : Terminal (Unit {0})
shell = record {
  ring = record {
    bytes = 100 ∷ 101 ∷ [];
    anchors = record { byte_offset = 3; state = snapshot_state tracker } ∷ [];
    head_seq = 5;
    tail_offset = 3;
    tracker = tracker;
    bytes_since_anchor = 2;
    cap = 10;
    anchor_interval = 3;
    cols = 80;
    rows = 24;
  };
  title = none;
  exited = false;
  typed = [];
}

abbrev pub outside : Outside (Unit {0})
outside = record {
  refused = λ frame. none;
  spawn = λ params bytes. ok (8, shell);
  resized = λ id cols rows. true;
  killed = λ id. ok tt;
  saved = λ bytes. ok tt;
  now = 2000;
  display = λ code. "error";
  to_string = λ e. "error";
}
