-- ===== src/Daemon/Tests.antt =====
-- crates/server/daemon-core: the theorems of the daemon at concrete values.
use cli_pocket.Prelude.{
  ℕ, zero, suc, ◌+◌, ◌<◌, ◌≡◌, refl, [], ◌∷◌, ◌++◌, ok, err, ltb, if◌then◌else◌, AreBytes,
  from_be_acc, Bool, true, false, Bool-cases, inl, inr, ltb→lt, arith,
}
use cli_pocket.Daemon.Clients.{
  ClientRecord, State, from_files, add_all, with_added, check_new_record, lookup_by_public,
  add_or_lookup_by_public,
}
use cli_pocket.Daemon.Clients.Consistent.{IsConsistent}
use cli_pocket.Daemon.Clients.Calls.{from_files-IsConsistent}
use cli_pocket.Prelude.Dict.{insert, lookup}
use cli_pocket.Prelude.{◌⊎◌, ◌≤◌, none, some}
use cli_pocket.Proto.Frames.{ServerInfo, Hello, Frame}
use cli_pocket.Daemon.Sample.{shell, outside}
use cli_pocket.Daemon.Errors.{internal}
use cli_pocket.Daemon.Sessions.{Terminal, SessionManager, new, count, create, attach}
use cli_pocket.Daemon.Sessions.Limit.{IsWithin, take_turns, checks, finishes, create_limit}
use cli_pocket.Daemon.Connection.{Connection, handle_open_terminal_request}
use cli_pocket.Daemon.Connection.Output.{
  OutboundOutput, frame_at, handle_output, live_output_frames, live_output_frames_exact, GoodFrames,
}
use cli_pocket.Daemon.Connection.Streams.{stale_output_dropped}
use cli_pocket.Daemon.Connection.Loop.{
  run_connection, revocations_changed, received, EndsThere, EndsOnlyWith, IsError, not_welcome_bye,
  shut_out,
}
use cli_pocket.Proto.Wire.{Bytes}
use cli_pocket.Daemon.Resume.{
  Mac, VerifiedResume, expired, body_bytes, tag, mint, verify, parse_body, ct_eq,
}
use cli_pocket.Daemon.Resume.Tokens.{Is32, verify-mint, verify_sound}

abbrev zeros : ℕ → Bytes
zeros zero = []
zeros (suc n) = 0 ∷ zeros n

-- A code of 32 bytes that depends on the key and the message only by their first bytes.
abbrev first_or_zero : Bytes → ℕ
first_or_zero [] = 0
first_or_zero (b ∷ bs) = b

abbrev sample_mac : Mac
sample_mac key m = first_or_zero key ∷ first_or_zero m ∷ zeros 30

sample_mac-Is32 : Is32 sample_mac
sample_mac-Is32 key m = refl

verify-mint_example : verify sample_mac (5 ∷ []) (mint sample_mac (5 ∷ []) 258 77 1000 60) 1059 ≡ (
    if ltb 1059 (1000 + 60)
    then ok (record { client_id = 258; terminal_id = 77; issued_ms = 1000; expiry_ms = 1000 + 60 })
    else err expired)
verify-mint_example =
    verify-mint sample_mac sample_mac-Is32 (5 ∷ []) 258 77 1000 60 1059 (omega arith) (omega arith)
      (omega arith)

abbrev claims : VerifiedResume
claims = record { client_id = 258; terminal_id = 77; issued_ms = 1000; expiry_ms = 1060 }

abbrev token : Bytes
token =
    1
    ∷ (zeros 14
        ++ 1
          ∷ 2
          ∷ (zeros 15 ++ 77 ∷ (zeros 6 ++ 3 ∷ 232 ∷ (zeros 6 ++ 4 ∷ 36 ∷ (5 ∷ 1 ∷ zeros 14)))))

accepted : verify sample_mac (5 ∷ []) token 1059 ≡ ok claims
unfolding verify parse_body ct_eq from_be_acc
accepted = refl

all_bytes : Bytes → Bool
all_bytes [] = true
all_bytes (b ∷ bs) = if ltb b 256 then all_bytes bs else false

check_bytes : (bs : Bytes) → all_bytes bs ≡ true → AreBytes bs
unfolding all_bytes
check_bytes [] h = tt
check_bytes (b ∷ bs) h = elim (Bool-cases (ltb b 256)) [
  | inl small ↦ (ltb→lt b 256 small, check_bytes bs (rw small at h))
  | inr large ↦ absurd (ground arith)
]

are_bytes : AreBytes token
unfolding all_bytes
are_bytes = check_bytes token refl

verify_sound_example :
    (token ≡ body_bytes claims ++ tag sample_mac (5 ∷ []) (body_bytes claims)) × (1059 < 1060)
verify_sound_example =
    verify_sound sample_mac sample_mac-Is32 (5 ∷ []) token 1059 claims are_bytes accepted

abbrev alice : ClientRecord
alice = record { client_id = 1; public_key = 11; paired_at = 100 }

abbrev bob : ClientRecord
bob = record { client_id = 2; public_key = 22; paired_at = 200 }

-- A new id that brings the key of another client.
abbrev again : ClientRecord
again = record { client_id = 3; public_key = 22; paired_at = 300 }

abbrev paired : State
paired = record {
  by_id = (1, alice) ∷ (2, bob) ∷ [];
  by_public = (11, 1) ∷ (22, 2) ∷ [];
  revoked = 1 ∷ [];
}

loads_two : from_files (alice ∷ bob ∷ []) (1 ∷ []) ≡ ok paired
unfolding from_files add_all with_added check_new_record insert lookup
loads_two = refl

existing_client : add_or_lookup_by_public true paired again ≡ (ok bob, paired)
unfolding add_or_lookup_by_public lookup_by_public lookup
existing_client = refl

paired-IsConsistent : IsConsistent paired
paired-IsConsistent = (from_files-IsConsistent (alice ∷ bob ∷ []) (1 ∷ []) paired loads_two).0

abbrev one_shell : SessionManager (Unit {0})
one_shell = record { registered = (7, 1000) ∷ []; terminals = (7, shell) ∷ []; max_terminals = 1 }

abbrev connection : Connection (Unit {0})
connection = record {
  manager = one_shell;
  streams = (1, 7) ∷ [];
  next_local_stream_id = 2;
  scrollback_bytes = 1000;
  config_path = false;
  sent = [];
}

live_output_frames_exact_example :
    ((3 ≤ 5) × GoodFrames 1 7 5 (100 ∷ 101 ∷ 102 ∷ []))
    ⊎ ((5 < 3)
        × (live_output_frames 1 7 (record { seq_at_end = 5; bytes = 100 ∷ 101 ∷ 102 ∷ [] })
            ≡ err (internal "output sequence underflow")))
live_output_frames_exact_example =
    live_output_frames_exact 1 7 (record { seq_at_end = 5; bytes = 100 ∷ 101 ∷ 102 ∷ [] })
      (omega arith)

abbrev late : OutboundOutput
late = frame_at 1 7 6 (102 ∷ [])

known_shell : (t : Terminal (Unit {0})) × (attach 7 connection.manager ≡ some t)
unfolding attach lookup
known_shell = (shell, refl)

stale_output_dropped_example :
    let d = (handle_open_terminal_request outside 4 7 [] connection).1 in
    handle_output outside late d ≡ (ok tt, d)
stale_output_dropped_example =
    stale_output_dropped outside 4 7 [] connection late known_shell (omega arith)

one_shell-IsWithin : IsWithin one_shell
unfolding count
one_shell-IsWithin = omega arith

create_limit_example :
    IsWithin (create (ok (8, shell)) 2000 one_shell).1
    × (count (take_turns shell (checks 3 ++ finishes 3) (new 1, 0)).0 ≡ 3)
create_limit_example =
    create_limit (ok (8, shell)) 2000 one_shell shell 1 3 one_shell-IsWithin (omega arith)

abbrev info : ServerInfo
info = record { server_version = "1"; server_label = none }

-- A client of later versions, and one of this version that asks and is revoked.
abbrev too_new : Hello
too_new = record { protocol_min = 2; protocol_max = 3; resume = none }

abbrev fitting : Hello
fitting = record { protocol_min = 0; protocol_max = 2; resume = none }

shut_out_example :
    EndsOnlyWith not_welcome_bye IsError connection (
      run_connection outside
        (ok (Frame.hello too_new))
        info
        5
        (received (ok (Frame.ping 9)) [] ∷ [])
        connection)
    × EndsThere
        (run_connection outside
          (ok (Frame.hello fitting))
          info
          5
          (received (ok (Frame.ping 9)) [] ∷ [])
          connection)
        (run_connection outside
          (ok (Frame.hello fitting))
          info
          5
          ((received (ok (Frame.ping 9)) [] ∷ [])
            ++ revocations_changed true ∷ received (ok (Frame.ping 10)) [] ∷ [])
          connection)
shut_out_example =
    shut_out outside (ok (Frame.hello too_new)) (ok (Frame.hello fitting)) info 5
      (received (ok (Frame.ping 9)) [] ∷ []) (received (ok (Frame.ping 10)) [] ∷ []) connection
      (λ h. absurd (omega (arith, h.0)))
