-- ===== src/Daemon/Dialer/Tests.antt =====
-- crates/server/daemon-core/src/relay_dialer.rs: the theorems of the dialer at concrete values.
use cli_pocket.Prelude.{ℕ, ◌≡◌, List, [], ◌∷◌, some, none, String}
use cli_pocket.Prelude.Dict.{lookup}
use cli_pocket.Proto.Codec.{CodecError}
use cli_pocket.Proto.Codec.Sample.{strict}
use cli_pocket.Relay.Forward.Sockets.{Item, received, binary, close}
use cli_pocket.Daemon.Dialer.{Sending, taken, gone, no_pairs, read_loop}
use cli_pocket.Daemon.Dialer.Routed.{IsRouted, read_loop-IsRouted}

abbrev display : CodecError → String
display e = "codec"

-- Two pairs come, each is sent a frame, and the transport of the second is dropped.
abbrev items : List (Sending × Item)
items =
    (taken, received (binary (1 ∷ 5 ∷ 7 ∷ [])))
    ∷ (taken, received (binary (1 ∷ 5 ∷ 8 ∷ [])))
    ∷ (taken, received (binary (2 ∷ 7 ∷ 104 ∷ [])))
    ∷ (taken, received (binary (2 ∷ 8 ∷ 105 ∷ [])))
    ∷ (gone, received (binary (2 ∷ 8 ∷ 106 ∷ [])))
    ∷ (taken, received close)
    ∷ []

no_channel : (n : ℕ) → none ≡ some n → ⊥
no_channel n e = cc

no_pairs-IsRouted : IsRouted no_pairs
unfolding lookup
no_pairs-IsRouted = record {
  bridged = λ q c e. absurd (no_channel c e);
  numbered = λ c q e. absurd (no_channel q e);
  right = tt;
}

read_loop-IsRouted_example : IsRouted (read_loop strict display items no_pairs).1
read_loop-IsRouted_example = read_loop-IsRouted strict display items no_pairs no_pairs-IsRouted
