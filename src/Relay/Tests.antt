-- ===== src/Relay/Tests.antt =====
-- crates/relay/relay-core: the theorems of the relay on concrete states.
use cli_pocket.Prelude.{
  ℕ, ◌+◌, ◌*◌, ◌≤◌, ◌≡◌, ◌≢◌, refl, Bool, true, not, none, some, List, [], ◌∷◌, ◌++◌, ok, ◌==◌,
  if◌then◌else◌, arith,
}
use cli_pocket.Prelude.Dict.{lookup, insert, remove}
use cli_pocket.Proto.Wire.{ServerId, PairId, pair_close, forward, normal}
use cli_pocket.Proto.Codec.{RelayWire, decode_relay}
use cli_pocket.Proto.Codec.Sample.{strict, lossy, lossy_ctrl, lossy_data}
use cli_pocket.Relay.Errors.{protocol}
use cli_pocket.Relay.Caps.{
  CapsInner, PairTicket, try_add_pair, increment_bounded_usize, cas_loop, retrying,
}
use cli_pocket.Relay.Caps.Contention.{cas_loop_settles}
use cli_pocket.Relay.Caps.Rate.{Use, consume, tick, step, run, ticking, rate_limited}
use cli_pocket.Relay.Caps.Tickets.{
  World, Reach, here, next, enter, take_turn, idle, turn, tickets_bounded,
}
use cli_pocket.Relay.Registry.{
  ServerSlot, ServerRegistry, ServerRegistration, register, get, unregister,
}
use cli_pocket.Relay.Registry.Handles as Handles
use cli_pocket.Relay.State.{Pair, Relay, Outside, done, failed}
use cli_pocket.Relay.Forward.Sockets.{Item, received, broken, binary}
use cli_pocket.Relay.Forward.{client_loop, server_on_wire, run_pair, run_server_side}
use cli_pocket.Relay.Forward.Delivery.{Routed, forward_isolated}
use cli_pocket.Relay.Forward.Server.{LeavesNoTrace, run_server_side-LeavesNoTrace}
use cli_pocket.Relay.Forward.Trespass.{close_by_anyone, run_pair_leaks}

abbrev limits : CapsInner
limits = record {
  max_servers = 2;
  max_pairs = 3;
  max_bytes_per_sec = 25;
  max_queued_bytes = 100;
  servers = 0;
  pairs = 1;
}

-- One thread has added a ticket; a second has loaded the counter.
abbrev one_ticket : World
one_ticket = record { counter = 1; live = 1; loaded = 1 ∷ [] }

to_one_ticket : Reach 1 "max_servers" idle one_ticket
unfolding turn increment_bounded_usize
to_one_ticket = next (next (next here enter) (take_turn [] 0 [] refl)) enter

tickets_bounded_example : (one_ticket.counter ≡ one_ticket.live) × (one_ticket.counter ≤ 1)
tickets_bounded_example = tickets_bounded 1 "max_servers" to_one_ticket

abbrev new_ticket : PairTicket
new_ticket = record {
  limits = record limits { pairs = 2 };
  rate_bucket = 25;
  rate_remainder_tenths = 0;
  queued_bytes = 0;
}

-- The second attempt is refused, and the third gets what a tick grants.
abbrev uses : List Use
uses = consume 25 ∷ consume 1 ∷ tick ∷ consume 2 ∷ []

added : try_add_pair limits ≡ ok (record limits { pairs = 2 }, new_ticket)
unfolding try_add_pair increment_bounded_usize
added = refl

rate_limited_example :
    let m = run (record { ticket = new_ticket; passed = 0; ticks = 0 }) uses in
    let rested = run m (ticking 10) in
    (10 * m.passed ≤ 10 * 25 + m.ticks * 25)
    × (rested.ticket.rate_bucket ≡ 25)
    × ((bytes : ℕ) → bytes ≤ 25 → (step rested (consume bytes)).passed ≡ m.passed + bytes)
rate_limited_example = rate_limited limits new_ticket uses (omega arith) added

cas_loop_settles_example :
    cas_loop (increment_bounded_usize 2 "max_pairs") 0 ((1 ∷ []) ++ 0 ∷ 0 ∷ []) ≢ retrying
cas_loop_settles_example = cas_loop_settles (increment_bounded_usize 2 "max_pairs") 0 (1 ∷ []) 0 []

-- The server 4 registers, drops its handle, and registers again.
abbrev slot : ServerSlot
slot = record { server_id = 4; tx = 9 }

abbrev calls : List Handles.Call
calls = Handles.registers (record { server_id = 4; tx = 8 }) ∷ Handles.drops 0 ∷ []

abbrev handle : ServerRegistration
handle = record { server_id = 4; generation = 1 }

abbrev registered : ServerRegistry
registered = record {
  servers = (4, record { slot = slot; generation = 1 }) ∷ [];
  next_generation = 2;
}

registered_slot :
    register (Handles.run Handles.nobody calls).registry slot ≡ ok (registered, handle)
unfolding Handles.run Handles.step register unregister lookup insert remove
registered_slot = refl

-- Then the old handle is dropped again, the server tries to register once more, and another comes.
abbrev later : List Handles.Call
later =
    Handles.drops 1
    ∷ Handles.registers (record { server_id = 4; tx = 5 })
    ∷ Handles.registers (record { server_id = 6; tx = 3 })
    ∷ []

abbrev started : Handles.Clients
started = Handles.issue (Handles.run Handles.nobody calls) (ok (registered, handle))

old_ne_handle : record { server_id = 4; generation = 0 } ≢ handle
old_ne_handle e = ground arith

later-Spares : Handles.Spares handle started later
unfolding Handles.run Handles.step register unregister lookup insert remove
later-Spares = (old_ne_handle, (tt, (tt, tt)))

registration_owned_example :
    let before = Handles.run Handles.nobody calls in
    let after = (Handles.run started later).registry in
    ((k : ServerId) → get registered k ≡ (if 4 == k then some 9 else get before.registry k))
    × (get after 4 ≡ some 9)
    × ((k : ServerId) → get (unregister after handle).0 k ≡ (if 4 == k then none else get after k))
registration_owned_example =
    Handles.registration_owned calls later slot registered handle (omega arith) registered_slot
      later-Spares

-- The channels 9 and 12 have readers, and no other.
abbrev only_two : ℕ → Bool
only_two tx = if tx == 9 then true else tx == 12

abbrev roomy : ℕ → Bool
roomy tx = true

-- The queue of the channel 12 stays full.
abbrev crowded : ℕ → Bool
crowded tx = not (tx == 12)

abbrev reads : Outside
reads = record { codec = strict; codec_display = λ e. "codec"; alive = only_two; has_room = roomy }

abbrev writes : Outside
writes = record { codec = lossy; codec_display = λ e. "codec"; alive = only_two; has_room = roomy }

abbrev pair : Pair
pair = record {
  pair_id = 7;
  server_id = 4;
  created_at = 1;
  last_progress = 5;
  server_tx = 9;
  client_tx = 12;
}

abbrev other_pair : Pair
other_pair = record {
  pair_id = 8;
  server_id = 6;
  created_at = 2;
  last_progress = 90;
  server_tx = 9;
  client_tx = 30;
}

abbrev relay : Relay
relay = record {
  caps = record limits { pairs = 2; servers = 1 };
  registry = registered;
  pairs = (7, pair) ∷ (8, other_pair) ∷ [];
  held = 8 ∷ [];
  sent = [];
}

-- The sweep takes the pair 8 and waits at the pair 7.
abbrev congested : Outside
congested = record writes { has_room = crowded }

abbrev both_idle : Relay
both_idle = record relay { pairs = (8, other_pair) ∷ (7, pair) ∷ [] }

forward_isolated_example :
    Routed writes 4 9 42 8
      (1 ∷ 2 ∷ [])
      relay
      (server_on_wire writes 4 9 42 (RelayWire.payload (forward 8 (1 ∷ 2 ∷ []))) relay)
forward_isolated_example = forward_isolated writes lossy_ctrl lossy_data 4 9 42 8 (1 ∷ 2 ∷ []) relay

-- A server that registers, sends a frame of its pair, and breaks off.
abbrev stream : List (ℕ × Item)
stream =
    (1, received (binary (1 ∷ 0 ∷ 5 ∷ 0 ∷ [])))
    ∷ (2, received (binary (2 ∷ 7 ∷ 104 ∷ [])))
    ∷ (3, broken "reset")
    ∷ []

run_server_side-LeavesNoTrace_example :
    LeavesNoTrace relay (run_server_side writes 12 stream relay).1
run_server_side-LeavesNoTrace_example = run_server_side-LeavesNoTrace writes 12 stream relay

close_by_anyone_example :
    let c = client_loop writes pair ((50, received (binary (1 ∷ 7 ∷ 0 ∷ 8 ∷ []))) ∷ []) relay in
    let v = server_on_wire writes 4 9 50 (RelayWire.ctrl (pair_close 8 normal)) relay in
    (c.0 ≡ done tt)
    × (v.0 ≡ done tt)
    × ((k : PairId) → lookup k c.1.pairs ≡ (if 8 == k then none else lookup k relay.pairs))
    × ((k : PairId) → lookup k v.1.pairs ≡ (if 8 == k then none else lookup k relay.pairs))
unfolding decode_relay
close_by_anyone_example =
    close_by_anyone writes lossy_ctrl pair 4 9 50 (1 ∷ 7 ∷ 0 ∷ 8 ∷ []) [] 8 normal relay refl

run_pair_leaks_example :
    let (x, after) = run_pair writes 4 20 12 33 60 [] relay in
    (x ≡ failed (protocol "relay peer writer closed"))
    × ((p : Pair) × (lookup 33 after.pairs ≡ some p))
    × (after.caps.pairs ≡ 3)
unfolding try_add_pair
run_pair_leaks_example =
    run_pair_leaks writes lossy_ctrl 4 20 12 33 60 [] relay
      {c = record limits { pairs = 3; servers = 1 }}
      {t = record {
        limits = record limits { pairs = 3; servers = 1 };
        rate_bucket = 25;
        rate_remainder_tenths = 0;
        queued_bytes = 0;
      }}
      refl refl
