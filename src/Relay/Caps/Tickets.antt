-- ===== src/Relay/Caps/Tickets.antt =====
-- crates/relay/relay-core/src/caps.rs: the server and pair counters, with any number of threads.
use cli_pocket.Prelude.{
  ℕ, suc, ◌+◌, ◌≤◌, ◌≡◌, refl, List, [], ◌∷◌, ◌++◌, String, ok, err, ◌==◌, if◌then◌else◌, arith,
}
use cli_pocket.Relay.Caps.{
  PairTicket, try_add_queued_bytes, remove_queued_bytes, increment_bounded_usize, checked_pred,
}

-- A counter, the tickets alive, and the value that each thread inside the loop has loaded.
pub record World : Type 0 where
  pub counter : ℕ
  pub live : ℕ
  pub loaded : List ℕ

-- One turn of the loop by the thread that loaded `current`.
unfoldable pub turn : ℕ → String → World → List ℕ → ℕ → List ℕ → World
turn limit label w before current after = elim (increment_bounded_usize limit label current) [
  | err e ↦ record w { loaded = before ++ after }
  | ok next ↦
      if w.counter == current
      then record { counter = next; live = w.live + 1; loaded = before ++ after }
      else record w { loaded = before ++ w.counter ∷ after }
]

-- Any thread may enter the loop, take its turn in it, or drop a ticket.
pub data Step (limit : ℕ) (label : String) (w : World) : World → Type 0 where
  enter : Step limit label w (record w { loaded = w.counter ∷ w.loaded })
  take_turn :
      (before : List ℕ) (current : ℕ) (after : List ℕ)
      → w.loaded ≡ before ++ current ∷ after
      → Step limit label w (turn limit label w before current after)
  release :
      (k : ℕ)
      → w.live ≡ suc k
      → Step limit label w (record w { counter = checked_pred w.counter; live = k })

pub data Reach (limit : ℕ) (label : String) (w : World) : World → Type 0 where
  here : Reach limit label w w
  next : {u v : World} → Reach limit label w u → Step limit label u v → Reach limit label w v

abbrev pub idle : World
idle = record { counter = 0; live = 0; loaded = [] }

record IsCounted (limit : ℕ) (w : World) : Type 0 where
  exact : w.counter ≡ w.live
  bounded : w.live ≤ limit

turn-IsCounted :
    (limit : ℕ) (label : String) (w : World) (before : List ℕ) (current : ℕ) (after : List ℕ)
    → IsCounted limit w
    → IsCounted limit (turn limit label w before current after)
unfolding turn increment_bounded_usize
turn-IsCounted limit label w before current after v = ground arith

Step-IsCounted :
    {limit : ℕ} {label : String} {u v : World}
    → Step limit label u v
    → IsCounted limit u
    → IsCounted limit v
Step-IsCounted enter c = record { exact = c.exact; bounded = c.bounded }
Step-IsCounted {limit} {label} {u} (take_turn before current after e) c =
    turn-IsCounted limit label u before current after c
Step-IsCounted {u} (release k e) c = ground arith

Reach-IsCounted :
    {limit : ℕ} {label : String} {u v : World}
    → IsCounted limit u
    → Reach limit label u v
    → IsCounted limit v
Reach-IsCounted c here = c
Reach-IsCounted c (next r s) = Step-IsCounted s (Reach-IsCounted c r)

-- From no tickets, and in every interleaving of threads that add tickets and drop them, the counter
-- is the number of live tickets, and that never passes the limit.
pub tickets_bounded :
    (limit : ℕ) (label : String) {w : World}
    → Reach limit label idle w
    → (w.counter ≡ w.live) × (w.counter ≤ limit)
tickets_bounded limit label r =
    let c =
      Reach-IsCounted {limit = limit} {label = label}
        (record { exact = refl; bounded = omega arith }) r in
    (c.exact, omega arith)

-- Bytes that are let into the queue keep it within the limit, and taking the same bytes out again
-- restores the ticket.
pub remove-try_add_queued_bytes :
    (t : PairTicket) (bytes : ℕ) {t' : PairTicket}
    → try_add_queued_bytes t bytes ≡ ok t'
    → (t'.queued_bytes ≤ t.limits.max_queued_bytes) × (remove_queued_bytes t' bytes ≡ t)
unfolding try_add_queued_bytes remove_queued_bytes
remove-try_add_queued_bytes t bytes h = ground arith
