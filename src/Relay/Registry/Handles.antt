-- ===== src/Relay/Registry/Handles.antt =====
-- crates/relay/relay-core/src/registry.rs: what the registration handles can do.
use cli_pocket.Prelude.{
  ℕ, zero, suc, ◌+◌, ◌^◌, ◌≤◌, ◌<◌, ◌≡◌, ◌≢◌, refl, sym, subst, false, inl, inr, Bool-cases, ==_iff,
  ◌==◌, if◌then◌else◌, Option, none, some, List, [], ◌∷◌, ok, err, length, get_elem?, arith,
}
use cli_pocket.Prelude.Dict.{lookup, lookup-insert, lookup-remove}
use cli_pocket.Proto.Wire.{ServerId}
use cli_pocket.Relay.Errors.{RelayResult}
use cli_pocket.Relay.Registry.{
  ServerSlot, StoredServerSlot, ServerRegistry, ServerRegistration, register, get, unregister,
  empty,
}

-- The registry with every handle that it has given out.
pub record Clients : Type 0 where
  pub registry : ServerRegistry
  pub issued : List ServerRegistration

-- A server registers, or the `i`-th handle is unregistered or dropped.
pub data Call : Type 0 where
  registers : ServerSlot → Call
  drops : ℕ → Call

abbrev pub issue : Clients → RelayResult (ServerRegistry × ServerRegistration) → Clients
issue c (ok (r, h)) = record { registry = r; issued = h ∷ c.issued }
issue c (err e) = c

abbrev drop_handle : Clients → Option ServerRegistration → Clients
drop_handle c none = c
drop_handle c (some h) = record c { registry = (unregister c.registry h).0 }

unfoldable pub step : Clients → Call → Clients
step c (registers slot) = issue c (register c.registry slot)
step c (drops i) = drop_handle c (get_elem? c.issued i)

unfoldable pub run : Clients → List Call → Clients
run c [] = c
run c (x ∷ xs) = run (step c x) xs

abbrev pub nobody : Clients
nobody = record { registry = empty; issued = [] }

abbrev AllBelow : ℕ → List ServerRegistration → Type 0
AllBelow n [] = Unit
AllBelow n (h ∷ hs) = (h.generation < n) × AllBelow n hs

AllBelow-mono : {m n : ℕ} (hs : List ServerRegistration) → m ≤ n → AllBelow m hs → AllBelow n hs
AllBelow-mono [] le a = tt
AllBelow-mono (h ∷ hs) le a = (omega arith, AllBelow-mono hs le a.1)

AllBelow-at :
    (n : ℕ) (hs : List ServerRegistration) (i : ℕ) {h : ServerRegistration}
    → AllBelow n hs
    → get_elem? hs i ≡ some h
    → h.generation < n
AllBelow-at n [] i a e = cc
AllBelow-at n (x ∷ hs) zero a e = ground arith
AllBelow-at n (x ∷ hs) (suc i) a e = AllBelow-at n hs i a.1 e

-- After at most `n` calls.
record IsFresh (n : ℕ) (c : Clients) : Type 0 where
  below : AllBelow c.registry.next_generation c.issued
  few : c.registry.next_generation ≤ n

unregister_next :
    (r : ServerRegistry) (h : ServerRegistration)
    → (unregister r h).0.next_generation ≡ r.next_generation
unfolding unregister
unregister_next r h = ground arith

register-IsFresh :
    (n : ℕ) (c : Clients) (slot : ServerSlot)
    → n + 1 < 2 ^ 64
    → IsFresh n c
    → IsFresh (n + 1) (issue c (register c.registry slot))
unfolding register
register-IsFresh n c slot k f = ground (
  arith,
  AllBelow-mono {m = c.registry.next_generation} {n = c.registry.next_generation + 1} c.issued,
)

step-IsFresh :
    (n : ℕ) (c : Clients) (x : Call) → n + 1 < 2 ^ 64 → IsFresh n c → IsFresh (n + 1) (step c x)
unfolding step
step-IsFresh n c (registers slot) k f = register-IsFresh n c slot k f
step-IsFresh n c (drops i) k f = dropped (get_elem? c.issued i)
  where
    dropped : (o : Option ServerRegistration) → IsFresh (n + 1) (drop_handle c o)
    dropped none = record { below = f.below; few = omega arith }
    dropped (some h) = record {
      below = rw unregister_next f.below;
      few = omega (arith, unregister_next c.registry h);
    }

run-IsFresh :
    (n : ℕ) (c : Clients) (xs : List Call)
    → n + length xs < 2 ^ 64
    → IsFresh n c
    → IsFresh (n + length xs) (run c xs)
unfolding run
run-IsFresh n c [] k f = record { below = f.below; few = omega arith }
run-IsFresh n c (x ∷ xs) k f =
    let done =
      run-IsFresh (n + 1) (step c x) xs (omega arith) (step-IsFresh n c x (omega arith) f) in
    record { below = done.below; few = omega arith }

-- A later call does not drop the handle `own`.
abbrev dropped_by : Clients → Call → Option ServerRegistration
dropped_by c (registers slot) = none
dropped_by c (drops i) = get_elem? c.issued i

abbrev IsOther : ServerRegistration → Option ServerRegistration → Type 0
IsOther own none = Unit {0}
IsOther own (some h) = h ≢ own

abbrev pub Spares : ServerRegistration → Clients → List Call → Type 0
Spares own c [] = Unit {0}
Spares own c (x ∷ ys) = IsOther own (dropped_by c x) × Spares own (step c x) ys

-- A generation names one handle.
abbrev AreApart : ServerRegistration → List ServerRegistration → Type 0
AreApart own [] = Unit {0}
AreApart own (h ∷ hs) = (h.generation ≡ own.generation → h ≡ own) × AreApart own hs

AreApart-below :
    (own : ServerRegistration) (hs : List ServerRegistration)
    → AllBelow own.generation hs
    → AreApart own hs
AreApart-below own [] a = tt
AreApart-below own (h ∷ hs) a = ((λ e. absurd (omega (arith, e, a.0))), AreApart-below own hs (a.1))

AreApart-at :
    (own : ServerRegistration) (hs : List ServerRegistration) (i : ℕ) (h : ServerRegistration)
    → AreApart own hs
    → get_elem? hs i ≡ some h
    → h ≢ own
    → (h.generation == own.generation) ≡ false
AreApart-at own [] i h a e ne = cc
AreApart-at own (x ∷ hs) zero h a e ne = elim (Bool-cases (h.generation == own.generation)) [
  | inl same ↦
      let there : x ≡ h = cc in
      absurd (
        ne (
          subst {A = ServerRegistration} (λ y. y.generation ≡ own.generation → y ≡ own) there (a.0)
            ((==_iff h.generation own.generation).0 same)))
  | inr apart ↦ apart
]
AreApart-at own (x ∷ hs) (suc i) h a e ne = AreApart-at own hs i h (a.1) e ne

-- The registration stands.
record Stands (slot : ServerSlot) (own : ServerRegistration) (c : Clients) : Type 0 where
  stored :
      lookup slot.server_id c.registry.servers
      ≡ some (record { slot = slot; generation = own.generation })
  later : own.generation < c.registry.next_generation
  apart : AreApart own c.issued

register-stored :
    (s : ServerRegistry) (other : ServerSlot) (r : ServerRegistry) (h : ServerRegistration) (k : ℕ)
    (stored : StoredServerSlot)
    → register s other ≡ ok (r, h)
    → lookup k s.servers ≡ some stored
    → lookup k r.servers ≡ some stored
unfolding register
register-stored s other r h k stored e found = ground (
  arith,
  lookup-insert other.server_id k (record { slot = other; generation = s.next_generation })
      s.servers,
)

unregister-stored :
    (s : ServerRegistry) (h : ServerRegistration) (k : ℕ) (stored : StoredServerSlot)
    → (h.generation == stored.generation) ≡ false
    → lookup k s.servers ≡ some stored
    → lookup k (unregister s h).0.servers ≡ some stored
unfolding unregister
unregister-stored s h k stored ne found = ground (arith, lookup-remove h.server_id k s.servers)

-- What `register` returns.
register-counts :
    (s : ServerRegistry) (slot : ServerSlot) (r : ServerRegistry) (h : ServerRegistration)
    → s.next_generation + 1 < 2 ^ 64
    → register s slot ≡ ok (r, h)
    → (r.next_generation ≡ s.next_generation + 1)
      × (h.generation ≡ s.next_generation)
      × (h.server_id ≡ slot.server_id)
unfolding register
register-counts s slot r h small e = ground arith

issue-Stands :
    (slot : ServerSlot) (own : ServerRegistration) (other : ServerSlot) (c : Clients)
    (o : RelayResult (ServerRegistry × ServerRegistration))
    → register c.registry other ≡ o
    → c.registry.next_generation + 1 < 2 ^ 64
    → Stands slot own c
    → Stands slot own (issue c o)
issue-Stands slot own other c (err x) e small f = f
issue-Stands slot own other c (ok (r, h)) e small f =
    let counts = register-counts c.registry other r h small e in
    record {
      stored =
          register-stored c.registry other r h slot.server_id
            (record { slot = slot; generation = own.generation }) e f.stored;
      later = omega (arith, f.later, counts.0);
      apart = ((λ same. absurd (omega (arith, same, counts.1, f.later))), f.apart);
    }

drop-Stands :
    (slot : ServerSlot) (own : ServerRegistration) (c : Clients) (i : ℕ)
    (o : Option ServerRegistration)
    → get_elem? c.issued i ≡ o
    → IsOther own o
    → Stands slot own c
    → Stands slot own (drop_handle c o)
drop-Stands slot own c i none e ne f = f
drop-Stands slot own c i (some h) e ne f = record {
  stored =
      unregister-stored c.registry h slot.server_id
        (record { slot = slot; generation = own.generation })
        (AreApart-at own c.issued i h f.apart e ne) f.stored;
  later = omega (arith, f.later, unregister_next c.registry h);
  apart = f.apart;
}

step-Stands :
    (slot : ServerSlot) (own : ServerRegistration) (c : Clients) (x : Call)
    → c.registry.next_generation + 1 < 2 ^ 64
    → IsOther own (dropped_by c x)
    → Stands slot own c
    → Stands slot own (step c x)
unfolding step
step-Stands slot own c (registers other) small ne f =
    issue-Stands slot own other c (register c.registry other) refl small f
step-Stands slot own c (drops i) small ne f =
    drop-Stands slot own c i (get_elem? c.issued i) refl ne f

run-Stands :
    (slot : ServerSlot) (own : ServerRegistration) (n : ℕ) (c : Clients) (ys : List Call)
    → n + length ys < 2 ^ 64
    → IsFresh n c
    → Spares own c ys
    → Stands slot own c
    → Stands slot own (run c ys)
unfolding run
run-Stands slot own n c [] k fresh spares f = f
run-Stands slot own n c (y ∷ ys) k fresh spares f =
    run-Stands slot own (n + 1) (step c y) ys (omega arith) (step-IsFresh n c y (omega arith) fresh)
      (spares.1) (step-Stands slot own c y (omega (arith, fresh.few)) (spares.0) f)

module _ (s : ServerRegistry) (slot : ServerSlot) (r : ServerRegistry) (own : ServerRegistration)
    (e : register s slot ≡ ok (r, own)) where
  get-register : (k : ℕ) → get r k ≡ (if slot.server_id == k then some slot.tx else get s k)
  unfolding register get
  get-register k = ground (
    arith,
    lookup-insert slot.server_id k (record { slot = slot; generation = s.next_generation })
        s.servers,
  )

  registered-stored :
      lookup slot.server_id r.servers ≡ some (record { slot = slot; generation = own.generation })
  unfolding register
  registered-stored = ground (
    arith,
    lookup-insert slot.server_id slot.server_id
        (record { slot = slot; generation = s.next_generation }) s.servers,
  )

get-stored :
    (s : ServerRegistry) (k generation : ℕ) (slot : ServerSlot)
    → lookup k s.servers ≡ some (record { slot = slot; generation = generation })
    → get s k ≡ some slot.tx
unfolding get
get-stored s k generation slot e = ground arith

get-unregister :
    (s : ServerRegistry) (own : ServerRegistration) (slot : ServerSlot) (k : ℕ)
    → own.server_id ≡ slot.server_id
    → lookup slot.server_id s.servers ≡ some (record { slot = slot; generation = own.generation })
    → get (unregister s own).0 k ≡ (if slot.server_id == k then none else get s k)
unfolding get unregister
get-unregister s own slot k same e =
    ground
      (arith, lookup-remove slot.server_id k s.servers, lookup-remove own.server_id k s.servers)

-- After any history `xs`, a server that registers is found under its identifier, and every other
-- server as before. Then, whatever is called after that but for the drop of the server's own
-- handle, registrations under the same identifier and drops of older and newer handles included, it
-- is found under its identifier with its channel; and the drop of its own handle removes it and no
-- other. All the calls are fewer than 2 ^ 64 together.
pub registration_owned :
    (xs ys : List Call) (slot : ServerSlot) (r : ServerRegistry) (own : ServerRegistration)
    → length xs + 1 + length ys < 2 ^ 64
    → register (run nobody xs).registry slot ≡ ok (r, own)
    → Spares own (issue (run nobody xs) (ok (r, own))) ys
    → let before = run nobody xs in
      let after = (run (issue before (ok (r, own))) ys).registry in
      ((k : ServerId)
        → get r k ≡ (if slot.server_id == k then some slot.tx else get before.registry k))
      × (get after slot.server_id ≡ some slot.tx)
      × ((k : ServerId)
          → get (unregister after own).0 k ≡ (if slot.server_id == k then none else get after k))
registration_owned xs ys slot r own k e spares =
    let before = run nobody xs in
    let s = before.registry in
    let old = run-IsFresh 0 nobody xs (omega arith) (record { below = tt; few = omega arith }) in
    let counts = register-counts s slot r own (omega (arith, old.few)) e in
    let started = issue before (ok (r, own)) in
    let fresh : IsFresh (length xs + 1) started = record {
      below = (
        omega (arith, counts.0, counts.1),
        AllBelow-mono {m = s.next_generation} {n = r.next_generation} before.issued
            (omega (arith, counts.0)) old.below,
      );
      few = omega (arith, counts.0, old.few);
    } in
    let stands : Stands slot own started = record {
      stored = registered-stored s slot r own e;
      later = omega (arith, counts.0, counts.1);
      apart = (
        (λ same. refl),
        AreApart-below own before.issued
            (subst (λ n. AllBelow n before.issued) (sym (counts.1)) old.below),
      );
    } in
    let last = run-Stands slot own (length xs + 1) started ys k fresh spares stands in
    let after = (run started ys).registry in
    (
      get-register s slot r own e,
      get-stored after slot.server_id own.generation slot last.stored,
      λ j. get-unregister after own slot j (counts.2) last.stored,
    )
