-- ===== src/Relay/Registry.antt =====
-- crates/relay/relay-core/src/registry.rs: the registered servers, each with the generation of the
-- registration that put it there. A channel `mpsc::Sender` is a number.
pub mod Handles
use cli_pocket.Prelude.{
  ℕ, ◌+◌, ◌%◌, ◌^◌, Bool, true, false, String, Option, none, some, List, [], Result, ok, err, ◌==◌,
  if◌then◌else◌,
}
use cli_pocket.Prelude.Dict.{Dict, lookup, insert, remove, keys, contains_key}
use cli_pocket.Proto.Wire.{Bytes, ServerId}
use cli_pocket.Relay.Errors.{RelayError, protocol, RelayResult}

abbrev pub Sender : Type 0
Sender = ℕ

pub data ServerMsg : Type 0 where
  ctrl payload : Bytes → ServerMsg
  close : ServerMsg

pub record ServerSlot : Type 0 where
  pub server_id : ServerId
  pub tx : Sender

pub record StoredServerSlot : Type 0 where
  pub slot : ServerSlot
  pub generation : ℕ

pub record ServerRegistry : Type 0 where
  pub servers : Dict StoredServerSlot
  pub next_generation : ℕ

pub record ServerRegistration : Type 0 where
  pub server_id : ServerId
  pub generation : ℕ

abbrev pub empty : ServerRegistry
empty = record { servers = []; next_generation = 0 }

unfoldable pub register :
    ServerRegistry → ServerSlot → RelayResult (ServerRegistry × ServerRegistration)
register r slot =
    if contains_key slot.server_id r.servers
    then err (protocol "duplicate server registration")
    else ok (
      record {
        servers =
            insert slot.server_id (record { slot = slot; generation = r.next_generation })
              r.servers;
        next_generation = (r.next_generation + 1) % 2 ^ 64;
      },
      record { server_id = slot.server_id; generation = r.next_generation },
    )

unfoldable pub get : ServerRegistry → ServerId → Option Sender
get r server_id = elim (lookup server_id r.servers) [
  | none ↦ none
  | some stored ↦ some stored.slot.tx
]

pub list_ids : ServerRegistry → List ServerId
list_ids r = keys r.servers

abbrev holds : Option StoredServerSlot → ServerRegistration → Bool
holds none h = false
holds (some stored) h = stored.generation == h.generation

-- `ServerRegistration::unregister`, which `drop` runs too: the registry, and whether it changed.
unfoldable pub unregister : ServerRegistry → ServerRegistration → ServerRegistry × Bool
unregister r h =
    if holds (lookup h.server_id r.servers) h
    then (record r { servers = remove h.server_id r.servers }, true)
    else (r, false)
