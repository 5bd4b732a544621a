-- ===== src/Relay/Pairs/Keyed.antt =====
-- crates/relay/relay-core/src/pairs.rs: each pair stands in the map once, under its identifier.
use cli_pocket.Prelude.{
  ◌≡◌, refl, Bool, false, ◌||◌, Option, none, some, List, [], ◌∷◌, ◌==◌, keep, arith,
}
use cli_pocket.Prelude.Dict.{Dict, lookup, insert, remove, values, lookup-insert, lookup-remove}
use cli_pocket.Proto.Wire.{PairId}
use cli_pocket.Relay.State.{Pair}

abbrev pub IsKeyed : Dict Pair → Type 0
IsKeyed [] = Unit
IsKeyed ((k, p) ∷ m) = (p.pair_id ≡ k) × (lookup k m ≡ none) × IsKeyed m

pub insert-IsKeyed :
    (k : PairId) (p : Pair) (m : Dict Pair) → p.pair_id ≡ k → IsKeyed m → IsKeyed (insert k p m)
unfolding insert lookup
insert-IsKeyed k p [] e h = (e, refl, tt)
insert-IsKeyed k p ((j, q) ∷ m) e h =
    ground (arith, lookup-insert k j p m, insert-IsKeyed k p m e h.2)

pub remove-IsKeyed : (k : PairId) (m : Dict Pair) → IsKeyed m → IsKeyed (remove k m)
unfolding remove
remove-IsKeyed k [] h = tt
remove-IsKeyed k ((j, q) ∷ m) h = ground (arith, lookup-remove k j m, remove-IsKeyed k m h.2)

pub pair_id-lookup :
    (k : PairId) (m : Dict Pair) {p : Pair} → IsKeyed m → lookup k m ≡ some p → p.pair_id ≡ k
unfolding lookup
pair_id-lookup k [] h e = cc
pair_id-lookup k ((j, q) ∷ m) {p} h e = ground (arith, pair_id-lookup k m {p = p} h.2)

-- Some pair of the list has the identifier.
abbrev pub named : PairId → List Pair → Bool
named k [] = false
named k (p ∷ ps) = p.pair_id == k || named k ps

abbrev pub satisfies : (Pair → Bool) → Option Pair → Bool
satisfies test none = false
satisfies test (some p) = test p

pub named-keep-values :
    (k : PairId) (test : Pair → Bool) (m : Dict Pair)
    → IsKeyed m
    → named k (keep test (values m)) ≡ satisfies test (lookup k m)
unfolding lookup
named-keep-values k test [] h = refl
named-keep-values k test ((j, q) ∷ m) h = ground (arith, named-keep-values k test m h.2)
