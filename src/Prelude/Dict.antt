-- ===== src/Prelude/Dict.antt =====
-- A `HashMap` whose keys are numbers, as an association list. The order of the entries stands for
-- the order, unspecified in Rust, in which the map is iterated.
use Prim.Native.Nat.{ℕ, suc, ◌≤◌}
use mathlib.Core.Path.{◌≡◌, refl}
use mathlib.Core.Bool.{Bool, true, false}
use mathlib.Core.Option.{Option, none, some}
use mathlib.Core.List.{List, [], ◌∷◌}
use native.Mathlib.Omega.{arith}
use cli_pocket.Prelude.Tests.{◌==◌, if◌then◌else◌}
use cli_pocket.Prelude.Lists.{length}

abbrev pub Dict {ℓ} : Type ℓ → Type ℓ
Dict V = List (ℕ × V)

module _ {ℓ} {V : Type ℓ} where
  unfoldable pub remove : ℕ → Dict V → Dict V
  remove key [] = []
  remove key ((other, value) ∷ rest) =
      let shorter = remove key rest in if other == key then shorter else (other, value) ∷ shorter

  -- `get`, of the first entry of the key.
  unfoldable pub lookup : ℕ → Dict V → Option V
  lookup key [] = none
  lookup key ((other, value) ∷ rest) =
      let later = lookup key rest in if other == key then some value else later

  abbrev pub values : Dict V → List V
  values [] = []
  values ((j, v) ∷ m) = v ∷ values m

  abbrev pub keys : Dict V → List ℕ
  keys [] = []
  keys ((j, v) ∷ m) = j ∷ keys m

  abbrev pub contains_key : ℕ → Dict V → Bool
  contains_key k m = elim (lookup k m) [ none ↦ false | some v ↦ true ]

  -- `insert` overwrites the entry of its key.
  unfoldable pub insert : ℕ → V → Dict V → Dict V
  insert key value [] = (key, value) ∷ []
  insert key value ((other, old) ∷ rest) =
      let longer = insert key value rest in
      if other == key then (key, value) ∷ rest else (other, old) ∷ longer

  pub lookup-insert :
      (key asked : ℕ) (value : V) (dict : Dict V)
      → lookup asked (insert key value dict)
        ≡ (if key == asked then some value else lookup asked dict)
  unfolding insert lookup
  lookup-insert key asked value [] = refl
  lookup-insert key asked value (entry ∷ rest) = ground (arith, lookup-insert key asked value rest)

  pub lookup-remove :
      (k j : ℕ) (m : Dict V) → lookup j (remove k m) ≡ (if k == j then none else lookup j m)
  unfolding lookup remove
  lookup-remove k j [] = ground arith
  lookup-remove k j ((i, w) ∷ m) = ground (arith, lookup-remove k j m)

  -- A new key adds an entry, and an old one none.
  pub length-insert :
      (k : ℕ) (v : V) (m : Dict V)
      → length (insert k v m) ≡ (if contains_key k m then length m else suc (length m))
  unfolding lookup insert
  length-insert k v [] = refl
  length-insert k v ((i, w) ∷ m) = ground (arith, length-insert k v m)

  pub remove_absent : (k : ℕ) (m : Dict V) → lookup k m ≡ none → remove k m ≡ m
  unfolding lookup remove
  remove_absent k [] h = refl
  remove_absent k ((i, w) ∷ m) h = ground (arith, remove_absent k m)

  pub length-remove-le : (k : ℕ) (m : Dict V) → length (remove k m) ≤ length m
  unfolding remove
  length-remove-le k [] = omega arith
  length-remove-le k ((i, w) ∷ m) = ground (arith, length-remove-le k m)

pub ruleset dict_laws = (lookup-insert, lookup-remove)
