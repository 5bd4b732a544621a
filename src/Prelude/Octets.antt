-- ===== src/Prelude/Octets.antt =====
-- Big-endian bytes, `to_be_bytes` and `from_be_bytes` for words of `n` bytes.
use Prim.Native.Nat.{ℕ, zero, suc, ◌+◌, ◌*◌, ◌/◌, ◌%◌, ◌^◌, ◌<◌}
use native.Mathlib.Nat.{pow-suc}
use mathlib.Core.Path.{◌≡◌, refl, ap, subst}
use mathlib.Core.List.{List, [], ◌∷◌, ◌++◌}
use native.Mathlib.Omega.{arith}
use cli_pocket.Prelude.Lists.{length, length-append}

pub to_be_bytes : ℕ → ℕ → List ℕ
to_be_bytes zero x = []
to_be_bytes (suc n) x = to_be_bytes n (x / 256) ++ (x % 256) ∷ []

unfoldable pub from_be_acc : ℕ → List ℕ → ℕ
from_be_acc acc [] = acc
from_be_acc acc (b ∷ bs) = from_be_acc (acc * 256 + b) bs

abbrev pub from_be_bytes : List ℕ → ℕ
from_be_bytes bs = from_be_acc 0 bs

-- Every element is a byte.
abbrev pub AreBytes : List ℕ → Type 0
AreBytes [] = Unit
AreBytes (b ∷ bs) = (b < 256) × AreBytes bs

pub length-to_be_bytes : (n x : ℕ) → length (to_be_bytes n x) ≡ n
unfolding to_be_bytes
length-to_be_bytes zero x = refl
length-to_be_bytes (suc n) x = omega (
  arith,
  length-append (to_be_bytes n (x / 256)) ((x % 256) ∷ []),
  length-to_be_bytes n (x / 256),
)

from_be_acc-append :
    (acc : ℕ) (bs : List ℕ) (b : ℕ) → from_be_acc acc (bs ++ b ∷ []) ≡ from_be_acc acc bs * 256 + b
unfolding from_be_acc
from_be_acc-append acc [] b = refl
from_be_acc-append acc (c ∷ bs) b = from_be_acc-append (acc * 256 + c) bs b

to_from_snoc :
    (n : ℕ) (start : List ℕ) (last : ℕ)
    → last < 256
    → to_be_bytes n (from_be_bytes start) ≡ start
    → to_be_bytes (suc n) (from_be_bytes (start ++ last ∷ [])) ≡ start ++ last ∷ []
unfolding to_be_bytes
to_from_snoc n start last small h =
    let x = from_be_bytes start in
    let high : (x * 256 + last) / 256 ≡ x = omega arith in
    let low : (x * 256 + last) % 256 ≡ last = omega arith in rw (from_be_acc-append, high, low, h)

pub from-to_be_bytes : (n x : ℕ) → x < 256 ^ n → from_be_bytes (to_be_bytes n x) ≡ x
unfolding to_be_bytes from_be_acc
from-to_be_bytes zero x h = omega arith
from-to_be_bytes (suc n) x h =
    let e = from_be_acc-append 0 (to_be_bytes n (x / 256)) (x % 256) in
    let small : x / 256 < 256 ^ n = omega (arith, pow-suc 256 n) in
    omega (arith, e, from-to_be_bytes n (x / 256) small)

pub AreBytes-append : (bs cs : List ℕ) → AreBytes (bs ++ cs) → AreBytes bs × AreBytes cs
AreBytes-append [] cs h = (tt, h)
AreBytes-append (b ∷ bs) cs h = let rest = AreBytes-append bs cs h.1 in ((h.0, rest.0), rest.1)

unsnoc : (b : ℕ) (bs : List ℕ) → (start : List ℕ) × (last : ℕ) × (b ∷ bs ≡ start ++ last ∷ [])
unsnoc b [] = ([], b, refl)
unsnoc b (c ∷ bs) = let (start, last, e) = unsnoc c bs in (b ∷ start, last, ap (◌∷◌ b) e)

-- A list of `n` bytes is the one that its number has.
pub to-from_be_bytes :
    (n : ℕ) (bs : List ℕ) → length bs ≡ n → AreBytes bs → to_be_bytes n (from_be_bytes bs) ≡ bs
unfolding to_be_bytes
to-from_be_bytes zero [] k h = refl
to-from_be_bytes zero (b ∷ bs) k h = absurd (omega arith)
to-from_be_bytes (suc n) [] k h = absurd (omega arith)
to-from_be_bytes (suc n) (b ∷ bs) k h =
    let (start, last, e) = unsnoc b bs in
    let split = AreBytes-append start (last ∷ []) (subst AreBytes e h) in
    let size : length start ≡ n = omega (arith, ap length e, length-append start (last ∷ [])) in
    rw e (to_from_snoc n start last split.1.0 (to-from_be_bytes n start size split.0))
