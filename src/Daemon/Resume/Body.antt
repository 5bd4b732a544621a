-- ===== src/Daemon/Resume/Body.antt =====
-- crates/server/daemon-core/src/resume.rs: the body of a token, written and read.
use cli_pocket.Prelude.{
  ℕ, zero, suc, ◌+◌, ◌≤◌, ◌<◌, ◌^◌, ◌≡◌, refl, sym, ap, ◌∙◌, true, [], ◌∷◌, ◌++◌, length, take,
  drop, length-append, length-take, length-drop, take-append, drop-append_self, take-append-drop,
  drop-drop, take_all, AreBytes, to_be_bytes, from_be_bytes, length-to_be_bytes, from-to_be_bytes,
  to-from_be_bytes, arith,
}
use cli_pocket.Proto.Wire.{Bytes}
use cli_pocket.Daemon.Resume.{VerifiedResume, version, body_bytes, parse_body, ct_eq, body_len}

pub ct_eq_sound : (bs cs : Bytes) → ct_eq bs cs ≡ true → bs ≡ cs
unfolding ct_eq
ct_eq_sound [] [] h = refl
ct_eq_sound [] (c ∷ cs) h = cc
ct_eq_sound (b ∷ bs) [] h = cc
ct_eq_sound (b ∷ bs) (c ∷ cs) h = ground (arith, ct_eq_sound bs cs)

pub ct_eq_refl : (bs : Bytes) → ct_eq bs bs ≡ true
unfolding ct_eq
ct_eq_refl [] = refl
ct_eq_refl (b ∷ bs) = ground (arith, ct_eq_refl bs)

-- The identifiers have 128 bits and the instants 64.
pub record InRange (v : VerifiedResume) : Type 0 where
  pub client : v.client_id < 256 ^ 16
  pub terminal : v.terminal_id < 256 ^ 16
  pub issued : v.issued_ms < 256 ^ 8
  pub expiry : v.expiry_ms < 256 ^ 8

pub length-body_bytes : (v : VerifiedResume) → length (body_bytes v) ≡ body_len
unfolding body_bytes
length-body_bytes v =
    let c = to_be_bytes 16 v.client_id in
    let t = to_be_bytes 16 v.terminal_id in
    let i = to_be_bytes 8 v.issued_ms in
    let e = to_be_bytes 8 v.expiry_ms in
    omega (
      arith,
      length-append c (t ++ (i ++ e)),
      length-append t (i ++ e),
      length-append i e,
      length-to_be_bytes 16 v.client_id,
      length-to_be_bytes 16 v.terminal_id,
      length-to_be_bytes 8 v.issued_ms,
      length-to_be_bytes 8 v.expiry_ms,
    )

-- The four slices behind the version byte.
record IsCut (rest c t i e : Bytes) : Type 0 where
  at0 : take 16 rest ≡ c
  at16 : take 16 (drop 16 rest) ≡ t
  at32 : take 8 (drop 32 rest) ≡ i
  at40 : take 8 (drop 40 rest) ≡ e

append-IsCut :
    (c t i e : Bytes)
    → length c ≡ 16
    → length t ≡ 16
    → length i ≡ 8
    → length e ≡ 8
    → IsCut (c ++ (t ++ (i ++ e))) c t i e
append-IsCut c t i e lc lt li le =
    let rest = c ++ (t ++ (i ++ e)) in
    let d16 : drop 16 rest ≡ t ++ (i ++ e) = drop-append_self 16 c (t ++ (i ++ e)) lc in
    let d32 : drop 32 rest ≡ i ++ e =
      sym (drop-drop 16 16 rest) ∙ ap (drop 16) d16 ∙ drop-append_self 16 t (i ++ e) lt in
    let d40 : drop 40 rest ≡ e =
      sym (drop-drop 8 32 rest) ∙ ap (drop 8) d32 ∙ drop-append_self 8 i e li in
    record {
      at0 = take-append 16 c (t ++ (i ++ e)) lc;
      at16 = rw d16 (take-append 16 t (i ++ e) lt);
      at32 = rw d32 (take-append 8 i e li);
      at40 = rw d40 (take_all 8 e (omega arith));
    }

pub parse-body_bytes : (v : VerifiedResume) → InRange v → parse_body (body_bytes v) ≡ v
unfolding body_bytes parse_body
parse-body_bytes v r =
    let cut =
      append-IsCut (to_be_bytes 16 v.client_id) (to_be_bytes 16 v.terminal_id)
        (to_be_bytes 8 v.issued_ms) (to_be_bytes 8 v.expiry_ms) (length-to_be_bytes 16 v.client_id)
        (length-to_be_bytes 16 v.terminal_id) (length-to_be_bytes 8 v.issued_ms)
        (length-to_be_bytes 8 v.expiry_ms) in
    rw (cut.at0, cut.at16, cut.at32, cut.at40)
      (rw
        (
          from-to_be_bytes 16 v.client_id r.client,
          from-to_be_bytes 16 v.terminal_id r.terminal,
          from-to_be_bytes 8 v.issued_ms r.issued,
          from-to_be_bytes 8 v.expiry_ms r.expiry,
        )
        refl)

AreBytes-take : (n : ℕ) (bs : Bytes) → AreBytes bs → AreBytes (take n bs)
AreBytes-take zero bs h = tt
AreBytes-take (suc n) [] h = tt
AreBytes-take (suc n) (b ∷ bs) h = (h.0, AreBytes-take n bs h.1)

AreBytes-drop : (n : ℕ) (bs : Bytes) → AreBytes bs → AreBytes (drop n bs)
AreBytes-drop zero bs h = h
AreBytes-drop (suc n) [] h = tt
AreBytes-drop (suc n) (b ∷ bs) h = AreBytes-drop n bs h.1

-- The bytes of a slice are those of the number that it is read as.
slice_back :
    (n m : ℕ) (rest : Bytes)
    → AreBytes rest
    → m + n ≤ length rest
    → to_be_bytes n (from_be_bytes (take n (drop m rest))) ≡ take n (drop m rest)
slice_back n m rest h k =
    to-from_be_bytes n (take n (drop m rest))
      (omega (arith, length-take n (drop m rest), length-drop m rest))
      (AreBytes-take n (drop m rest) (AreBytes-drop m rest h))

-- Cut at 16, 32 and 40 and joined again.
join_cuts :
    (rest : Bytes)
    → length rest ≡ 48
    → take 16 rest ++ (take 16 (drop 16 rest) ++ (take 8 (drop 32 rest) ++ take 8 (drop 40 rest)))
      ≡ rest
join_cuts rest k =
    let d32 : drop 16 (drop 16 rest) ≡ drop 32 rest = drop-drop 16 16 rest in
    let d40 : drop 8 (drop 32 rest) ≡ drop 40 rest = drop-drop 8 32 rest in
    let last : take 8 (drop 40 rest) ≡ drop 40 rest =
      take_all 8 (drop 40 rest) (omega (arith, length-drop 40 rest)) in
    let a : take 8 (drop 32 rest) ++ drop 40 rest ≡ drop 32 rest =
      ap (λ x. take 8 (drop 32 rest) ++ x) (sym d40) ∙ take-append-drop 8 (drop 32 rest) in
    let b : take 16 (drop 16 rest) ++ drop 32 rest ≡ drop 16 rest =
      ap (λ x. take 16 (drop 16 rest) ++ x) (sym d32) ∙ take-append-drop 16 (drop 16 rest) in
    rw (last, a, b) (take-append-drop 16 rest)

pub body_bytes-parse :
    (rest : Bytes)
    → length rest ≡ 48
    → AreBytes rest
    → body_bytes (parse_body (version ∷ rest)) ≡ version ∷ rest
unfolding body_bytes parse_body
body_bytes-parse rest k h =
    rw
      (
        slice_back 16 0 rest h (omega arith),
        slice_back 16 16 rest h (omega arith),
        slice_back 8 32 rest h (omega arith),
        slice_back 8 40 rest h (omega arith),
      )
      (ap (◌∷◌ version) (join_cuts rest k))
