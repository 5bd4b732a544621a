-- ===== src/Daemon/Resume/Tokens.antt =====
-- crates/server/daemon-core/src/resume.rs: which tokens are accepted.
use cli_pocket.Prelude.{
  ℕ, ◌+◌, ◌%◌, ◌^◌, ◌<◌, ◌≡◌, refl, sym, ap, subst, ◌∙◌, true, [], ◌∷◌, ◌++◌, ok, err, length, take,
  drop, length-append, length-take, length-drop, take-append, drop-append_self, take-append-drop,
  AreBytes, AreBytes-append, leb, ltb, if◌then◌else◌, arith,
}
use cli_pocket.Proto.Wire.{Bytes}
use cli_pocket.Daemon.Resume.{
  VerifiedResume, expired, Mac, version, body_len, token_len, body_bytes, parse_body, ct_eq, tag,
  mint, verify, first,
}
use cli_pocket.Daemon.Resume.Body.{
  InRange, ct_eq_sound, ct_eq_refl, length-body_bytes, parse-body_bytes, body_bytes-parse,
}

-- HMAC-SHA256 gives 32 bytes.
abbrev pub Is32 : Mac → Type 0
Is32 hmac = (key m : Bytes) → length (hmac key m) ≡ 32

first_body : (v : VerifiedResume) → first (body_bytes v) ≡ version
unfolding body_bytes
first_body v = refl

starts_with_version : (b : Bytes) → first b ≡ version → 0 < length b → b ≡ version ∷ drop 1 b
starts_with_version [] e h = absurd (omega arith)
starts_with_version (x ∷ b) e h = ap (λ k. k ∷ b) e

-- A body whose first byte is the version is the one of the claims that it is read as.
body_bytes_back :
    (b : Bytes)
    → length b ≡ body_len
    → first b ≡ version
    → AreBytes b
    → body_bytes (parse_body b) ≡ b
body_bytes_back b k e h =
    let start = starts_with_version b e (omega arith) in
    let size : length (drop 1 b) ≡ 48 = omega (arith, length-drop 1 b) in
    let rest = AreBytes-append (take 1 b) (drop 1 b) (rw (take-append-drop 1 b) h) in
    subst (λ x. body_bytes (parse_body x) ≡ x) (sym start) (body_bytes-parse (drop 1 b) size rest.1)

-- What an accepted token passed.
record Passed (hmac : Mac) (secret token : Bytes) (now_ms : ℕ) (v : VerifiedResume) : Type 0 where
  size : length token ≡ token_len
  versioned : first (take body_len token) ≡ version
  tagged : ct_eq (tag hmac secret (take body_len token)) (drop body_len token) ≡ true
  claims : parse_body (take body_len token) ≡ v
  live : now_ms < v.expiry_ms

module _ (hmac : Mac) (wide : Is32 hmac) (secret : Bytes) where
  length-tag : (b : Bytes) → length (tag hmac secret b) ≡ 16
  length-tag b = omega (arith, length-take 16 (hmac secret b), wide secret b)

  -- A body with its own tag is judged by its expiry alone.
  verify_tagged :
      (v : VerifiedResume) (now : ℕ)
      → InRange v
      → verify hmac secret (body_bytes v ++ tag hmac secret (body_bytes v)) now
        ≡ (if leb v.expiry_ms now then err expired else ok v)
  unfolding verify
  verify_tagged v now r =
      let body = body_bytes v in
      let front = take-append body_len body (tag hmac secret body) (length-body_bytes v) in
      let back = drop-append_self body_len body (tag hmac secret body) (length-body_bytes v) in
      let total : length (body ++ tag hmac secret body) ≡ token_len =
        omega (
          arith,
          length-append body (tag hmac secret body),
          length-body_bytes v,
          length-tag body,
        ) in
      rw (total, front, back, parse-body_bytes v r, ct_eq_refl (tag hmac secret body), first_body v)

  -- A token minted for identifiers of 128 bits, where the expiry does not pass the largest instant,
  -- is accepted strictly before its expiry with what it was minted for, and is expired from then on.
  pub verify-mint :
      (client terminal now_ms ttl_ms later : ℕ)
      → client < 256 ^ 16
      → terminal < 256 ^ 16
      → now_ms + ttl_ms < 2 ^ 64
      → verify hmac secret (mint hmac secret client terminal now_ms ttl_ms) later ≡ (
          if ltb later (now_ms + ttl_ms)
          then ok (record {
            client_id = client;
            terminal_id = terminal;
            issued_ms = now_ms;
            expiry_ms = now_ms + ttl_ms;
          })
          else err expired)
  unfolding mint
  verify-mint client terminal now_ms ttl_ms later hc ht hs =
      let fits : (now_ms + ttl_ms) % 2 ^ 64 ≡ now_ms + ttl_ms = omega arith in
      let v : VerifiedResume = record {
        client_id = client;
        terminal_id = terminal;
        issued_ms = now_ms;
        expiry_ms = now_ms + ttl_ms;
      } in
      let range : InRange v = record {
        client = hc;
        terminal = ht;
        issued = omega arith;
        expiry = hs;
      } in
      rw fits (rw (verify_tagged v later range) (ground arith))

  verify-Passed :
      (token : Bytes) (now_ms : ℕ) (v : VerifiedResume)
      → verify hmac secret token now_ms ≡ ok v
      → Passed hmac secret token now_ms v
  unfolding verify
  verify-Passed token now_ms v e = ground arith

  -- A token of bytes that is accepted is a body with the tag of the secret, of just the claims that are
  -- returned, and these have not expired.
  pub verify_sound :
      (token : Bytes) (now_ms : ℕ) (v : VerifiedResume)
      → AreBytes token
      → verify hmac secret token now_ms ≡ ok v
      → (token ≡ body_bytes v ++ tag hmac secret (body_bytes v)) × (now_ms < v.expiry_ms)
  verify_sound token now_ms v h e =
      let p = verify-Passed token now_ms v e in
      let body = take body_len token in
      let size : length body ≡ body_len = omega (arith, length-take body_len token, p.size) in
      let bytes =
        AreBytes-append body (drop body_len token) (rw (take-append-drop body_len token) h) in
      let back : body_bytes v ≡ body =
        ap body_bytes (sym p.claims) ∙ body_bytes_back body size p.versioned bytes.0 in
      let tail : drop body_len token ≡ tag hmac secret body = sym (ct_eq_sound _ _ p.tagged) in
      (rw back (sym (take-append-drop body_len token) ∙ ap (◌++◌ body) tail), p.live)
