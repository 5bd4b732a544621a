-- ===== src/Daemon/Resume.antt =====
-- crates/server/daemon-core/src/resume.rs: resume tokens. A UUID is the number of its 16 bytes.
pub mod Body
pub mod Tokens
use cli_pocket.Prelude.{
  ℕ, ◌+◌, ◌-◌, ◌%◌, ◌^◌, Bool, true, false, not, ◌&&◌, List, [], ◌∷◌, ◌++◌, Result, ok, err, ◌==◌,
  leb, if◌then◌else◌, length, take, drop, to_be_bytes, from_be_bytes,
}
use cli_pocket.Proto.Wire.{Bytes}

abbrev pub version : ℕ
version = 1

abbrev pub tag_len : ℕ
tag_len = 16

abbrev pub body_len : ℕ
body_len = 1 + 16 + 16 + 8 + 8

abbrev pub token_len : ℕ
token_len = body_len + tag_len

pub record VerifiedResume : Type 0 where
  pub client_id : ℕ
  pub terminal_id : ℕ
  pub issued_ms : ℕ
  pub expiry_ms : ℕ

pub data ResumeError : Type 0 where
  malformed bad_version expired bad_tag : ResumeError

-- HMAC-SHA256, of a key and a message.
abbrev pub Mac : Type 0
Mac = Bytes → Bytes → Bytes

pub body_bytes : VerifiedResume → Bytes
body_bytes v =
    version
    ∷ (to_be_bytes 16 v.client_id
        ++ (to_be_bytes 16 v.terminal_id
            ++ (to_be_bytes 8 v.issued_ms ++ to_be_bytes 8 v.expiry_ms)))

-- `b[0]`; the length is checked before.
abbrev first : Bytes → ℕ
first [] = 0
first (b ∷ bs) = b

-- `&b[from..to]`, within the bounds.
abbrev slice : Bytes → ℕ → ℕ → Bytes
slice b from to = take (to - from) (drop from b)

-- `ct_eq` on slices.
unfoldable pub ct_eq : Bytes → Bytes → Bool
ct_eq [] [] = true
ct_eq [] (c ∷ cs) = false
ct_eq (b ∷ bs) [] = false
ct_eq (b ∷ bs) (c ∷ cs) = b == c && ct_eq bs cs

unfoldable pub parse_body : Bytes → VerifiedResume
parse_body body = record {
  client_id = from_be_bytes (slice body 1 17);
  terminal_id = from_be_bytes (slice body 17 33);
  issued_ms = from_be_bytes (slice body 33 41);
  expiry_ms = from_be_bytes (slice body 41 49);
}

module _ (hmac : Mac) (secret : Bytes) where
  abbrev pub tag : Bytes → Bytes
  tag body = take tag_len (hmac secret body)

  -- The sum wraps, as in a release build.
  pub mint : ℕ → ℕ → ℕ → ℕ → Bytes
  mint client terminal now_ms ttl_ms =
      let body = body_bytes (record {
        client_id = client;
        terminal_id = terminal;
        issued_ms = now_ms;
        expiry_ms = (now_ms + ttl_ms) % 2 ^ 64;
      }) in
      body ++ tag body

  unfoldable pub verify : Bytes → ℕ → Result ResumeError VerifiedResume
  verify token now_ms =
      let body = take body_len token in
      let v = parse_body body in
      if not (length token == token_len)
      then err malformed
      else if not (first body == version)
      then err bad_version
      else if not (ct_eq (tag body) (drop body_len token))
      then err bad_tag
      else if leb v.expiry_ms now_ms
      then err expired
      else ok v
