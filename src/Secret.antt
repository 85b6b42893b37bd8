-- ===== src/Secret.antt =====
-- crates/identity-domain/src/secret.rs: bearer secrets and their stored digests. HMAC-SHA-256 and
-- base64url come from crates and are the fields of `Crypto`; constant-time comparison is equality.
pub mod Wire
pub mod Tests
use moesegfault_indentity.Base.{
  ℕ, ◌≡◌, Bool, Option, none, some, List, length, ◌==◌, if◌then◌else◌, Result, ok, err, ◌>>=◌,
  ok_or,
}
use moesegfault_indentity.Base.Text.{Text, eq_text}

-- What the program calls of the `hmac`, `sha2` and `base64` crates.
pub record Crypto : Type 0 where
  -- HMAC-SHA-256 of a key and a message, in bytes
  pub hmac_sha256 : List ℕ → List ℕ → List ℕ
  pub sha256 : List ℕ → List ℕ
  -- `URL_SAFE_NO_PAD`
  pub encode : List ℕ → Text
  pub decode : Text → Option (List ℕ)

-- `SecretDigest`, 32 bytes.
abbrev pub Digest : Type 0
Digest = List ℕ

module _ (c : Crypto) where
  unfoldable pub hmac : List ℕ → List ℕ → Digest
  hmac pepper secret = c.hmac_sha256 pepper secret

  unfoldable pub to_base64url : Digest → Text
  to_base64url digest = c.encode digest

  -- `OpaqueSecret::digest`, over the 32 bytes of the secret
  pub digest : List ℕ → List ℕ → Digest
  digest secret pepper = hmac pepper secret

  -- `OpaqueSecret::expose_base64url`
  pub expose_base64url : List ℕ → Text
  expose_base64url secret = c.encode secret

  pub serialize : Digest → Text
  serialize value = c.encode value

-- The errors of `digest_serde::deserialize`.
pub data WireError : Type 0 where
  not_base64url wrong_length : WireError

abbrev pub ct_eq : Digest → Digest → Bool
ct_eq a b = eq_text a b

-- `try_into::<[u8; 32]>`
abbrev pub sized_32 : List ℕ → Option Digest
sized_32 bytes = if length bytes == 32 then some bytes else none

module _ (c : Crypto) where
  pub deserialize : Text → Result WireError Digest
  deserialize wire = do
    bytes ← ok_or (c.decode wire) not_base64url
    ok_or (sized_32 bytes) wrong_length
