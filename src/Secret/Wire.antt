-- ===== src/Secret/Wire.antt =====
-- The wire form of a digest.
use moesegfault_indentity.Base.{ℕ, ◌≡◌, some, List, length, ok, arith}
use moesegfault_indentity.Secret.{Crypto, Digest, serialize, deserialize}

-- With a decoder that inverts the encoder, a stored digest of 32 bytes is read back.
pub deserialize-serialize :
    (c : Crypto) (d : Digest)
    → ((b : List ℕ) → c.decode (c.encode b) ≡ some b)
    → length d ≡ 32
    → deserialize c (serialize c d) ≡ ok d
unfolding deserialize serialize
deserialize-serialize c d inverse long = ground (arith, inverse d)
