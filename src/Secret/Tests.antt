-- ===== src/Secret/Tests.antt =====
-- The wire form of a sample digest.
use moesegfault_indentity.Base.{some}
use moesegfault_indentity.Secret.{Crypto}

abbrev plain : Crypto
plain = record { hmac_sha256 = λ k m. m; sha256 = λ m. m; encode = λ b. b; decode = λ b. some b }
