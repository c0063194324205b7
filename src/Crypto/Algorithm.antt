-- ===== src/Crypto/Algorithm.antt =====
-- The algorithms, their sizes, and how two sides choose among them.
use libatbus_go.Base.{ℕ, Bool, true, false}

-- `ATBUS_CRYPTO_ALGORITHM_TYPE`, with the numbers that the protocol does not name
pub data CryptoAlgorithm : Type 0 where
  no_crypto : CryptoAlgorithm
  xxtea : CryptoAlgorithm
  aes_128_cbc : CryptoAlgorithm
  aes_192_cbc : CryptoAlgorithm
  aes_256_cbc : CryptoAlgorithm
  aes_128_gcm : CryptoAlgorithm
  aes_192_gcm : CryptoAlgorithm
  aes_256_gcm : CryptoAlgorithm
  chacha20 : CryptoAlgorithm
  chacha20_poly1305 : CryptoAlgorithm
  xchacha20_poly1305 : CryptoAlgorithm
  other_crypto : ℕ → CryptoAlgorithm

-- `cryptoAlgorithmKeySize`
unfoldable pub crypto_algorithm_key_size : CryptoAlgorithm → ℕ
crypto_algorithm_key_size no_crypto = 0
crypto_algorithm_key_size xxtea = 16
crypto_algorithm_key_size aes_128_cbc = 16
crypto_algorithm_key_size aes_128_gcm = 16
crypto_algorithm_key_size aes_192_cbc = 24
crypto_algorithm_key_size aes_192_gcm = 24
crypto_algorithm_key_size aes_256_cbc = 32
crypto_algorithm_key_size aes_256_gcm = 32
crypto_algorithm_key_size chacha20 = 32
crypto_algorithm_key_size chacha20_poly1305 = 32
crypto_algorithm_key_size xchacha20_poly1305 = 32
crypto_algorithm_key_size (other_crypto n) = 0

-- `cryptoAlgorithmIVSize`
unfoldable pub crypto_algorithm_iv_size : CryptoAlgorithm → ℕ
crypto_algorithm_iv_size no_crypto = 0
crypto_algorithm_iv_size xxtea = 0
crypto_algorithm_iv_size aes_128_cbc = 16
crypto_algorithm_iv_size aes_192_cbc = 16
crypto_algorithm_iv_size aes_256_cbc = 16
crypto_algorithm_iv_size aes_128_gcm = 12
crypto_algorithm_iv_size aes_192_gcm = 12
crypto_algorithm_iv_size aes_256_gcm = 12
crypto_algorithm_iv_size chacha20 = 16
crypto_algorithm_iv_size chacha20_poly1305 = 12
crypto_algorithm_iv_size xchacha20_poly1305 = 24
crypto_algorithm_iv_size (other_crypto n) = 0

-- `cryptoAlgorithmIsAEAD`
abbrev pub crypto_algorithm_is_aead : CryptoAlgorithm → Bool
crypto_algorithm_is_aead aes_128_gcm = true
crypto_algorithm_is_aead aes_192_gcm = true
crypto_algorithm_is_aead aes_256_gcm = true
crypto_algorithm_is_aead chacha20_poly1305 = true
crypto_algorithm_is_aead xchacha20_poly1305 = true
crypto_algorithm_is_aead _ = false

-- `cryptoAlgorithmTagSize`
abbrev pub crypto_algorithm_tag_size : CryptoAlgorithm → ℕ
crypto_algorithm_tag_size aes_128_gcm = 16
crypto_algorithm_tag_size aes_192_gcm = 16
crypto_algorithm_tag_size aes_256_gcm = 16
crypto_algorithm_tag_size chacha20_poly1305 = 16
crypto_algorithm_tag_size xchacha20_poly1305 = 16
crypto_algorithm_tag_size _ = 0

-- The cases of the code's `switch` statements
pub data CipherFamily : Type 0 where
  plain_family : CipherFamily
  aead_family : CipherFamily
  cbc_family : CipherFamily
  stream_family : CipherFamily
  xxtea_family : CipherFamily
  unknown_family : CipherFamily

abbrev pub family : CryptoAlgorithm → CipherFamily
family no_crypto = plain_family
family xxtea = xxtea_family
family aes_128_cbc = cbc_family
family aes_192_cbc = cbc_family
family aes_256_cbc = cbc_family
family aes_128_gcm = aead_family
family aes_192_gcm = aead_family
family aes_256_gcm = aead_family
family chacha20 = stream_family
family chacha20_poly1305 = aead_family
family xchacha20_poly1305 = aead_family
family (other_crypto n) = unknown_family

abbrev pub is_none_algorithm : CryptoAlgorithm → Bool
is_none_algorithm no_crypto = true
is_none_algorithm _ = false
