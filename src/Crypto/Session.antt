-- ===== src/Crypto/Session.antt =====
-- `CryptoSession`: its state, and how it gets a key.
use libatbus_go.Base.{
  ℕ, ◌+◌, List, [], Option, none, some, Bool, true, false, not, ◌&&◌, length, take, drop,
}
use libatbus_go.Base.{◌==◌, ltb, if◌then◌else◌}
use libatbus_go.Crypto.Algorithm.{
  CryptoAlgorithm, no_crypto, crypto_algorithm_key_size, crypto_algorithm_iv_size,
  crypto_algorithm_tag_size, CipherFamily, plain_family, aead_family, cbc_family, stream_family,
  xxtea_family, family, is_none_algorithm,
}

abbrev pub Bytes : Type 0
Bytes = List ℕ

-- The errors of these operations, without their texts
pub data CryptoError : Type 0 where
  not_initialized : CryptoError
  algorithm_not_supported : CryptoError
  invalid_key_size : CryptoError
  invalid_iv_size : CryptoError
  encrypt_failed : CryptoError
  decrypt_failed : CryptoError
  kdf_failed : CryptoError

pub data Result {ℓ} (A : Type ℓ) : Type ℓ where
  ok : A → Result A
  err : CryptoError → Result A

-- The calls of other packages: whether a cipher accepts a key, what it computes, and HKDF.
pub record Primitives : Type 0 where
  pub accepts_key : CryptoAlgorithm → Bytes → Bool
  pub nonce_size : CryptoAlgorithm → ℕ
  pub seal : CryptoAlgorithm → Bytes → Bytes → Bytes → Bytes → Bytes
  pub unseal : CryptoAlgorithm → Bytes → Bytes → Bytes → Bytes → Option Bytes
  pub cbc_encrypt : Bytes → Bytes → Bytes → Bytes
  pub cbc_decrypt : Bytes → Bytes → Bytes → Bytes
  pub xor_key_stream : Bytes → Bytes → Bytes → Option Bytes
  pub xxtea_encrypt : Bytes → Bytes → Option Bytes
  pub xxtea_decrypt : Bytes → Bytes → Option Bytes
  pub hkdf : Bytes → ℕ → Option Bytes

-- `CryptoSession`: a cipher is the algorithm and the key that it was made of. The key pair of the
-- handshake, its kind and the kind of the kdf, which no cipher reads, are left out.
pub record CryptoSession : Type 0 where
  pub algorithm : CryptoAlgorithm
  pub key : Bytes
  pub iv : Bytes
  pub iv_size : ℕ
  pub tag_size : ℕ
  pub aead_cipher : Option (CryptoAlgorithm × Bytes)
  pub block_cipher : Option Bytes
  pub xxtea_key : Option Bytes
  pub nonce_counter : ℕ
  pub initialized : Bool

-- `NewCryptoSession`
abbrev pub new_crypto_session : CryptoSession
new_crypto_session = record {
  algorithm = no_crypto;
  key = [];
  iv = [];
  iv_size = 0;
  tag_size = 0;
  aead_cipher = none;
  block_cipher = none;
  xxtea_key = none;
  nonce_counter = 0;
  initialized = false;
}

abbrev pub is_gcm : CryptoAlgorithm → Bool
is_gcm CryptoAlgorithm.aes_128_gcm = true
is_gcm CryptoAlgorithm.aes_192_gcm = true
is_gcm CryptoAlgorithm.aes_256_gcm = true
is_gcm _ = false

module _ (prims : Primitives) where
  -- `initCipher`, by the family of the session's algorithm, with whether the cipher takes the key
  abbrev pub init_family : CipherFamily → Bool → CryptoSession → Option CryptoError × CryptoSession
  init_family plain_family accepted cs = (none, cs)
  init_family aead_family true cs = (
    none,
    record cs {
      aead_cipher = some (cs.algorithm, cs.key);
      block_cipher = if is_gcm cs.algorithm then some cs.key else none;
    },
  )
  init_family cbc_family true cs = (none, record cs { block_cipher = some cs.key })
  init_family stream_family accepted cs =
      (if length cs.key == 32 then none else some algorithm_not_supported, cs)
  init_family xxtea_family true cs = (none, record cs { xxtea_key = some cs.key })
  init_family _ _ cs = (some algorithm_not_supported, cs)

  abbrev pub init_cipher : CryptoSession → Option CryptoError × CryptoSession
  init_cipher cs =
      init_family (family cs.algorithm) (prims.accepts_key cs.algorithm cs.key)
        (record cs { aead_cipher = none; block_cipher = none; xxtea_key = none })

  abbrev pub mark_initialized :
      Option CryptoError × CryptoSession → Option CryptoError × CryptoSession
  mark_initialized (none, cs) = (none, record cs { initialized = true })
  mark_initialized (some e, cs) = (some e, cs)

  abbrev pub with_key : CryptoAlgorithm → Bytes → Bytes → CryptoSession → CryptoSession
  with_key alg key iv cs = record cs {
    key = key;
    iv = if ltb 0 (length iv) then iv else cs.iv;
    algorithm = alg;
    iv_size = crypto_algorithm_iv_size alg;
    tag_size = crypto_algorithm_tag_size alg;
  }

  -- `SetKey`
  unfoldable pub set_key :
      Bytes → Bytes → CryptoAlgorithm → CryptoSession → Option CryptoError × CryptoSession
  set_key key iv alg cs =
      let expected_iv_size = crypto_algorithm_iv_size alg in
      if is_none_algorithm alg
      then (none, record cs { algorithm = alg; initialized = true })
      else if not (length key == crypto_algorithm_key_size alg)
      then (some invalid_key_size, cs)
      else if not (length iv == expected_iv_size) && ltb 0 expected_iv_size
      then (some invalid_iv_size, cs)
      else mark_initialized (init_cipher (with_key alg key iv cs))

  -- `DeriveKey`, with whether the kdf is HKDF with SHA-256, the only one that there is
  abbrev pub derive_from :
      CryptoAlgorithm → Option Bytes → CryptoSession → Option CryptoError × CryptoSession
  derive_from alg none cs = (some kdf_failed, cs)
  derive_from alg (some material) cs =
      let key_size = crypto_algorithm_key_size alg in
      mark_initialized
        (init_cipher (with_key alg (take key_size material) (drop key_size material) cs))

  unfoldable pub derive_key :
      Bytes → CryptoAlgorithm → Bool → CryptoSession → Option CryptoError × CryptoSession
  derive_key shared_secret alg is_hkdf_sha256 cs =
      let key_size = crypto_algorithm_key_size alg in
      let total_size = key_size + crypto_algorithm_iv_size alg in
      if not is_hkdf_sha256
      then (some kdf_failed, cs)
      else if (key_size == 0) && not (is_none_algorithm alg)
      then (some algorithm_not_supported, cs)
      else if total_size == 0
      then (none, record cs { algorithm = alg; initialized = true })
      else derive_from alg (prims.hkdf shared_secret total_size) cs
