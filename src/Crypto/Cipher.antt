-- ===== src/Crypto/Cipher.antt =====
-- Encryption and decryption of `CryptoSession`. The random bytes are an argument; that their source
-- fails is an answer of none.
use libatbus_go.Base.{
  ℕ, zero, suc, ◌+◌, ◌-◌, ◌*◌, ◌/◌, ◌%◌, ◌^◌, [], ◌∷◌, ◌++◌, Option, none, some, Bool, true, not,
  ◌&&◌, ◌||◌, length, take, drop, replicate, get_or,
}
use libatbus_go.Base.{◌==◌, ltb, leb, if◌then◌else◌}
use libatbus_go.Crypto.Algorithm.{
  CryptoAlgorithm, crypto_algorithm_is_aead, crypto_algorithm_iv_size, CipherFamily, plain_family,
  aead_family, cbc_family, stream_family, xxtea_family, unknown_family, family,
}
use libatbus_go.Crypto.Session.{
  Bytes, CryptoError, not_initialized, algorithm_not_supported, invalid_iv_size, encrypt_failed,
  decrypt_failed, Result, ok, err, Primitives, CryptoSession,
}

abbrev pub block_size : ℕ
block_size = 16

-- The PKCS#7 padding to a multiple of `n`
abbrev pub padding : ℕ → Bytes → ℕ
padding n xs = n - length xs % n

abbrev pub padded : ℕ → Bytes → Bytes
padded n xs = xs ++ replicate (padding n xs) (padding n xs)

abbrev pub all_are : ℕ → Bytes → Bool
all_are v [] = true
all_are v (x ∷ xs) = (x == v) && all_are v xs

-- The removal of the padding
unfoldable pub strip_padding : Bytes → Result Bytes
strip_padding xs =
    let n = length xs in
    let p = get_or xs (n - 1) 0 in
    if n == 0
    then err decrypt_failed
    else if leb p 0 || ltb block_size p
    then err decrypt_failed
    else if not (all_are p (drop (n - p) xs))
    then err decrypt_failed
    else ok (take (n - p) xs)

-- `binary.LittleEndian.PutUint64`
abbrev pub counter_bytes : ℕ → ℕ → Bytes
counter_bytes zero n = []
counter_bytes (suc k) n = (n % 256) ∷ counter_bytes k (n / 256)

abbrev pub or_failed {ℓ} : {A : Type ℓ} → CryptoError → Option A → Result A
or_failed e none = err e
or_failed e (some a) = ok a

abbrev pub behind : Bytes → Result Bytes → Result Bytes
behind front (ok xs) = ok (front ++ xs)
behind front (err e) = err e

module _ (prims : Primitives) where
  -- `encryptAEAD`, with the random bytes that fill the nonce
  unfoldable pub encrypt_aead : Option Bytes → Bytes → CryptoSession → Result Bytes × CryptoSession
  encrypt_aead random plaintext cs = elim cs.aead_cipher [
    | none ↦ (err not_initialized, cs)
    | some (alg, key) ↦
        let counter = (cs.nonce_counter + 1) % 2 ^ 64 in
        let answer : Result Bytes = elim random [
          | none ↦ err encrypt_failed
          | some r ↦
              let nonce = take (prims.nonce_size alg) (counter_bytes 8 counter ++ r) in
              ok (nonce ++ prims.seal alg key nonce plaintext [])
        ] in
        (answer, record cs { nonce_counter = counter })
  ]

  -- `decryptAEAD`
  unfoldable pub decrypt_aead : Bytes → CryptoSession → Result Bytes
  decrypt_aead ciphertext cs = elim cs.aead_cipher [
    | none ↦ err not_initialized
    | some (alg, key) ↦
        let n = prims.nonce_size alg in
        if ltb (length ciphertext) n
        then err decrypt_failed
        else or_failed decrypt_failed
            (prims.unseal alg key (take n ciphertext) (drop n ciphertext) [])
  ]

  -- `encryptCBCWithIV` and `encryptCBC`, with a random IV
  unfoldable pub encrypt_cbc_with_iv : Bytes → Bytes → CryptoSession → Result Bytes
  encrypt_cbc_with_iv plaintext iv cs = elim cs.block_cipher [
    | none ↦ err not_initialized
    | some key ↦
        if not (length iv == block_size)
        then err invalid_iv_size
        else ok (prims.cbc_encrypt key iv (padded block_size plaintext))
  ]

  unfoldable pub encrypt_cbc : Option Bytes → Bytes → CryptoSession → Result Bytes
  encrypt_cbc random plaintext cs = elim cs.block_cipher [
    | none ↦ err not_initialized
    | some key ↦ elim random [
      | none ↦ err encrypt_failed
      | some iv ↦ ok (iv ++ prims.cbc_encrypt key iv (padded block_size plaintext))
    ]
  ]

  -- `decryptCBCWithIV` and `decryptCBC`
  unfoldable pub decrypt_cbc_with_iv : Bytes → Bytes → CryptoSession → Result Bytes
  decrypt_cbc_with_iv ciphertext iv cs = elim cs.block_cipher [
    | none ↦ err not_initialized
    | some key ↦
        if not (length iv == block_size)
        then err invalid_iv_size
        else if ltb (length ciphertext) block_size
        then err decrypt_failed
        else if not (length ciphertext % block_size == 0)
        then err decrypt_failed
        else strip_padding (prims.cbc_decrypt key iv ciphertext)
  ]

  unfoldable pub decrypt_cbc : Bytes → CryptoSession → Result Bytes
  decrypt_cbc ciphertext cs = elim cs.block_cipher [
    | none ↦ err not_initialized
    | some key ↦
        if ltb (length ciphertext) (block_size * 2)
        then err decrypt_failed
        else if not (length ciphertext % block_size == 0)
        then err decrypt_failed
        else strip_padding
            (prims.cbc_decrypt key (take block_size ciphertext) (drop block_size ciphertext))
  ]

  -- `encryptChaCha20WithIV`, `decryptChaCha20WithIV`, which do the same but for their error
  unfoldable pub chacha20_with_iv : CryptoError → Bytes → Bytes → CryptoSession → Result Bytes
  chacha20_with_iv e text iv cs =
      if not (length iv == 16)
      then err invalid_iv_size
      else or_failed e (prims.xor_key_stream cs.key iv text)

  -- `encryptChaCha20` and `decryptChaCha20`
  unfoldable pub encrypt_chacha20 : Option Bytes → Bytes → CryptoSession → Result Bytes
  encrypt_chacha20 none plaintext cs = err encrypt_failed
  encrypt_chacha20 (some nonce) plaintext cs =
      behind nonce (chacha20_with_iv encrypt_failed plaintext nonce cs)

  unfoldable pub decrypt_chacha20 : Bytes → CryptoSession → Result Bytes
  decrypt_chacha20 ciphertext cs =
      let n = crypto_algorithm_iv_size cs.algorithm in
      if ltb (length ciphertext) n
      then err decrypt_failed
      else chacha20_with_iv decrypt_failed (drop n ciphertext) (take n ciphertext) cs

  -- `encryptXXTEA`, with zeros up to eight bytes, and `decryptXXTEA`, which keeps the padding
  abbrev pub xxtea_padded : Bytes → Bytes
  xxtea_padded xs = padded 4 xs ++ replicate (8 - length (padded 4 xs)) 0

  unfoldable pub encrypt_xxtea : Bytes → CryptoSession → Result Bytes
  encrypt_xxtea plaintext cs = elim cs.xxtea_key [
    | none ↦ err not_initialized
    | some key ↦ or_failed encrypt_failed (prims.xxtea_encrypt key (xxtea_padded plaintext))
  ]

  unfoldable pub decrypt_xxtea : Bytes → CryptoSession → Result Bytes
  decrypt_xxtea ciphertext cs = elim cs.xxtea_key [
    | none ↦ err not_initialized
    | some key ↦ or_failed decrypt_failed (prims.xxtea_decrypt key ciphertext)
  ]

  -- `Encrypt`, by the family of the session's algorithm
  abbrev pub encrypt_by :
      CipherFamily → Option Bytes → Bytes → CryptoSession → Result Bytes × CryptoSession
  encrypt_by plain_family random plaintext cs = (ok plaintext, cs)
  encrypt_by f random [] cs = (ok [], cs)
  encrypt_by aead_family random plaintext cs = encrypt_aead random plaintext cs
  encrypt_by cbc_family random plaintext cs = (encrypt_cbc random plaintext cs, cs)
  encrypt_by stream_family random plaintext cs = (encrypt_chacha20 random plaintext cs, cs)
  encrypt_by xxtea_family random plaintext cs = (encrypt_xxtea plaintext cs, cs)
  encrypt_by unknown_family random plaintext cs = (err algorithm_not_supported, cs)

  unfoldable pub encrypt : Option Bytes → Bytes → CryptoSession → Result Bytes × CryptoSession
  encrypt random plaintext cs =
      if not cs.initialized
      then (err not_initialized, cs)
      else encrypt_by (family cs.algorithm) random plaintext cs

  -- `Decrypt`
  abbrev pub decrypt_by : CipherFamily → Bytes → CryptoSession → Result Bytes
  decrypt_by plain_family ciphertext cs = ok ciphertext
  decrypt_by f [] cs = ok []
  decrypt_by aead_family ciphertext cs = decrypt_aead ciphertext cs
  decrypt_by cbc_family ciphertext cs = decrypt_cbc ciphertext cs
  decrypt_by stream_family ciphertext cs = decrypt_chacha20 ciphertext cs
  decrypt_by xxtea_family ciphertext cs = decrypt_xxtea ciphertext cs
  decrypt_by unknown_family ciphertext cs = err algorithm_not_supported

  unfoldable pub decrypt : Bytes → CryptoSession → Result Bytes
  decrypt ciphertext cs =
      if not cs.initialized
      then err not_initialized
      else decrypt_by (family cs.algorithm) ciphertext cs

  -- `EncryptWithIVAndAAD` and `DecryptWithIVAndAAD`, with what the cipher does as `run`
  abbrev pub with_aead :
      (CryptoAlgorithm → Bytes → Result Bytes) → Bytes → CryptoSession → Result Bytes
  with_aead run iv cs =
      let answer : Result Bytes = elim cs.aead_cipher [
        | none ↦ err not_initialized
        | some (alg, key) ↦
            if not (length iv == prims.nonce_size alg) then err invalid_iv_size else run alg key
      ] in
      if not cs.initialized
      then err not_initialized
      else if not (crypto_algorithm_is_aead cs.algorithm)
      then err algorithm_not_supported
      else answer

  unfoldable pub encrypt_with_iv_and_aad : Bytes → Bytes → Bytes → CryptoSession → Result Bytes
  encrypt_with_iv_and_aad plaintext iv aad cs =
      with_aead (λ alg key. ok (prims.seal alg key iv plaintext aad)) iv cs

  unfoldable pub decrypt_with_iv_and_aad : Bytes → Bytes → Bytes → CryptoSession → Result Bytes
  decrypt_with_iv_and_aad ciphertext iv aad cs =
      with_aead (λ alg key. or_failed decrypt_failed (prims.unseal alg key iv ciphertext aad)) iv cs

  -- `EncryptWithIV` and `DecryptWithIV`
  abbrev pub encrypt_iv_by : CipherFamily → Bytes → Bytes → CryptoSession → Result Bytes
  encrypt_iv_by plain_family plaintext iv cs = ok plaintext
  encrypt_iv_by cbc_family plaintext iv cs = encrypt_cbc_with_iv plaintext iv cs
  encrypt_iv_by stream_family plaintext iv cs = chacha20_with_iv encrypt_failed plaintext iv cs
  encrypt_iv_by xxtea_family plaintext iv cs = encrypt_xxtea plaintext cs
  encrypt_iv_by _ plaintext iv cs = err algorithm_not_supported

  unfoldable pub encrypt_with_iv : Bytes → Bytes → CryptoSession → Result Bytes
  encrypt_with_iv plaintext iv cs =
      if not cs.initialized
      then err not_initialized
      else encrypt_iv_by (family cs.algorithm) plaintext iv cs

  abbrev pub decrypt_iv_by : CipherFamily → Bytes → Bytes → CryptoSession → Result Bytes
  decrypt_iv_by plain_family ciphertext iv cs = ok ciphertext
  decrypt_iv_by cbc_family ciphertext iv cs = decrypt_cbc_with_iv ciphertext iv cs
  decrypt_iv_by stream_family ciphertext iv cs = chacha20_with_iv decrypt_failed ciphertext iv cs
  decrypt_iv_by xxtea_family ciphertext iv cs = decrypt_xxtea ciphertext cs
  decrypt_iv_by _ ciphertext iv cs = err algorithm_not_supported

  unfoldable pub decrypt_with_iv : Bytes → Bytes → CryptoSession → Result Bytes
  decrypt_with_iv ciphertext iv cs =
      if not cs.initialized
      then err not_initialized
      else decrypt_iv_by (family cs.algorithm) ciphertext iv cs
