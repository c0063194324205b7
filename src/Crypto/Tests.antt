-- ===== src/Crypto/Tests.antt =====
-- Sessions with ciphers that leave the text as it is.
use libatbus_go.Base.{ℕ, ◌≡◌, refl, [], ◌∷◌, ◌⊎◌, some, true, replicate}
use libatbus_go.Crypto.Algorithm.{
  CryptoAlgorithm, crypto_algorithm_iv_size, crypto_algorithm_key_size,
}
use libatbus_go.Crypto.Session.{Bytes, Primitives, new_crypto_session}
use libatbus_go.Crypto.Back.{Sound}
use libatbus_go.Crypto.RoundTrip.{Works, decrypt-encrypt}
use libatbus_go.Crypto.Negotiate.{
  offers, first_shared, negotiate_crypto_algorithm, negotiate_compression, negotiate_key_exchange,
  negotiate_agrees,
}
use libatbus_go.Base.{◌+◌, length, true}
use libatbus_go.Crypto.Handshake.{
  Curves, new_connection_context, handshake_generate_self_key, algorithm_of,
}
use libatbus_go.Crypto.Agreement.{Exchanged, handshake_agrees}

abbrev bare : Primitives
bare = record {
  accepts_key = λ alg key. true;
  nonce_size = crypto_algorithm_iv_size;
  seal = λ alg key nonce text aad. text;
  unseal = λ alg key nonce text aad. some text;
  cbc_encrypt = λ key iv text. text;
  cbc_decrypt = λ key iv text. text;
  xor_key_stream = λ key iv text. some text;
  xxtea_encrypt = λ key text. some text;
  xxtea_decrypt = λ key text. some text;
  hkdf = λ secret n. some (replicate n 0);
}

bare-Sound : Sound bare
bare-Sound = record {
  unseals = λ alg key nonce text aad. refl;
  nonce_is = λ alg. refl;
  cbc_back = λ key iv text h. refl;
  cbc_length = λ key iv text. refl;
  xor_back = λ key iv text h k. (text, refl, refl);
}

abbrev bytes : ℕ → Bytes
bytes n = replicate n 1

decrypt-encrypt_example :
    Works bare bare-Sound CryptoAlgorithm.aes_128_cbc
      (bytes 16)
      (bytes 16)
      (bytes 16)
      (bytes 5)
      new_crypto_session
      new_crypto_session
unfolding crypto_algorithm_iv_size crypto_algorithm_key_size
decrypt-encrypt_example =
    decrypt-encrypt bare bare-Sound CryptoAlgorithm.aes_128_cbc (bytes 16) (bytes 16) (bytes 16)
      (bytes 5) new_crypto_session new_crypto_session refl
      (record { known = refl; key_len = refl; iv_len = refl; accepted = refl; random_len = refl })

-- One side offers AES-256-GCM and XXTEA, the other XXTEA only.
negotiate_agrees_example :
    (negotiate_crypto_algorithm (16 ∷ 1 ∷ []) (1 ∷ [])
      ≡ negotiate_crypto_algorithm (1 ∷ []) (16 ∷ 1 ∷ []))
    × (offers (16 ∷ 1 ∷ []) (negotiate_crypto_algorithm (16 ∷ 1 ∷ []) (1 ∷ [])) ≡ true)
    × (offers (1 ∷ []) (negotiate_crypto_algorithm (16 ∷ 1 ∷ []) (1 ∷ [])) ≡ true)
    × (negotiate_compression (100 ∷ []) (200 ∷ []) ≡ negotiate_compression (200 ∷ []) (100 ∷ []))
    × (((offers (100 ∷ []) (negotiate_compression (100 ∷ []) (200 ∷ [])) ≡ true)
          × (offers (200 ∷ []) (negotiate_compression (100 ∷ []) (200 ∷ [])) ≡ true))
        ⊎ (negotiate_compression (100 ∷ []) (200 ∷ []) ≡ 0))
    × (negotiate_key_exchange 1 2 ≡ negotiate_key_exchange 2 1)
negotiate_agrees_example =
    negotiate_agrees (16 ∷ 1 ∷ []) (1 ∷ []) (100 ∷ []) (200 ∷ []) 1 2 1 refl refl refl

abbrev toy : Curves
toy = record { public_of = λ k p. p; shared_secret = λ k p q. some ((length p + length q) ∷ []) }

-- One side offers AES-256-GCM and AES-128-CBC, the other AES-128-CBC and AES-256-GCM.
handshake_agrees_example :
    Exchanged bare toy 1
      (bytes 1)
      (bytes 2)
      (16 ∷ 11 ∷ [])
      (11 ∷ 16 ∷ [])
      (bytes 4)
      (bytes 5)
      ((handshake_generate_self_key (some (bytes 1)) 0 (new_connection_context 1)).1)
      ((handshake_generate_self_key (some (bytes 2)) 1 (new_connection_context 1)).1)
unfolding algorithm_of negotiate_crypto_algorithm first_shared crypto_algorithm_iv_size
    crypto_algorithm_key_size
handshake_agrees_example =
    handshake_agrees bare bare-Sound toy 1 (bytes 1) (bytes 2) (16 ∷ 11 ∷ []) (11 ∷ 16 ∷ [])
      (3 ∷ []) (replicate 44 0) (bytes 4) (bytes 5) refl refl refl refl refl
      (record { known = refl; key_len = refl; iv_len = refl; accepted = refl; random_len = refl })
