-- ===== src/Crypto/RoundTrip.antt =====
-- Two sessions that have been given the same key understand each other.
use libatbus_go.Base.{
  ℕ, ◌-◌, ◌≡◌, ◌≤◌, refl, sym, ap, ◌∙◌, subst, arith, Option, none, some, Bool, true, false, length,
}
use libatbus_go.Base.{◌==◌, ==-refl, if◌then◌else◌}
use libatbus_go.Crypto.Algorithm.{
  CryptoAlgorithm, crypto_algorithm_key_size, crypto_algorithm_iv_size, crypto_algorithm_is_aead,
  CipherFamily, aead_family, cbc_family, stream_family, xxtea_family, unknown_family, family,
  is_none_algorithm,
}
use libatbus_go.Crypto.Session.{
  Bytes, CryptoError, ok, Primitives, CryptoSession, set_key, mark_initialized, init_family,
  with_key,
}
use libatbus_go.Crypto.Cipher.{encrypt, decrypt}
use libatbus_go.Crypto.Back.{Sound, aead_session, cbc_session, stream_session}

-- The random bytes that `Encrypt` reads
abbrev pub random_size : CryptoAlgorithm → ℕ
random_size alg =
    if crypto_algorithm_is_aead alg
    then crypto_algorithm_iv_size alg - 8
    else crypto_algorithm_iv_size alg

-- The algorithms of which `Decrypt` takes off all that `Encrypt` adds
abbrev pub gives_back : CipherFamily → Bool
gives_back xxtea_family = false
gives_back unknown_family = false
gives_back _ = true

module _ (prims : Primitives) (sound : Sound prims) where
  set_key_is :
      (alg : CryptoAlgorithm) (key iv : Bytes) (cs : CryptoSession)
      → is_none_algorithm alg ≡ false
      → length key ≡ crypto_algorithm_key_size alg
      → length iv ≡ crypto_algorithm_iv_size alg
      → prims.accepts_key alg key ≡ true
      → set_key prims key iv alg cs
        ≡ mark_initialized prims (
            init_family prims (family alg) true (record (with_key prims alg key iv cs) {
              aead_cipher = none;
              block_cipher = none;
              xxtea_key = none;
            }))
  unfolding set_key
  set_key_is alg key iv cs known key_len iv_len accepted =
      let key_ok : (length key == crypto_algorithm_key_size alg) ≡ true =
        ap (λ n. n == crypto_algorithm_key_size alg) key_len
        ∙ ==-refl (crypto_algorithm_key_size alg) in
      let iv_ok : (length iv == crypto_algorithm_iv_size alg) ≡ true =
        ap (λ n. n == crypto_algorithm_iv_size alg) iv_len
        ∙ ==-refl (crypto_algorithm_iv_size alg) in
      rw (known, key_ok, iv_ok, accepted) refl

  -- Two sessions after `SetKey`, and what one encrypts and the other decrypts
  abbrev pub Answers :
      Bytes
      → Bytes
      → Option CryptoError × CryptoSession
      → Option CryptoError × CryptoSession
      → Type 0
  Answers random text x y =
      (x.0 ≡ none)
      × (y.0 ≡ none)
      × (c : Bytes) × ((encrypt prims (some random) text (x.1)).0 ≡ ok c)
      × (decrypt prims c (y.1) ≡ ok text)

  pub record Given (alg : CryptoAlgorithm) (key iv random : Bytes) : Type 0 where
    pub known : is_none_algorithm alg ≡ false
    pub key_len : length key ≡ crypto_algorithm_key_size alg
    pub iv_len : length iv ≡ crypto_algorithm_iv_size alg
    pub accepted : prims.accepts_key alg key ≡ true
    pub random_len : length random ≡ random_size alg

  to_answers :
      (alg : CryptoAlgorithm) (key iv random text : Bytes) (a b : CryptoSession)
      (x y : Option CryptoError × CryptoSession)
      → set_key prims key iv alg a ≡ x
      → set_key prims key iv alg b ≡ y
      → Answers random text x y
      → Answers random text (set_key prims key iv alg a) (set_key prims key iv alg b)
  to_answers alg key iv random text a b x y ex ey h =
      subst (λ x. Answers random text x (set_key prims key iv alg b)) (sym ex)
        (subst (λ y. Answers random text x y) (sym ey) h)

  abbrev pub keyed :
      CipherFamily
      → CryptoAlgorithm
      → Bytes
      → Bytes
      → CryptoSession
      → Option CryptoError × CryptoSession
  keyed f alg key iv cs = mark_initialized prims (
      init_family prims f true (record (with_key prims alg key iv cs) {
        aead_cipher = none;
        block_cipher = none;
        xxtea_key = none;
      }))

  pub set_key-keyed :
      (f : CipherFamily) (alg : CryptoAlgorithm) (key iv random : Bytes) (cs : CryptoSession)
      → Given alg key iv random
      → family alg ≡ f
      → set_key prims key iv alg cs ≡ keyed f alg key iv cs
  set_key-keyed f alg key iv random cs g is_f =
      set_key_is alg key iv cs g.known g.key_len g.iv_len g.accepted
      ∙ ap (λ f. keyed f alg key iv cs) is_f

  abbrev pub Works :
      CryptoAlgorithm → Bytes → Bytes → Bytes → Bytes → CryptoSession → CryptoSession → Type 0
  Works alg key iv random text a b =
      Answers random text (set_key prims key iv alg a) (set_key prims key iv alg b)

  set_aead :
      (alg : CryptoAlgorithm) (key iv random text : Bytes) (a b : CryptoSession)
      → Given alg key iv random
      → family alg ≡ aead_family
      → 8 ≤ crypto_algorithm_iv_size alg
      → random_size alg ≡ crypto_algorithm_iv_size alg - 8
      → Works alg key iv random text a b
  set_aead alg key iv random text a b g is_f wide size =
      to_answers alg key iv random text a b (keyed aead_family alg key iv a)
        (keyed aead_family alg key iv b) (set_key-keyed aead_family alg key iv random a g is_f)
        (set_key-keyed aead_family alg key iv random b g is_f)
        (let (c, e, d) =
            aead_session prims sound alg key random text (keyed aead_family alg key iv a).1
              (keyed aead_family alg key iv b).1 is_f
              (record { is_alg = refl; has_key = refl; ready = refl })
              (record { is_alg = refl; has_key = refl; ready = refl }) wide (g.random_len ∙ size)
              refl refl in
          (refl, refl, c, e, d))

  set_cbc :
      (alg : CryptoAlgorithm) (key iv random text : Bytes) (a b : CryptoSession)
      → Given alg key iv random
      → family alg ≡ cbc_family
      → random_size alg ≡ 16
      → Works alg key iv random text a b
  set_cbc alg key iv random text a b g is_f size =
      to_answers alg key iv random text a b (keyed cbc_family alg key iv a)
        (keyed cbc_family alg key iv b) (set_key-keyed cbc_family alg key iv random a g is_f)
        (set_key-keyed cbc_family alg key iv random b g is_f)
        (let (c, e, d) =
            cbc_session prims sound alg key random text (keyed cbc_family alg key iv a).1
              (keyed cbc_family alg key iv b).1 is_f
              (record { is_alg = refl; has_key = refl; ready = refl })
              (record { is_alg = refl; has_key = refl; ready = refl }) (g.random_len ∙ size) refl
              refl in
          (refl, refl, c, e, d))

  abbrev with_stream_key : Bytes → Bytes → CryptoSession → CryptoSession
  with_stream_key key iv cs = record (with_key prims CryptoAlgorithm.chacha20 key iv cs) {
    aead_cipher = none;
    block_cipher = none;
    xxtea_key = none;
    initialized = true;
  }

  stream_ready :
      (key iv : Bytes) (cs : CryptoSession)
      → length key ≡ 32
      → keyed stream_family CryptoAlgorithm.chacha20 key iv cs ≡ (none, with_stream_key key iv cs)
  stream_ready key iv cs long = rw long refl

  set_stream :
      (key iv random text : Bytes) (a b : CryptoSession)
      → Given CryptoAlgorithm.chacha20 key iv random
      → Works CryptoAlgorithm.chacha20 key iv random text a b
  unfolding crypto_algorithm_iv_size crypto_algorithm_key_size
  set_stream key iv random text a b g =
      let alg = CryptoAlgorithm.chacha20 in
      let done_a =
        set_key-keyed stream_family alg key iv random a g refl ∙ stream_ready key iv a g.key_len in
      let done_b =
        set_key-keyed stream_family alg key iv random b g refl ∙ stream_ready key iv b g.key_len in
      let (c, e, d) =
        stream_session prims sound alg key random text (with_stream_key key iv a)
          (with_stream_key key iv b) refl (record { is_alg = refl; has_key = refl; ready = refl })
          (record { is_alg = refl; has_key = refl; ready = refl }) g.random_len g.key_len refl in
      to_answers alg key iv random text a b (none, with_stream_key key iv a)
        (none, with_stream_key key iv b) done_a done_b (refl, refl, c, e, d)

  -- Where the ciphers are inverse to each other, as documented, and the cipher accepts the key: after
  -- `SetKey` with a key and an IV of the right sizes, in two sessions whatever they were, and with as
  -- many random bytes as are asked for, what one session encrypts the other decrypts to the same text,
  -- for every algorithm that encrypts but XXTEA, which keeps its padding.
  pub decrypt-encrypt :
      (alg : CryptoAlgorithm) (key iv random text : Bytes) (a b : CryptoSession)
      → gives_back (family alg) ≡ true
      → Given alg key iv random
      → Works alg key iv random text a b
  unfolding crypto_algorithm_iv_size
  decrypt-encrypt CryptoAlgorithm.no_crypto key iv random text a b back g =
      absurd (ground (arith, g.known))
  decrypt-encrypt CryptoAlgorithm.xxtea key iv random text a b back g =
      absurd (ground (arith, back))
  decrypt-encrypt CryptoAlgorithm.aes_128_cbc key iv random text a b back g =
      set_cbc CryptoAlgorithm.aes_128_cbc key iv random text a b g refl refl
  decrypt-encrypt CryptoAlgorithm.aes_192_cbc key iv random text a b back g =
      set_cbc CryptoAlgorithm.aes_192_cbc key iv random text a b g refl refl
  decrypt-encrypt CryptoAlgorithm.aes_256_cbc key iv random text a b back g =
      set_cbc CryptoAlgorithm.aes_256_cbc key iv random text a b g refl refl
  decrypt-encrypt CryptoAlgorithm.aes_128_gcm key iv random text a b back g =
      set_aead CryptoAlgorithm.aes_128_gcm key iv random text a b g refl (omega arith) refl
  decrypt-encrypt CryptoAlgorithm.aes_192_gcm key iv random text a b back g =
      set_aead CryptoAlgorithm.aes_192_gcm key iv random text a b g refl (omega arith) refl
  decrypt-encrypt CryptoAlgorithm.aes_256_gcm key iv random text a b back g =
      set_aead CryptoAlgorithm.aes_256_gcm key iv random text a b g refl (omega arith) refl
  decrypt-encrypt CryptoAlgorithm.chacha20 key iv random text a b back g =
      set_stream key iv random text a b g
  decrypt-encrypt CryptoAlgorithm.chacha20_poly1305 key iv random text a b back g =
      set_aead CryptoAlgorithm.chacha20_poly1305 key iv random text a b g refl (omega arith) refl
  decrypt-encrypt CryptoAlgorithm.xchacha20_poly1305 key iv random text a b back g =
      set_aead CryptoAlgorithm.xchacha20_poly1305 key iv random text a b g refl (omega arith) refl
  decrypt-encrypt (CryptoAlgorithm.other_crypto n) key iv random text a b back g =
      absurd (ground (arith, back))
