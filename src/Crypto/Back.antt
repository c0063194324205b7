-- ===== src/Crypto/Back.antt =====
-- What one session encrypts another with the same cipher decrypts, for each kind of cipher.
use libatbus_go.Base.{
  ◌+◌, ◌-◌, ◌%◌, ◌^◌, ◌≡◌, ◌≤◌, refl, sym, ap, ◌∙◌, arith, [], ◌∷◌, ◌++◌, Option, some, true, false,
  length, length-append, length-take, take, drop, take-append_left, drop-append_left,
}
use libatbus_go.Base.{ltb, le→ltb}
use libatbus_go.Crypto.Algorithm.{
  CryptoAlgorithm, crypto_algorithm_iv_size, CipherFamily, aead_family, cbc_family, stream_family,
  family,
}
use libatbus_go.Crypto.Session.{Bytes, ok, Primitives, CryptoSession}
use libatbus_go.Crypto.Cipher.{
  padded, counter_bytes, encrypt_aead, decrypt_aead, encrypt_cbc, decrypt_cbc, chacha20_with_iv,
  encrypt_chacha20, decrypt_chacha20, encrypt_by, encrypt, decrypt_by, decrypt,
}
use libatbus_go.Crypto.Padding.{strip_padding-padded, length-padded, length-padded_pos}

-- What the ciphers are documented to do: the inverse operation brings the text back, CBC keeps the
-- length of whole blocks, and the nonces have the lengths that the constants of the packages say.
pub record Sound (prims : Primitives) : Type 0 where
  pub unseals :
      (alg : CryptoAlgorithm) (key nonce text aad : Bytes)
      → prims.unseal alg key nonce (prims.seal alg key nonce text aad) aad ≡ some text
  pub nonce_is : (alg : CryptoAlgorithm) → prims.nonce_size alg ≡ crypto_algorithm_iv_size alg
  pub cbc_back :
      (key iv text : Bytes)
      → length text % 16 ≡ 0
      → prims.cbc_decrypt key iv (prims.cbc_encrypt key iv text) ≡ text
  pub cbc_length : (key iv text : Bytes) → length (prims.cbc_encrypt key iv text) ≡ length text
  pub xor_back :
      (key iv text : Bytes)
      → length key ≡ 32
      → length iv ≡ 16
      → ((c : Bytes) × (prims.xor_key_stream key iv text ≡ some c)
          × (prims.xor_key_stream key iv c ≡ some text))

-- A session that has the key.
pub record Ready (alg : CryptoAlgorithm) (key : Bytes) (cs : CryptoSession) : Type 0 where
  pub is_alg : cs.algorithm ≡ alg
  pub has_key : cs.key ≡ key
  pub ready : cs.initialized ≡ true

module _ (prims : Primitives) (sound : Sound prims) (alg : CryptoAlgorithm) (key : Bytes) where
  encrypt-Ready :
      (random : Option Bytes) (text : Bytes) (cs : CryptoSession)
      → Ready alg key cs
      → encrypt prims random text cs ≡ encrypt_by prims (family alg) random text cs
  unfolding encrypt
  encrypt-Ready random text cs h =
      let ready = h.ready in let is_alg = h.is_alg in rw (ready, is_alg) refl

  decrypt-Ready :
      (text : Bytes) (cs : CryptoSession)
      → Ready alg key cs
      → decrypt prims text cs ≡ decrypt_by prims (family alg) text cs
  unfolding decrypt
  decrypt-Ready text cs h = rw (h.ready, h.is_alg) refl

  -- A nonce of a counter and some random bytes has its length.
  aead_back :
      (random text : Bytes) (a b : CryptoSession)
      → 8 ≤ crypto_algorithm_iv_size alg
      → length random ≡ crypto_algorithm_iv_size alg - 8
      → a.aead_cipher ≡ some (alg, key)
      → b.aead_cipher ≡ some (alg, key)
      → ((c : Bytes) × ((encrypt_aead prims (some random) text a).0 ≡ ok c)
          × (decrypt_aead prims c b ≡ ok text)
          × (8 ≤ length c))
  unfolding encrypt_aead decrypt_aead
  aead_back random text a b wide long ha hb =
      let counter = (a.nonce_counter + 1) % 2 ^ 64 in
      let n = prims.nonce_size alg in
      let is_n = sound.nonce_is alg in
      let source = counter_bytes 8 counter ++ random in
      let nonce = take n source in
      let sealed = prims.seal alg key nonce text [] in
      let c = nonce ++ sealed in
      let nonce_long : length nonce ≡ n =
        length-take n source
        ∙ omega (arith, length-append (counter_bytes 8 counter) random, long, wide, is_n) in
      let c_long = length-append nonce sealed in
      let enough : ltb (length c) n ≡ false =
        le→ltb (length c) n (omega (arith, c_long, nonce_long)) in
      let front : take n c ≡ nonce = take-append_left n nonce sealed (sym nonce_long) in
      let back : drop n c ≡ sealed = drop-append_left n nonce sealed (sym nonce_long) in
      (
        c,
        rw ha refl,
        rw (hb, enough, front, back, sound.unseals alg key nonce text []) refl,
        omega (arith, c_long, nonce_long, is_n, wide),
      )

  cbc_back_lem :
      (iv text : Bytes) (a b : CryptoSession)
      → length iv ≡ 16
      → a.block_cipher ≡ some key
      → b.block_cipher ≡ some key
      → ((c : Bytes) × (encrypt_cbc prims (some iv) text a ≡ ok c)
          × (decrypt_cbc prims c b ≡ ok text)
          × (8 ≤ length c))
  unfolding encrypt_cbc decrypt_cbc
  cbc_back_lem iv text a b long ha hb =
      let whole = length-padded text in
      let some_block = length-padded_pos text in
      let body = prims.cbc_encrypt key iv (padded 16 text) in
      let same = sound.cbc_length key iv (padded 16 text) in
      let c = iv ++ body in
      let c_long = length-append iv body in
      let enough : ltb (length c) 32 ≡ false =
        le→ltb (length c) 32 (omega (arith, c_long, long, same, some_block)) in
      let blocks : length c % 16 ≡ 0 = omega (arith, c_long, long, same, whole) in
      let front : take 16 c ≡ iv = take-append_left 16 iv body (sym long) in
      let back : drop 16 c ≡ body = drop-append_left 16 iv body (sym long) in
      (
        c,
        rw ha refl,
        rw (hb, enough, blocks, front, back, sound.cbc_back key iv (padded 16 text) whole)
            (strip_padding-padded text),
        omega (arith, c_long, long),
      )

  stream_back :
      (iv text : Bytes) (a b : CryptoSession)
      → length iv ≡ 16
      → length key ≡ 32
      → crypto_algorithm_iv_size alg ≡ 16
      → Ready alg key a
      → Ready alg key b
      → ((c : Bytes) × (encrypt_chacha20 prims (some iv) text a ≡ ok c)
          × (decrypt_chacha20 prims c b ≡ ok text)
          × (8 ≤ length c))
  unfolding encrypt_chacha20 decrypt_chacha20 chacha20_with_iv
  stream_back iv text a b long key_long iv_size ha hb =
      let (body, there, back) = sound.xor_back key iv text key_long long in
      let c = iv ++ body in
      let c_long = length-append iv body in
      let is_16 : crypto_algorithm_iv_size b.algorithm ≡ 16 =
        ap crypto_algorithm_iv_size hb.is_alg ∙ iv_size in
      let enough : ltb (length c) 16 ≡ false = le→ltb (length c) 16 (omega (arith, c_long, long)) in
      let front : take 16 c ≡ iv = take-append_left 16 iv body (sym long) in
      let behind_it : drop 16 c ≡ body = drop-append_left 16 iv body (sym long) in
      (
        c,
        rw (long, ha.has_key, there) refl,
        rw (is_16, enough, front, behind_it, long, hb.has_key, back) refl,
        omega (arith, c_long, long),
      )

  -- `Decrypt` looks at the cipher of the family where the text is not empty.
  decrypt_by-some :
      (c : Bytes) (b : CryptoSession)
      → 8 ≤ length c
      → (decrypt_by prims aead_family c b ≡ decrypt_aead prims c b)
        × (decrypt_by prims cbc_family c b ≡ decrypt_cbc prims c b)
        × (decrypt_by prims stream_family c b ≡ decrypt_chacha20 prims c b)
  decrypt_by-some [] b h = absurd (omega (arith, h))
  decrypt_by-some (x ∷ c) b h = (refl, refl, refl)

  abbrev pub Back : Bytes → Bytes → CryptoSession → CryptoSession → Type 0
  Back random text a b =
      (c : Bytes) × ((encrypt prims (some random) text a).0 ≡ ok c) × (decrypt prims c b ≡ ok text)

  Back-by :
      (f : CipherFamily) (random text : Bytes) (a b : CryptoSession) (c : Bytes)
      → family alg ≡ f
      → Ready alg key a
      → Ready alg key b
      → (encrypt_by prims f (some random) text a).0 ≡ ok c
      → decrypt_by prims f c b ≡ ok text
      → Back random text a b
  Back-by f random text a b c is_f ha hb e d = (
    c,
    ap (λ p. p.0) (encrypt-Ready (some random) text a ha)
        ∙ ap (λ f. (encrypt_by prims f (some random) text a).0) is_f
        ∙ e,
    decrypt-Ready c b hb ∙ ap (λ f. decrypt_by prims f c b) is_f ∙ d,
  )

  pub aead_session :
      (random text : Bytes) (a b : CryptoSession)
      → family alg ≡ aead_family
      → Ready alg key a
      → Ready alg key b
      → 8 ≤ crypto_algorithm_iv_size alg
      → length random ≡ crypto_algorithm_iv_size alg - 8
      → a.aead_cipher ≡ some (alg, key)
      → b.aead_cipher ≡ some (alg, key)
      → Back random text a b
  aead_session random [] a b is_f ha hb wide long ca cb =
      Back-by aead_family random [] a b [] is_f ha hb refl refl
  aead_session random (x ∷ xs) a b is_f ha hb wide long ca cb =
      let (c, e, d, some_bytes) = aead_back random (x ∷ xs) a b wide long ca cb in
      Back-by aead_family random (x ∷ xs) a b c is_f ha hb e
        ((decrypt_by-some c b some_bytes).0 ∙ d)

  pub cbc_session :
      (iv text : Bytes) (a b : CryptoSession)
      → family alg ≡ cbc_family
      → Ready alg key a
      → Ready alg key b
      → length iv ≡ 16
      → a.block_cipher ≡ some key
      → b.block_cipher ≡ some key
      → Back iv text a b
  cbc_session iv [] a b is_f ha hb long ca cb = Back-by cbc_family iv [] a b [] is_f ha hb refl refl
  cbc_session iv (x ∷ xs) a b is_f ha hb long ca cb =
      let (c, e, d, some_bytes) = cbc_back_lem iv (x ∷ xs) a b long ca cb in
      Back-by cbc_family iv (x ∷ xs) a b c is_f ha hb e ((decrypt_by-some c b some_bytes).1 ∙ d)

  pub stream_session :
      (iv text : Bytes) (a b : CryptoSession)
      → family alg ≡ stream_family
      → Ready alg key a
      → Ready alg key b
      → length iv ≡ 16
      → length key ≡ 32
      → crypto_algorithm_iv_size alg ≡ 16
      → Back iv text a b
  stream_session iv [] a b is_f ha hb long key_long size =
      Back-by stream_family iv [] a b [] is_f ha hb refl refl
  stream_session iv (x ∷ xs) a b is_f ha hb long key_long size =
      let (c, e, d, some_bytes) = stream_back iv (x ∷ xs) a b long key_long size ha hb in
      Back-by stream_family iv (x ∷ xs) a b c is_f ha hb e ((decrypt_by-some c b some_bytes).2 ∙ d)
