-- ===== src/Crypto/Derive.antt =====
-- `DeriveKey` gives a session that works, and that its own key and IV give again.
use libatbus_go.Base.{
  ◌≡◌, ◌<◌, ◌+◌, refl, sym, ap, ap₂, ◌∙◌, arith, [], ◌∷◌, Option, none, some, true, false,
}
use libatbus_go.Base.{◌==◌, ltb, if◌then◌else◌, length, take, drop}
use libatbus_go.Crypto.Algorithm.{
  CryptoAlgorithm, crypto_algorithm_key_size, crypto_algorithm_iv_size, is_none_algorithm,
  CipherFamily, plain_family, aead_family, cbc_family, stream_family, xxtea_family, unknown_family,
  family,
}
use libatbus_go.Crypto.Session.{
  Bytes, ok, CryptoError, Primitives, CryptoSession, new_crypto_session, init_family,
  mark_initialized, with_key, set_key, derive_key,
}
use libatbus_go.Crypto.Cipher.{encrypt, decrypt}
use libatbus_go.Crypto.Back.{Sound}
use libatbus_go.Crypto.RoundTrip.{gives_back, Given, keyed, set_key-keyed, decrypt-encrypt}

module _ (prims : Primitives) where
  -- What keying a session leaves in it
  init_family-key :
      (f : CipherFamily) (cs : CryptoSession)
      → (((init_family prims f true cs).1).key ≡ cs.key)
        × (((init_family prims f true cs).1).iv ≡ cs.iv)
  init_family-key plain_family cs = (refl, refl)
  init_family-key aead_family cs = (refl, refl)
  init_family-key cbc_family cs = (refl, refl)
  init_family-key stream_family cs = (refl, refl)
  init_family-key xxtea_family cs = (refl, refl)
  init_family-key unknown_family cs = (refl, refl)

  mark_initialized-key :
      (p : Option CryptoError × CryptoSession)
      → (((mark_initialized prims p).1).key ≡ (p.1).key)
        × (((mark_initialized prims p).1).iv ≡ (p.1).iv)
  mark_initialized-key (none, cs) = (refl, refl)
  mark_initialized-key (some e, cs) = (refl, refl)

  own_iv : (iv : Bytes) → (if ltb 0 (length iv) then iv else []) ≡ iv
  own_iv [] = refl
  own_iv (x ∷ xs) = ground arith

key_size_pos :
    (alg : CryptoAlgorithm)
    → gives_back (family alg) ≡ true
    → is_none_algorithm alg ≡ false
    → 0 < crypto_algorithm_key_size alg
unfolding crypto_algorithm_key_size
key_size_pos CryptoAlgorithm.no_crypto back known = absurd (ground (arith, known))
key_size_pos CryptoAlgorithm.xxtea back known = absurd (ground (arith, back))
key_size_pos CryptoAlgorithm.aes_128_cbc back known = omega arith
key_size_pos CryptoAlgorithm.aes_192_cbc back known = omega arith
key_size_pos CryptoAlgorithm.aes_256_cbc back known = omega arith
key_size_pos CryptoAlgorithm.aes_128_gcm back known = omega arith
key_size_pos CryptoAlgorithm.aes_192_gcm back known = omega arith
key_size_pos CryptoAlgorithm.aes_256_gcm back known = omega arith
key_size_pos CryptoAlgorithm.chacha20 back known = omega arith
key_size_pos CryptoAlgorithm.chacha20_poly1305 back known = omega arith
key_size_pos CryptoAlgorithm.xchacha20_poly1305 back known = omega arith
key_size_pos (CryptoAlgorithm.other_crypto n) back known = absurd (ground (arith, back))

module _ (prims : Primitives) (sound : Sound prims) where
  -- `DeriveKey` on a new session does what `SetKey` does with the two parts of the material.
  derive_key-set_key :
      (alg : CryptoAlgorithm) (secret material random : Bytes)
      → gives_back (family alg) ≡ true
      → prims.hkdf secret (crypto_algorithm_key_size alg + crypto_algorithm_iv_size alg)
        ≡ some material
      → Given prims sound alg
          (take (crypto_algorithm_key_size alg) material)
          (drop (crypto_algorithm_key_size alg) material)
          random
      → derive_key prims secret alg true new_crypto_session
        ≡ set_key prims
            (take (crypto_algorithm_key_size alg) material)
            (drop (crypto_algorithm_key_size alg) material)
            alg
            new_crypto_session
  unfolding derive_key
  derive_key-set_key alg secret material random back derives g =
      let n = crypto_algorithm_key_size alg in
      let pos = key_size_pos alg back g.known in
      let some_key : (n == 0) ≡ false = ground arith in
      let some_bytes : (n + crypto_algorithm_iv_size alg == 0) ≡ false = ground arith in
      rw (some_key, some_bytes, derives, g.accepted) refl
      ∙ sym (
          set_key-keyed prims sound (family alg) alg (take n material) (drop n material) random
            new_crypto_session g refl)

  abbrev whole : CryptoAlgorithm → Bytes → Bytes → CryptoSession
  whole alg key iv = record (with_key prims alg key iv new_crypto_session) {
    aead_cipher = none;
    block_cipher = none;
    xxtea_key = none;
  }

  keyed-key :
      (f : CipherFamily) (alg : CryptoAlgorithm) (key iv : Bytes)
      → (((keyed prims sound f alg key iv new_crypto_session).1).key ≡ key)
        × (((keyed prims sound f alg key iv new_crypto_session).1).iv ≡ iv)
  keyed-key f alg key iv =
      let family_of = init_family-key prims f (whole alg key iv) in
      let mark = mark_initialized-key prims (init_family prims f true (whole alg key iv)) in
      (mark.0 ∙ family_of.0, mark.1 ∙ family_of.1 ∙ own_iv prims iv)

  pub derive_key_lem :
      (alg : CryptoAlgorithm) (secret material random text : Bytes)
      → gives_back (family alg) ≡ true
      → prims.hkdf secret (crypto_algorithm_key_size alg + crypto_algorithm_iv_size alg)
        ≡ some material
      → Given prims sound alg
          (take (crypto_algorithm_key_size alg) material)
          (drop (crypto_algorithm_key_size alg) material)
          random
      → (h : CryptoSession) × (derive_key prims secret alg true new_crypto_session ≡ (none, h))
        × (set_key prims h.key h.iv alg new_crypto_session ≡ (none, h))
        × ((sent : Bytes) × ((encrypt prims (some random) text h).0 ≡ ok sent)
            × (decrypt prims sent h ≡ ok text))
  derive_key_lem alg secret material random text back derives g =
      let n = crypto_algorithm_key_size alg in
      let key = take n material in
      let iv = drop n material in
      let same = derive_key-set_key alg secret material random back derives g in
      let by_family =
        set_key-keyed prims sound (family alg) alg key iv random new_crypto_session g refl in
      let (has_key, has_iv) = keyed-key (family alg) alg key iv in
      let (works, _, sent, e, d) =
        decrypt-encrypt prims sound alg key iv random text new_crypto_session new_crypto_session
          back g in
      let result = set_key prims key iv alg new_crypto_session in
      let h = result.1 in
      let is : result ≡ (none, h) = ap (λ o. (o, h)) works in
      let is_key : h.key ≡ key = ap (λ p. (p.1).key) by_family ∙ has_key in
      let is_iv : h.iv ≡ iv = ap (λ p. (p.1).iv) by_family ∙ has_iv in
      (
        h,
        same ∙ is,
        ap₂ (λ k v. set_key prims k v alg new_crypto_session) is_key is_iv ∙ is,
        (sent, e, d),
      )
