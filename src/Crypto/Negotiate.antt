-- ===== src/Crypto/Negotiate.antt =====
-- `NegotiateCompression`, `NegotiateCryptoAlgorithm`, `NegotiateKeyExchange` and `NegotiateKDF`, on
-- the numbers of the algorithms, and that both sides come to the same choice.
use libatbus_go.Base.{
  ℕ, ◌≡◌, refl, ap, ap₂, ◌∙◌, arith, ◌⊎◌, inl, inr, List, [], ◌∷◌, Bool, true, false, ◌&&◌, ◌||◌,
  Bool-cases,
}
use libatbus_go.Base.{◌==◌, ==_iff, if◌then◌else◌}

abbrev pub offers : List ℕ → ℕ → Bool
offers [] a = false
offers (x ∷ xs) a = (x == a) || offers xs a

-- The loop over the priorities, with the answer where nothing is shared
unfoldable pub first_shared : List ℕ → List ℕ → List ℕ → ℕ → ℕ
first_shared [] local remote default = default
first_shared (a ∷ order) local remote default =
    if offers local a && offers remote a then a else first_shared order local remote default

-- The numbers of the protocol: 0 for none, ZSTD 100, LZ4 200, SNAPPY 300, ZLIB 400
abbrev compression_priority : List ℕ
compression_priority = 100 ∷ 200 ∷ 300 ∷ 400 ∷ 0 ∷ []

unfoldable pub negotiate_compression : List ℕ → List ℕ → ℕ
negotiate_compression local remote = first_shared compression_priority local remote 0

-- XCHACHA20_POLY1305 33, CHACHA20_POLY1305 32, AES with GCM 16, 15 and 14, with CBC 13, 12 and 11,
-- CHACHA20 31, XXTEA 1, none 0
abbrev pub crypto_priority : List ℕ
crypto_priority = 33 ∷ 32 ∷ 16 ∷ 15 ∷ 14 ∷ 13 ∷ 12 ∷ 11 ∷ 31 ∷ 1 ∷ 0 ∷ []

unfoldable pub negotiate_crypto_algorithm : List ℕ → List ℕ → ℕ
negotiate_crypto_algorithm local remote = first_shared crypto_priority local remote 0

unfoldable pub negotiate_key_exchange : ℕ → ℕ → ℕ
negotiate_key_exchange local remote = if local == remote then local else 0

unfoldable pub negotiate_kdf : List ℕ → List ℕ → ℕ
negotiate_kdf local [] = 0
negotiate_kdf local (k ∷ ks) = if offers local k then k else negotiate_kdf local ks

and_comm : (a b : Bool) → (a && b) ≡ (b && a)
and_comm a b = ground arith

first_shared_comm :
    (order local remote : List ℕ) (default : ℕ)
    → first_shared order local remote default ≡ first_shared order remote local default
unfolding first_shared
first_shared_comm [] local remote default = refl
first_shared_comm (a ∷ order) local remote default =
    ap₂ (λ b rest. if b then a else rest) (and_comm (offers local a) (offers remote a))
      (first_shared_comm order local remote default)

pub negotiate_crypto_algorithm_comm :
    (local remote : List ℕ)
    → negotiate_crypto_algorithm local remote ≡ negotiate_crypto_algorithm remote local
unfolding negotiate_crypto_algorithm
negotiate_crypto_algorithm_comm local remote = first_shared_comm crypto_priority local remote 0

-- What is chosen of a list of priorities: it is shared, or the default.
first_shared-offers :
    (order local remote : List ℕ) (default : ℕ)
    → ((offers local (first_shared order local remote default) ≡ true)
        × (offers remote (first_shared order local remote default) ≡ true))
      ⊎ (first_shared order local remote default ≡ default)
unfolding first_shared
first_shared-offers [] local remote default = inr refl
first_shared-offers (a ∷ order) local remote default =
    elim (Bool-cases (offers local a && offers remote a)) [
      | inl e ↦ rw e (inl (ground (arith, e), ground (arith, e)))
      | inr e ↦ rw e (first_shared-offers order local remote default)
    ]

-- A shared algorithm of the list is chosen, or one that comes before it: the choice is the default
-- only where none is shared.
first_shared-some :
    (order local remote : List ℕ) (default a : ℕ)
    → offers order a ≡ true
    → offers local a ≡ true
    → offers remote a ≡ true
    → (offers local (first_shared order local remote default) ≡ true)
      × (offers remote (first_shared order local remote default) ≡ true)
unfolding first_shared
first_shared-some [] local remote default a here hl hr = absurd (ground (arith, here))
first_shared-some (b ∷ bs) local remote default a here hl hr =
    elim (Bool-cases (offers local b && offers remote b)) [
      | inl e ↦ rw e (ground (arith, e), ground (arith, e))
      | inr e ↦ elim (Bool-cases (b == a)) [
        | inl same ↦
            let is = (==_iff b a).0 same in
            absurd (ground (arith, e, ap (offers local) is ∙ hl, ap (offers remote) is ∙ hr))
        | inr other ↦
            rw e (first_shared-some bs local remote default a (ground (arith, here, other)) hl hr)
      ]
    ]

-- Where both sides of a connection offer a cipher `a` that the code knows, they come to the same
-- cipher, compression and key exchange, each with its own list as the local one. The cipher is offered
-- by both; the compression is offered by both, or it is none.
pub negotiate_agrees :
    (local remote local_compression remote_compression : List ℕ) (k l a : ℕ)
    → offers crypto_priority a ≡ true
    → offers local a ≡ true
    → offers remote a ≡ true
    → (negotiate_crypto_algorithm local remote ≡ negotiate_crypto_algorithm remote local)
      × (offers local (negotiate_crypto_algorithm local remote) ≡ true)
      × (offers remote (negotiate_crypto_algorithm local remote) ≡ true)
      × (negotiate_compression local_compression remote_compression
          ≡ negotiate_compression remote_compression local_compression)
      × (((offers local_compression (negotiate_compression local_compression remote_compression)
              ≡ true)
            × (offers remote_compression
                  (negotiate_compression local_compression remote_compression)
                ≡ true))
          ⊎ (negotiate_compression local_compression remote_compression ≡ 0))
      × (negotiate_key_exchange k l ≡ negotiate_key_exchange l k)
unfolding negotiate_compression negotiate_crypto_algorithm negotiate_key_exchange
negotiate_agrees local remote local_compression remote_compression k l a here hl hr =
    let shared = first_shared-some crypto_priority local remote 0 a here hl hr in
    (
      first_shared_comm crypto_priority local remote 0,
      shared.0,
      shared.1,
      first_shared_comm compression_priority local_compression remote_compression 0,
      first_shared-offers compression_priority local_compression remote_compression 0,
      ground arith,
    )
