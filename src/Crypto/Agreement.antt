-- ===== src/Crypto/Agreement.antt =====
-- After a handshake both sides have the same keys, and understand each other.
use libatbus_go.Base.{
  ℕ, ◌≡◌, refl, sym, ap, ap₂, ◌∙◌, subst, List, [], ◌∷◌, none, some, Bool, true, false,
}
use libatbus_go.Base.{==-refl, take, drop, ◌+◌}
use libatbus_go.Crypto.Algorithm.{
  CryptoAlgorithm, crypto_algorithm_key_size, crypto_algorithm_iv_size, family,
}
use libatbus_go.Crypto.Session.{
  ok, Bytes, Primitives, CryptoSession, new_crypto_session, set_key, derive_key,
}
use libatbus_go.Crypto.Negotiate.{
  negotiate_crypto_algorithm, negotiate_kdf, negotiate_crypto_algorithm_comm,
}
use libatbus_go.Crypto.Cipher.{encrypt, decrypt}
use libatbus_go.Crypto.Back.{Sound}
use libatbus_go.Crypto.RoundTrip.{gives_back, Given}
use libatbus_go.Crypto.Derive.{derive_key_lem}
use libatbus_go.Crypto.Handshake.{
  handshake_ok, Curves, has_curve, HandshakeAnswer, PeerKey, ConnectionContext,
  new_connection_context, start_sequence, generate_key_pair, handshake_generate_self_key,
  handshake_write_self_public_key, written, derived, received, with_secret, handshake_read_peer_key,
  confirm_handshake, algorithm_of,
}

-- The cipher that the handshake chooses
abbrev pub chosen : List ℕ → List ℕ → CryptoAlgorithm
chosen local remote = algorithm_of (negotiate_crypto_algorithm local remote)

module _ (prims : Primitives) (curves : Curves) where
  -- What `c` encrypts `s` decrypts.
  abbrev pub Talks : Bytes → Bytes → ConnectionContext → ConnectionContext → Type 0
  Talks random text c s =
      (sent : Bytes) × ((encrypt prims (some random) text c.write_crypto).0 ≡ ok sent)
      × (decrypt prims sent s.read_crypto ≡ ok text)

  -- Both sides answer success; and after the confirmation at the second side, the session that each
  -- sends with is the one that the other receives with, and what each encrypts the other decrypts.
  abbrev pub Agreed :
      Bytes
      → Bytes
      → HandshakeAnswer × ConnectionContext
      → HandshakeAnswer × ConnectionContext
      → Type 0
  Agreed random text c s =
      let s' = confirm_handshake (c.1).handshake_sequence (s.1) in
      (c.0 ≡ handshake_ok)
      × (s.0 ≡ handshake_ok)
      × ((c.1).write_crypto ≡ s'.read_crypto)
      × (s'.write_crypto ≡ (c.1).read_crypto)
      × Talks random text (c.1) s'
      × Talks random text s' (c.1)

  -- A new context after `HandshakeGenerateSelfKey`
  abbrev keyed_context : ℕ → ℕ → ℕ → Bytes → ConnectionContext
  keyed_context k used sequence private_key = record {
    read_crypto = new_crypto_session;
    write_crypto = new_crypto_session;
    handshake_crypto = new_crypto_session;
    key_pair = some (k, private_key);
    handshake_receive_crypto = none;
    sequence = used;
    is_closing = false;
    handshake_done = false;
    handshake_pending_confirm = false;
    handshake_sequence = sequence;
    supported_crypto_algorithms = (new_connection_context k).supported_crypto_algorithms;
    supported_key_exchange = k;
    supported_kdf_types = 0 ∷ [];
  }

  -- One side, where the derived session is `h`, and its key and IV give the same session again
  side :
      (need_confirm : Bool) (alg : CryptoAlgorithm) (k used n : ℕ) (a secret : Bytes)
      (h : CryptoSession)
      → derive_key prims secret alg true new_crypto_session ≡ (none, h)
      → set_key prims h.key h.iv alg new_crypto_session ≡ (none, h)
      → with_secret prims curves need_confirm alg 0 (some secret) (keyed_context k used n a)
        ≡ received prims curves need_confirm
            (none, h)
            (record (keyed_context k used n a) { handshake_crypto = h; write_crypto = h })
  side true alg k used n a secret h derives again =
      let ctx = keyed_context k used n a in
      ap (λ d. derived prims curves true alg d ctx) derives
      ∙ ap (λ w. written prims curves true alg w (record ctx { handshake_crypto = h })) again
      ∙ ap
          (λ r.
            received prims curves true r (record ctx { handshake_crypto = h; write_crypto = h }))
          again
  side false alg k used n a secret h derives again =
      let ctx = keyed_context k used n a in
      ap (λ d. derived prims curves false alg d ctx) derives
      ∙ ap (λ w. written prims curves false alg w (record ctx { handshake_crypto = h })) again
      ∙ ap
          (λ r.
            received prims curves false r (record ctx { handshake_crypto = h; write_crypto = h }))
          again

  settled :
      (alg : CryptoAlgorithm) (k n : ℕ) (a b secret random text : Bytes) (h : CryptoSession)
      → derive_key prims secret alg true new_crypto_session ≡ (none, h)
      → set_key prims h.key h.iv alg new_crypto_session ≡ (none, h)
      → ((sent : Bytes) × ((encrypt prims (some random) text h).0 ≡ ok sent)
          × (decrypt prims sent h ≡ ok text))
      → Agreed random text
          (with_secret prims curves false alg 0 (some secret) (keyed_context k 1 n a))
          (with_secret prims curves true alg 0 (some secret) (keyed_context k 0 n b))
  unfolding confirm_handshake
  settled alg k n a b secret random text h derives again talk =
      subst
        (λ c.
          Agreed random text c
            (with_secret prims curves true alg 0 (some secret) (keyed_context k 0 n b)))
        (sym (side false alg k 1 n a secret h derives again))
        (subst
          (λ s.
            Agreed random text
              (received prims curves false (none, h)
                (record (keyed_context k 1 n a) { handshake_crypto = h; write_crypto = h }))
              s)
          (sym (side true alg k 0 n b secret h derives again))
          (rw (==-refl n) (refl, refl, refl, refl, talk, talk)))

  -- The data that the first side sends, and that the second side sends back.
  abbrev pub sent_key : ℕ → Bytes → List ℕ → PeerKey
  sent_key k private_key algorithms = record {
    peer_sequence = 1;
    peer_key_exchange = k;
    peer_kdf_types = 0 ∷ [];
    peer_algorithms = algorithms;
    public_key = curves.public_of k private_key;
  }

  read-with_secret :
      (k used m : ℕ) (need_confirm : Bool) (a b : Bytes) (local remote : List ℕ)
      → has_curve k ≡ true
      → handshake_read_peer_key prims curves
          (sent_key k b remote)
          local
          need_confirm
          (keyed_context k used m a)
        ≡ with_secret prims curves need_confirm
            (algorithm_of (negotiate_crypto_algorithm local remote))
            (negotiate_kdf (0 ∷ []) (0 ∷ []))
            (curves.shared_secret k a (curves.public_of k b))
            (keyed_context k used m a)
  unfolding handshake_read_peer_key
  read-with_secret k used m need_confirm a b local remote curve = rw (==-refl k, curve) refl

  generated :
      (k peer used m : ℕ) (a : Bytes)
      → has_curve k ≡ true
      → start_sequence peer (new_connection_context k)
        ≡ record (new_connection_context k) { sequence = used; handshake_sequence = m }
      → (handshake_generate_self_key (some a) peer (new_connection_context k)).1
        ≡ keyed_context k used m a
  unfolding handshake_generate_self_key
  generated k peer used m a curve e = ap (λ c. (generate_key_pair (some a) c).1) e ∙ rw curve refl

  abbrev pub Exchanged :
      ℕ
      → Bytes
      → Bytes
      → List ℕ
      → List ℕ
      → Bytes
      → Bytes
      → ConnectionContext
      → ConnectionContext
      → Type 0
  Exchanged k a b local remote random text c s =
      (handshake_write_self_public_key curves local c ≡ some (sent_key k a local))
      × (handshake_write_self_public_key curves remote s ≡ some (sent_key k b remote))
      × Agreed random text
          (handshake_read_peer_key prims curves (sent_key k b remote) local false c)
          (handshake_read_peer_key prims curves (sent_key k a local) remote true s)

  exchanged :
      (k : ℕ) (a b : Bytes) (local remote : List ℕ) (secret random text : Bytes)
      → has_curve k ≡ true
      → curves.shared_secret k a (curves.public_of k b) ≡ some secret
      → curves.shared_secret k b (curves.public_of k a) ≡ some secret
      → Agreed random text
          (with_secret prims curves false
            (algorithm_of (negotiate_crypto_algorithm local remote))
            0
            (some secret)
            (keyed_context k 1 1 a))
          (with_secret prims curves true
            (algorithm_of (negotiate_crypto_algorithm local remote))
            0
            (some secret)
            (keyed_context k 0 1 b))
      → Exchanged k a b local remote random text
          ((handshake_generate_self_key (some a) 0 (new_connection_context k)).1)
          ((handshake_generate_self_key (some b) 1 (new_connection_context k)).1)
  unfolding handshake_write_self_public_key negotiate_kdf
  exchanged k a b local remote secret random text curve at_a at_b agreed =
      let read_c =
        read-with_secret k 1 1 false a b local remote curve
        ∙ ap
            (λ t.
              with_secret prims curves false
                (algorithm_of (negotiate_crypto_algorithm local remote)) 0 t
                (keyed_context k 1 1 a))
            at_a in
      let read_s =
        read-with_secret k 0 1 true b a remote local curve
        ∙ ap₂ (λ n t. with_secret prims curves true (algorithm_of n) 0 t (keyed_context k 0 1 b))
            (negotiate_crypto_algorithm_comm remote local) at_b in
      let own = keyed_context k 1 1 a in
      let other = keyed_context k 0 1 b in
      let alg = algorithm_of (negotiate_crypto_algorithm local remote) in
      subst
        (λ c.
          Exchanged k a b local remote random text c
            (handshake_generate_self_key (some b) 1 (new_connection_context k)).1)
        (sym (generated k 0 1 1 a curve refl))
        (subst (λ s. Exchanged k a b local remote random text own s)
          (sym (generated k 1 0 1 b curve refl))
          (
            refl,
            refl,
            subst
                (λ r.
                  Agreed random text r
                    (handshake_read_peer_key prims curves (sent_key k a local) remote true other))
                (sym read_c)
                (subst
                  (λ r.
                    Agreed random text (with_secret prims curves false alg 0 (some secret) own) r)
                  (sym read_s) agreed),
          ))

module _ (prims : Primitives) (sound : Sound prims) (curves : Curves) where
  -- Two new contexts for the same curve make a key pair each, the second under the number of the
  -- first's handshake, and send each other their public keys. Let both compute the same secret, the
  -- chosen cipher be one that `Decrypt` inverts, and HKDF give a key and an IV of its sizes, a key that
  -- it accepts. Then both read the other's key with success. Once the second side has confirmed the
  -- handshake, the session that each sends with is the one that the other receives with; and what each
  -- encrypts, with as many random bytes as are asked for, the other decrypts to the same text.
  pub handshake_agrees :
      (k : ℕ) (a b : Bytes) (local remote : List ℕ) (secret material random text : Bytes)
      → has_curve k ≡ true
      → curves.shared_secret k a (curves.public_of k b) ≡ some secret
      → curves.shared_secret k b (curves.public_of k a) ≡ some secret
      → gives_back (family (chosen local remote)) ≡ true
      → prims.hkdf secret (
          crypto_algorithm_key_size (chosen local remote)
          + crypto_algorithm_iv_size (chosen local remote))
        ≡ some material
      → Given prims sound
          (chosen local remote)
          (take (crypto_algorithm_key_size (chosen local remote)) material)
          (drop (crypto_algorithm_key_size (chosen local remote)) material)
          random
      → Exchanged prims curves k a b local remote random text
          ((handshake_generate_self_key (some a) 0 (new_connection_context k)).1)
          ((handshake_generate_self_key (some b) 1 (new_connection_context k)).1)
  handshake_agrees k a b local remote secret material random text curve at_a at_b back derives g =
      let alg = chosen local remote in
      let (h, derived, again, talk) =
        derive_key_lem prims sound alg secret material random text back derives g in
      exchanged prims curves k a b local remote secret random text curve at_a at_b
        (settled prims curves alg k 1 a b secret random text h derived again talk)
