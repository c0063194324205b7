-- ===== src/Crypto/Handshake.antt =====
-- `ConnectionContext`: the handshake that gives both sides their keys. The curves are calls of Go's
-- `crypto/ecdh`, and are parameters; the private key that is generated is an argument. The time of the
-- handshake and the compression are left out.
use libatbus_go.Base.{
  ℕ, ◌+◌, ◌%◌, ◌^◌, List, [], ◌∷◌, Option, none, some, Bool, true, false, not, ◌&&◌, ◌||◌,
}
use libatbus_go.Base.{◌==◌, leb, if◌then◌else◌}
use libatbus_go.Crypto.Algorithm.{CryptoAlgorithm}
use libatbus_go.Crypto.Session.{
  Bytes, CryptoError, Primitives, CryptoSession, new_crypto_session, set_key, derive_key,
}
use libatbus_go.Crypto.Negotiate.{negotiate_crypto_algorithm, negotiate_kdf}

-- The algorithm of a number of the protocol
unfoldable pub algorithm_of : ℕ → CryptoAlgorithm
algorithm_of n =
    if n == 0
    then CryptoAlgorithm.no_crypto
    else if n == 1
    then CryptoAlgorithm.xxtea
    else if n == 11
    then CryptoAlgorithm.aes_128_cbc
    else if n == 12
    then CryptoAlgorithm.aes_192_cbc
    else if n == 13
    then CryptoAlgorithm.aes_256_cbc
    else if n == 14
    then CryptoAlgorithm.aes_128_gcm
    else if n == 15
    then CryptoAlgorithm.aes_192_gcm
    else if n == 16
    then CryptoAlgorithm.aes_256_gcm
    else if n == 31
    then CryptoAlgorithm.chacha20
    else if n == 32
    then CryptoAlgorithm.chacha20_poly1305
    else if n == 33
    then CryptoAlgorithm.xchacha20_poly1305
    else CryptoAlgorithm.other_crypto n

-- The public key of a private key, and the secret shared with a peer's public key; none is an error.
pub record Curves : Type 0 where
  pub public_of : ℕ → Bytes → Bytes
  pub shared_secret : ℕ → Bytes → Bytes → Option Bytes

-- `keyExchangeCurve` is not nil
abbrev pub has_curve : ℕ → Bool
has_curve k = leb 1 k && leb k 4

-- The error codes of the handshake
pub data HandshakeAnswer : Type 0 where
  handshake_ok : HandshakeAnswer
  channel_closing : HandshakeAnswer
  bad_params : HandshakeAnswer
  make_key_pair_failed : HandshakeAnswer
  read_peer_key_failed : HandshakeAnswer
  make_secret_failed : HandshakeAnswer
  kdf_error : HandshakeAnswer

-- The protocol's `CryptoHandshakeData`
pub record PeerKey : Type 0 where
  pub peer_sequence : ℕ
  pub peer_key_exchange : ℕ
  pub peer_kdf_types : List ℕ
  pub peer_algorithms : List ℕ
  pub public_key : Bytes

-- `ConnectionContext`: a key pair is its curve and its private key.
pub record ConnectionContext : Type 0 where
  pub read_crypto : CryptoSession
  pub write_crypto : CryptoSession
  pub handshake_crypto : CryptoSession
  pub key_pair : Option (ℕ × Bytes)
  pub handshake_receive_crypto : Option CryptoSession
  pub sequence : ℕ
  pub is_closing : Bool
  pub handshake_done : Bool
  pub handshake_pending_confirm : Bool
  pub handshake_sequence : ℕ
  pub supported_crypto_algorithms : List ℕ
  pub supported_key_exchange : ℕ
  pub supported_kdf_types : List ℕ

-- `NewConnectionContext`
abbrev pub new_connection_context : ℕ → ConnectionContext
new_connection_context key_exchange = record {
  read_crypto = new_crypto_session;
  write_crypto = new_crypto_session;
  handshake_crypto = new_crypto_session;
  key_pair = none;
  handshake_receive_crypto = none;
  sequence = 0;
  is_closing = false;
  handshake_done = false;
  handshake_pending_confirm = false;
  handshake_sequence = 0;
  supported_crypto_algorithms = 16 ∷ 14 ∷ 32 ∷ 33 ∷ 13 ∷ 11 ∷ 31 ∷ 1 ∷ 0 ∷ [];
  supported_key_exchange = key_exchange;
  supported_kdf_types = 0 ∷ [];
}

-- `SetClosing`, `SetSupportedCryptoAlgorithms`, `SetSupportedKeyExchange`
abbrev pub set_closing : Bool → ConnectionContext → ConnectionContext
set_closing closing ctx = record ctx { is_closing = closing }

abbrev pub set_supported_crypto_algorithms : List ℕ → ConnectionContext → ConnectionContext
set_supported_crypto_algorithms algorithms ctx = record ctx {
  supported_crypto_algorithms = algorithms;
}

abbrev pub set_supported_key_exchange : ℕ → ConnectionContext → ConnectionContext
set_supported_key_exchange k ctx = record ctx { supported_key_exchange = k }

-- `GetNextSequence`
abbrev pub get_next_sequence : ConnectionContext → ℕ × ConnectionContext
get_next_sequence ctx = let n = (ctx.sequence + 1) % 2 ^ 64 in (n, record ctx { sequence = n })

-- `HandshakeGenerateSelfKey`, with the private key, none where there is no randomness for it
abbrev pub start_sequence : ℕ → ConnectionContext → ConnectionContext
start_sequence peer_sequence ctx =
    let n = (ctx.sequence + 1) % 2 ^ 64 in
    if peer_sequence == 0
    then record ctx { sequence = n; handshake_sequence = n }
    else record ctx { handshake_sequence = peer_sequence }

abbrev pub generate_key_pair :
    Option Bytes → ConnectionContext → HandshakeAnswer × ConnectionContext
generate_key_pair none ctx = (make_key_pair_failed, ctx)
generate_key_pair (some private_key) ctx =
    if has_curve ctx.supported_key_exchange
    then (handshake_ok, record ctx { key_pair = some (ctx.supported_key_exchange, private_key) })
    else (make_key_pair_failed, ctx)

unfoldable pub handshake_generate_self_key :
    Option Bytes → ℕ → ConnectionContext → HandshakeAnswer × ConnectionContext
handshake_generate_self_key private_key peer_sequence ctx =
    if ctx.is_closing
    then (channel_closing, ctx)
    else generate_key_pair private_key (start_sequence peer_sequence ctx)

-- `HandshakeWriteSelfPublicKey`: the answer none is an error.
unfoldable pub handshake_write_self_public_key :
    Curves → List ℕ → ConnectionContext → Option PeerKey
handshake_write_self_public_key curves algorithms ctx =
    if ctx.is_closing then none else elim ctx.key_pair [
      | none ↦ none
      | some (k, private_key) ↦ some record {
        peer_sequence = ctx.handshake_sequence;
        peer_key_exchange = ctx.supported_key_exchange;
        peer_kdf_types = ctx.supported_kdf_types;
        peer_algorithms = algorithms;
        public_key = curves.public_of k private_key;
      }
    ]

-- `ComputeSharedSecret`
abbrev pub compute_shared_secret : Curves → Bytes → Option (ℕ × Bytes) → Option Bytes
compute_shared_secret curves peer none = none
compute_shared_secret curves peer (some (k, private_key)) =
    if has_curve k then curves.shared_secret k private_key peer else none

module _ (prims : Primitives) (curves : Curves) where
  -- The end of `HandshakeReadPeerKey`: the session for what is received, staged or at once, after the
  -- answer of `SetKey`
  abbrev pub received :
      Bool
      → Option CryptoError × CryptoSession
      → ConnectionContext
      → HandshakeAnswer × ConnectionContext
  received true (none, session) ctx = (
    handshake_ok,
    record ctx { handshake_receive_crypto = some session; handshake_pending_confirm = true },
  )
  received true (some e, session) ctx =
      (make_secret_failed, record ctx { handshake_receive_crypto = none })
  received false (none, session) ctx =
      (handshake_ok, record ctx { read_crypto = session; handshake_done = true })
  received false (some e, session) ctx = (make_secret_failed, record ctx { read_crypto = session })

  -- The session that `SetKey` is called on
  abbrev pub receiver_of : Bool → ConnectionContext → CryptoSession
  receiver_of true ctx = new_crypto_session
  receiver_of false ctx = ctx.read_crypto

  abbrev pub key_again :
      CryptoAlgorithm → ConnectionContext → CryptoSession → Option CryptoError × CryptoSession
  key_again alg ctx session =
      set_key prims ctx.handshake_crypto.key ctx.handshake_crypto.iv alg session

  -- After the answer of `SetKey` on the session for what is sent, and after that of `DeriveKey`
  abbrev pub written :
      Bool
      → CryptoAlgorithm
      → Option CryptoError × CryptoSession
      → ConnectionContext
      → HandshakeAnswer × ConnectionContext
  written need_confirm alg (none, session) ctx =
      received need_confirm (key_again alg ctx (receiver_of need_confirm ctx))
        (record ctx { write_crypto = session })
  written need_confirm alg (some e, session) ctx =
      (make_secret_failed, record ctx { write_crypto = session })

  abbrev pub derived :
      Bool
      → CryptoAlgorithm
      → Option CryptoError × CryptoSession
      → ConnectionContext
      → HandshakeAnswer × ConnectionContext
  derived need_confirm alg (none, session) ctx =
      let next : ConnectionContext = record ctx { handshake_crypto = session } in
      written need_confirm alg (key_again alg next next.write_crypto) next
  derived need_confirm alg (some e, session) ctx =
      (kdf_error, record ctx { handshake_crypto = session })

  abbrev pub with_secret :
      Bool
      → CryptoAlgorithm
      → ℕ
      → Option Bytes
      → ConnectionContext
      → HandshakeAnswer × ConnectionContext
  with_secret need_confirm alg kdf none ctx = (make_secret_failed, ctx)
  with_secret need_confirm alg kdf (some secret) ctx =
      derived need_confirm alg (derive_key prims secret alg (kdf == 0) ctx.handshake_crypto) ctx

  -- `HandshakeReadPeerKey`, of a peer's data that is not nil
  unfoldable pub handshake_read_peer_key :
      PeerKey → List ℕ → Bool → ConnectionContext → HandshakeAnswer × ConnectionContext
  handshake_read_peer_key peer supported need_confirm ctx =
      let alg = algorithm_of (negotiate_crypto_algorithm supported peer.peer_algorithms) in
      let kdf = negotiate_kdf ctx.supported_kdf_types peer.peer_kdf_types in
      let rest =
        with_secret need_confirm alg kdf (compute_shared_secret curves peer.public_key ctx.key_pair)
          ctx in
      if ctx.is_closing
      then (channel_closing, ctx)
      else if not (peer.peer_key_exchange == ctx.supported_key_exchange)
      then (read_peer_key_failed, ctx)
      else rest

  -- `SetupCryptoWithKey`
  unfoldable pub setup_crypto_with_key :
      CryptoAlgorithm → Bytes → Bytes → ConnectionContext → HandshakeAnswer × ConnectionContext
  setup_crypto_with_key alg key iv ctx =
      let (e, read) = set_key prims key iv alg ctx.read_crypto in
      let (f, write) = set_key prims key iv alg ctx.write_crypto in
      if ctx.is_closing then (channel_closing, ctx) else elim e [
        | some x ↦ (make_secret_failed, record ctx { read_crypto = read })
        | none ↦ elim f [
          | some x ↦ (make_secret_failed, record ctx { read_crypto = read; write_crypto = write })
          | none ↦ (
            handshake_ok,
            record ctx { read_crypto = read; write_crypto = write; handshake_done = true },
          )
        ]
      ]

-- `ConfirmHandshake`: where a confirm is pending, there is a staged session.
unfoldable pub confirm_handshake : ℕ → ConnectionContext → ConnectionContext
confirm_handshake sequence ctx = elim ctx.handshake_receive_crypto [
  | none ↦ ctx
  | some staged ↦
      if not (ctx.handshake_sequence == sequence) || not ctx.handshake_pending_confirm
      then ctx
      else record ctx {
        read_crypto = staged;
        handshake_receive_crypto = none;
        handshake_pending_confirm = false;
        handshake_done = true;
      }
]
