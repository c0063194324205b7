-- ===== src/Crypto.antt =====
-- impl/atbus_connection_context.go: the sizes of keys and nonces, the session that encrypts and
-- decrypts, the negotiation of algorithms and the handshake. The ciphers and the curves are calls of
-- Go's crypto packages and of the project's library, and are parameters.
pub mod Algorithm
pub mod Session
pub mod Cipher
pub mod Padding
pub mod Back
pub mod RoundTrip
pub mod Negotiate
pub mod Compression
pub mod Handshake
pub mod Derive
pub mod Agreement
mod Tests
