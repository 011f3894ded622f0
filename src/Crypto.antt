-- ===== src/Crypto.antt =====
-- im/crypto: end-to-end encryption of message bodies.
pub mod Primitives
pub mod Envelope
pub mod Keyring
pub mod Toy
pub mod Tests
