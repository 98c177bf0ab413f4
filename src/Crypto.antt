-- ===== src/Crypto.antt =====
-- The package crypto: the ID set as a bitfield, certificates over a signature scheme, the
-- signature cache, and the ECDSA and BLS12 schemes.
pub mod Bitfield
pub mod Base
pub mod Cache
pub mod Ecdsa
pub mod Bls12
