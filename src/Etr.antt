-- ===== src/Etr.antt =====
-- src/asc_orchestrator/etr.py: the encrypted transport.
pub mod Bytes
pub mod Chacha
pub mod Block
pub mod Stream
pub mod Poly
pub mod Aead
pub mod Total
mod Tests
