-- ===== src/Decrypt.antt =====
-- src/crypt/decrypt.cc. `Table` is the walk of phase 1, `Chunks` opens chunks, `Buffer` is the whole
-- of DecryptBuffer, `Inspect` is InspectBuffer. `Bounds`, `Records`, `Authentic` and `Verified` are about
-- what a success has checked.
pub mod Table
pub mod Chunks
pub mod Buffer
pub mod Inspect
pub mod Bounds
pub mod Records
pub mod Authentic
pub mod Verified
