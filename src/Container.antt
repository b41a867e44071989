-- ===== src/Container.antt =====
-- The `.mcrypt` file as a whole, across src/crypt/encrypt.cc and src/crypt/decrypt.cc: what the
-- writer's loop leaves behind, and how the reader takes it apart.
pub mod Sealed
pub mod Written
pub mod Opens
pub mod Walked
pub mod Opened
pub mod Produced
pub mod Encrypted
pub mod Accepted
pub mod RoundTrip
pub mod Returns
pub mod Succeeds
pub mod Inspected
pub mod Truncated
