-- ===== src/Encrypt.antt =====
-- src/crypt/encrypt.cc. `Options` is ValidateOptions, `Loop` the loop over the chunks, `Buffer` the
-- whole of EncryptBuffer.
pub mod Options
pub mod Loop
pub mod Buffer
