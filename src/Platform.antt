-- ===== src/Platform.antt =====
-- src/crypt/aead.cc, compress.cc, kdf.cc and random.cc over the libraries that they call.
-- `Libraries` is OpenSSL, zlib and the allocator; each other child is one source file; `Services`
-- makes them the operations that src/crypt/encrypt.cc and decrypt.cc use.
pub mod Libraries
pub mod RandomBytes
pub mod Kdf
pub mod Compression
pub mod Aead
pub mod Implementation
