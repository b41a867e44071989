-- ===== src/Services.antt =====
-- What src/crypt/encrypt.cc and src/crypt/decrypt.cc call: secure_buffer.h, random.h, kdf.h, aead.h
-- and compress.h, over an unknown state of the platform. A null pointer never reaches these calls;
-- buffers carry their sizes.
use model_crypt.Common.{ℕ, ◌<◌, ◌≡◌, Bool, true, length, All}
use model_crypt.Common.Buffer.{Bytes, IsByte}
use model_crypt.Common.Result.{ok}
use model_crypt.Common.World.{Effect}

pub record Services : Type 1 where
  pub World : Type 0
  -- SecureBuffer::Reset(size): whether the zeroed block was allocated.
  pub reset : ℕ → World → Bool × World
  -- random_bytes::Fill: the bytes drawn.
  pub fill : ℕ → Effect World Bytes
  -- kdf::DeriveKey: key, salt, log_n, r, p.
  pub derive_key : Bytes → Bytes → ℕ → ℕ → ℕ → Effect World Bytes
  -- aead::Seal: key, nonce, aad, plaintext; the ciphertext and the tag.
  pub seal : Bytes → Bytes → Bytes → Bytes → Effect World (Bytes × Bytes)
  -- aead::Open: key, nonce, aad, ciphertext, tag.
  pub open_sealed : Bytes → Bytes → Bytes → Bytes → Bytes → Effect World Bytes
  -- compression::CompressChunk: input and capacity; the stream and `smaller`.
  pub compress_chunk : Bytes → ℕ → Effect World (Bytes × Bool)
  -- compression::DecompressChunk: stream and expected size.
  pub decompress_chunk : Bytes → ℕ → Effect World Bytes

-- What a successful call returns.
pub record IsSound (S : Services) : Type 0 where
  pub fill_bytes :
      (n : ℕ) (w : S.World) (bs : Bytes) → (S.fill n w).0 ≡ ok bs → (length bs ≡ n) × All IsByte bs
  pub seal_shape :
      (key nonce aad plain : Bytes) (w : S.World) (ct tag : Bytes)
      → (S.seal key nonce aad plain w).0 ≡ ok (ct, tag)
      → (length ct ≡ length plain) × All IsByte ct × (length tag ≡ 16) × All IsByte tag
  pub compress_shape :
      (plain : Bytes) (capacity : ℕ) (w : S.World) (stream : Bytes)
      → (S.compress_chunk plain capacity w).0 ≡ ok (stream, true)
      → (length stream < length plain) × (0 < length stream)
  pub open_length :
      (key nonce aad ct tag : Bytes) (w : S.World) (plain : Bytes)
      → (S.open_sealed key nonce aad ct tag w).0 ≡ ok plain
      → length plain ≡ length ct
  pub decompress_length :
      (stream : Bytes) (size : ℕ) (w : S.World) (plain : Bytes)
      → (S.decompress_chunk stream size w).0 ≡ ok plain
      → length plain ≡ size

-- The reading half undoes the writing half, and does not run out of memory.
pub record Inverts (S : Services) : Type 0 where
  pub reset_succeeds : (n : ℕ) (w : S.World) → (S.reset n w).0 ≡ true
  pub derive_again :
      (key salt : Bytes) (log_n r p : ℕ) (w : S.World) (derived : Bytes)
      → (S.derive_key key salt log_n r p w).0 ≡ ok derived
      → (v : S.World) → (S.derive_key key salt log_n r p v).0 ≡ ok derived
  pub open-seal :
      (key nonce aad plain : Bytes) (w : S.World) (ct tag : Bytes)
      → (S.seal key nonce aad plain w).0 ≡ ok (ct, tag)
      → (v : S.World) → (S.open_sealed key nonce aad ct tag v).0 ≡ ok plain
  pub decompress-compress :
      (plain : Bytes) (capacity : ℕ) (w : S.World) (stream : Bytes)
      → (S.compress_chunk plain capacity w).0 ≡ ok (stream, true)
      → (v : S.World) → (S.decompress_chunk stream (length plain) v).0 ≡ ok plain
