-- ===== src/Encrypt/Loop.antt =====
-- One round of the loop of EncryptBuffer in src/crypt/encrypt.cc, and the loop.
use model_crypt.Common.{
  ℕ, zero, suc, ◌+◌, ◌*◌, ◌%◌, ◌^◌, Bool, ◌&&◌, ltb, if◌then◌else◌, length, bit_or,
}
use model_crypt.Common.Buffer.{Bytes, slice, memcpy}
use model_crypt.Common.Result.{memory}
use model_crypt.Common.World.{Effect, ◌>>=◌, ◌>>◌, done, reject_if}
use model_crypt.Services.{Services}
use model_crypt.Format.Types.{
  FileHeader, ChunkHeader, initial_chunk, chunk_header_size, chunk_flag_compressed,
}
use model_crypt.Format.Sizes.{max_stored_size_for, chunk_plain_size}
use model_crypt.Format.Record.{serialize_chunk_header, build_aad, build_nonce}

-- What is fixed before the first chunk: the header and its bytes, the derived key, whether to
-- compress, and the memory at `in`.
pub record Job : Type 0 where
  pub header : FileHeader
  pub serialized : Bytes
  pub derived : Bytes
  pub want_compression : Bool
  pub plain : Bytes

-- The record and the payload of a chunk, before the seal.
raw_chunk : Bytes → ℕ → ChunkHeader × Bytes
raw_chunk plain plain_size = (record initial_chunk { stored_size = plain_size % 2 ^ 32 }, plain)

module _ (S : Services) (job : Job) where
  open S use {World, seal, compress_chunk}

  unfoldable pub choose_payload : Bytes → ℕ → Effect World (ChunkHeader × Bytes)
  unfolding raw_chunk
  choose_payload plain plain_size =
      let compressed : Effect World (ChunkHeader × Bytes) = do
        (stream, smaller) ← compress_chunk plain (max_stored_size_for job.header.chunk_size)
        done (
            if smaller
            then (
              record {
                stored_size = length stream % 2 ^ 32;
                flags = bit_or initial_chunk.flags chunk_flag_compressed;
              },
              stream,
            )
            else raw_chunk plain plain_size)
      in if job.want_compression && ltb 0 plain_size
        then compressed
        else done (raw_chunk plain plain_size)

  -- The round for chunk `index`, from the file buffer and the write offset to the next ones.
  unfoldable pub seal_chunk : ℕ → Bytes → ℕ → Effect World (Bytes × ℕ)
  seal_chunk index file write_offset = do
    let plain_size = chunk_plain_size job.header.plaintext_size job.header.chunk_size index
    let plain = slice job.plain (index * job.header.chunk_size % 2 ^ 64) plain_size
    (chunk, payload) ← choose_payload plain plain_size
    let next_offset = (write_offset + chunk_header_size + chunk.stored_size) % 2 ^ 64
    reject_if (ltb (length file) next_offset) memory
    let aad = build_aad job.serialized index chunk
    let nonce = build_nonce job.header.nonce_prefix index
    (ct, tag) ← seal job.derived nonce aad (slice payload 0 chunk.stored_size)
    let with_text = memcpy file (write_offset + chunk_header_size) ct
    let with_record = memcpy with_text write_offset (serialize_chunk_header chunk tag)
    done (with_record, next_offset)

  -- The loop, by the rounds left.
  unfoldable pub seal_chunks : ℕ → ℕ → Bytes → ℕ → Effect World (Bytes × ℕ)
  seal_chunks zero index file write_offset = done (file, write_offset)
  seal_chunks (suc rounds) index file write_offset = do
    (file', write_offset') ← seal_chunk index file write_offset
    seal_chunks rounds (index + 1) file' write_offset'
