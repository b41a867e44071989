-- ===== src/Decrypt/Buffer.antt =====
-- WalkChunkTable and DecryptBuffer of src/crypt/decrypt.cc, on a host whose size_t has 64 bits.
use model_crypt.Common.{
  ℕ, ◌+◌, ◌-◌, ◌*◌, ◌%◌, ◌^◌, Option, some, ◌||◌, List, ltb, ◌/=◌, if◌then◌else◌, get_or,
}
use model_crypt.Common.Buffer.{Bytes, slice, memcpy, zeros}
use model_crypt.Common.Result.{invalid_arg, format, too_large}
use model_crypt.Common.World.{Effect, ◌>>=◌, ◌>>◌, done, lift, reject_if}
use model_crypt.Services.{Services}
use model_crypt.Format.Types.{
  FileHeader, initial_header, header_size, chunk_header_size, min_key_size,
}
use model_crypt.Format.Sizes.{max_stored_size_for}
use model_crypt.Format.Header.{parse_file_header}
use model_crypt.Encrypt.Options.{is_null, memory_at}
use model_crypt.Encrypt.Buffer.{size_max, allocate}
use model_crypt.Decrypt.Table.{
  ChunkEntry, initial_entry, chunk_entry_size, chunk_plain_size, walk_records,
}
use model_crypt.Decrypt.Chunks.{open_chunk, open_chunks}

module _ (S : Services) where
  open S use {World, derive_key}

  -- The table, and the largest compressed size in it.
  unfoldable pub walk_chunk_table : Bytes → ℕ → FileHeader → Effect World (List ChunkEntry × ℕ)
  walk_chunk_table bs in_size header = do
    let max_stored_size = max_stored_size_for header.chunk_size
    let minimum_input = (header_size + header.chunk_count * chunk_header_size) % 2 ^ 64
    reject_if (ltb in_size minimum_input) format
    let table_bytes = header.chunk_count * chunk_entry_size % 2 ^ 64
    reject_if (ltb size_max table_bytes) too_large
    allocate S table_bytes
    (entries, last) ← lift (
        walk_records bs in_size header max_stored_size header.chunk_count 0
          (record { offset = header_size; max_compressed = 0 }))
    reject_if (last.offset /= in_size) format
    done (entries, last.max_compressed)

  -- Phases 2 and 3, after the key is derived.
  unfoldable pub open_file :
      Bytes → FileHeader → Bytes → List ChunkEntry → ℕ → Effect World (Bytes × ℕ)
  open_file bs header derived entries max_compressed = do
    (if ltb 0 max_compressed then allocate S max_compressed else done tt)
    let first_plain_size = chunk_plain_size header.plaintext_size header.chunk_size 0
    allocate S first_plain_size
    first ← open_chunk S derived bs header bs 0 (get_or entries 0 initial_entry) first_plain_size
    reject_if (ltb size_max header.plaintext_size) too_large
    allocate S header.plaintext_size
    let blank = zeros header.plaintext_size
    let start = if ltb 0 first_plain_size then memcpy blank 0 first else blank
    plaintext ← open_chunks S derived bs header bs entries (header.chunk_count - 1) 1 start
    done (plaintext, header.plaintext_size)

  -- The result is what is stored through `out` and `out_size`.
  unfoldable pub decrypt_buffer :
      Option Bytes → ℕ → Option Bytes → ℕ → Option Bytes → Option ℕ → Effect World (Bytes × ℕ)
  decrypt_buffer key key_size input in_size out out_size = do
    reject_if (is_null key || is_null input || is_null out || is_null out_size) invalid_arg
    reject_if (ltb key_size min_key_size) invalid_arg
    header ← lift (parse_file_header input in_size (some initial_header))
    (entries, max_compressed) ← walk_chunk_table (memory_at input) in_size header
    derived ←
        derive_key (slice (memory_at key) 0 key_size) header.salt header.kdf_log_n header.kdf_r
          header.kdf_p
    open_file (memory_at input) header derived entries max_compressed
