-- ===== src/Encrypt/Buffer.antt =====
-- EncryptBuffer of src/crypt/encrypt.cc, on a host whose size_t has 64 bits.
use model_crypt.Common.{ℕ, ◌+◌, ◌-◌, ◌*◌, ◌%◌, ◌^◌, Option, ltb, ◌==◌, if◌then◌else◌, length, not}
use model_crypt.Common.Buffer.{Bytes, slice, memcpy, zeros}
use model_crypt.Common.Result.{too_large, memory}
use model_crypt.Common.World.{Effect, ◌>>=◌, ◌>>◌, done, lift, reject_if}
use model_crypt.Services.{Services}
use model_crypt.Format.Types.{
  FileHeader, format_version_2, kdf_scrypt, aead_aes256_gcm, compress_zlib, header_size,
  chunk_header_size, salt_size, nonce_prefix_size,
}
use model_crypt.Format.Sizes.{chunk_count_for, max_stored_size_for}
use model_crypt.Format.Header.{serialize_file_header}
use model_crypt.Encrypt.Options.{EncryptOptions, memory_at, check_arguments}
use model_crypt.Encrypt.Loop.{Job, seal_chunks}

abbrev pub shrink_threshold : ℕ
shrink_threshold = 2 ^ 20

abbrev pub size_max : ℕ
size_max = 2 ^ 64 - 1

unfoldable pub fill_header : EncryptOptions → ℕ → Bytes → Bytes → FileHeader
fill_header opts in_size salt nonce_prefix = record {
  format_version = format_version_2;
  kdf_id = kdf_scrypt;
  aead_id = aead_aes256_gcm;
  compression_id = opts.compression % 2 ^ 8;
  kdf_log_n = opts.kdf_log_n;
  kdf_r = opts.kdf_r;
  kdf_p = opts.kdf_p;
  salt = salt;
  nonce_prefix = nonce_prefix;
  chunk_size = opts.chunk_size;
  plaintext_size = in_size;
  chunk_count = chunk_count_for in_size opts.chunk_size;
}

-- Every chunk stores raw.
unfoldable pub worst_case_size : FileHeader → ℕ → ℕ
worst_case_size header in_size =
    (header_size + header.chunk_count * chunk_header_size + in_size) % 2 ^ 64

module _ (S : Services) where
  open S use {World, reset, fill, derive_key}

  -- `if (!buffer.Reset(size)) { return MC_ERR_MEMORY; }`
  unfoldable pub allocate : ℕ → Effect World (Unit {0})
  allocate size w = let (there, w') = reset size w in reject_if (not there) memory w'

  -- The copy down to the exact size.
  unfoldable pub shrink : Bytes → ℕ → Effect World Bytes
  unfolding allocate
  shrink file write_offset =
      let copy : Effect World Bytes = do
        allocate write_offset
        done (memcpy (zeros write_offset) 0 (slice file 0 write_offset))
      in if ltb shrink_threshold (length file - write_offset) then copy else done file

  -- From the worst-case allocation to the finished file.
  unfoldable pub write_file : EncryptOptions → Job → Effect World (Bytes × ℕ)
  unfolding allocate shrink
  write_file opts job = do
    let worst_case = worst_case_size job.header job.header.plaintext_size
    reject_if (ltb size_max worst_case) too_large
    allocate worst_case
    let start = memcpy (zeros worst_case) 0 job.serialized
    (if job.want_compression then allocate (max_stored_size_for opts.chunk_size) else done tt)
    (file, write_offset) ← seal_chunks S job job.header.chunk_count 0 start header_size
    exact ← shrink file write_offset
    done (exact, write_offset)

  -- The result is what is stored through `out` and `out_size`: the buffer, and the file's length.
  unfoldable pub encrypt_buffer :
      Option Bytes
      → ℕ
      → EncryptOptions
      → Option Bytes
      → ℕ
      → Option Bytes
      → Option ℕ
      → Effect World (Bytes × ℕ)
  unfolding write_file
  encrypt_buffer key key_size opts input in_size out out_size = do
    lift (check_arguments key key_size opts input in_size out out_size)
    salt ← fill salt_size
    nonce_prefix ← fill nonce_prefix_size
    let header = fill_header opts in_size salt nonce_prefix
    let serialized = serialize_file_header header
    derived ←
        derive_key (slice (memory_at key) 0 key_size) salt header.kdf_log_n header.kdf_r
          header.kdf_p
    write_file opts record {
      header = header;
      serialized = serialized;
      derived = derived;
      want_compression = opts.compression == compress_zlib;
      plain = slice (memory_at input) 0 in_size;
    }
