-- ===== src/Format/Sizes.antt =====
-- ChunkCountFor and MaxStoredSizeFor of src/crypt/format.cc, ChunkPlainSize of src/crypt/encrypt.cc,
-- and the scrypt working set that ParseFileHeader and ValidateOptions bound.
pub mod Counts
use model_crypt.Common.{ℕ, ◌+◌, ◌-◌, ◌*◌, ◌/◌, ◌%◌, ◌^◌, ltb, leb, ◌==◌, if◌then◌else◌}

-- uint64_t and uint32_t arithmetic wraps; the parser divides only by a checked chunk size.
unfoldable pub chunk_count_for : ℕ → ℕ → ℕ
chunk_count_for plaintext_size chunk_size =
    if plaintext_size == 0
    then 1
    else (plaintext_size + chunk_size + 2 ^ 64 - 1) % 2 ^ 64 / chunk_size % 2 ^ 32

unfoldable pub max_stored_size_for : ℕ → ℕ
max_stored_size_for chunk_size = (chunk_size + chunk_size / 1000 + 64) % 2 ^ 64 % 2 ^ 32

-- Plaintext length of chunk `index`.
unfoldable pub chunk_plain_size : ℕ → ℕ → ℕ → ℕ
chunk_plain_size plaintext_size chunk_size index =
    let offset = index * chunk_size % 2 ^ 64 in
    let remaining = plaintext_size - offset in
    if leb plaintext_size offset
    then 0
    else if ltb remaining chunk_size
    then remaining
    else chunk_size

-- `128ull * (1ull << log_n) * r`
unfoldable pub kdf_memory : ℕ → ℕ → ℕ
kdf_memory log_n r = 128 * 2 ^ log_n * r % 2 ^ 64
