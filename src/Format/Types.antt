-- ===== src/Format/Types.antt =====
-- The constants and structs of src/crypt/format.h, and mc_status values they mention.
use model_crypt.Common.{ℕ, ◌+◌, ◌*◌, ◌/◌, ◌^◌, [], ◌∷◌}
use model_crypt.Common.Buffer.{Bytes, zeros}

-- MC_FORMAT_VERSION, MC_HEADER_SIZE, MC_MIN_KEY_SIZE, MC_MAX_PLAINTEXT_SIZE
abbrev pub format_version_2 : ℕ
format_version_2 = 2

abbrev pub min_key_size : ℕ
min_key_size = 12

abbrev pub max_plaintext_size : ℕ
max_plaintext_size = 64 * 2 ^ 30

-- MC_COMPRESS_NONE, MC_COMPRESS_ZLIB
abbrev pub compress_none : ℕ
compress_none = 0

abbrev pub compress_zlib : ℕ
compress_zlib = 1

-- "MCRYPT02"
abbrev pub magic : Bytes
magic = b'M' ∷ b'C' ∷ b'R' ∷ b'Y' ∷ b'P' ∷ b'T' ∷ b'0' ∷ b'2' ∷ []

abbrev pub magic_size : ℕ
magic_size = 8

abbrev pub header_size : ℕ
header_size = 64

abbrev pub chunk_header_size : ℕ
chunk_header_size = 24

abbrev pub salt_size : ℕ
salt_size = 16

abbrev pub nonce_prefix_size : ℕ
nonce_prefix_size = 8

abbrev pub nonce_size : ℕ
nonce_size = 12

abbrev pub tag_size : ℕ
tag_size = 16

abbrev pub key_size : ℕ
key_size = 32

abbrev pub aad_size : ℕ
aad_size = header_size + 4 + 4 + 1

abbrev pub kdf_scrypt : ℕ
kdf_scrypt = 1

abbrev pub aead_aes256_gcm : ℕ
aead_aes256_gcm = 1

abbrev pub chunk_flag_compressed : ℕ
chunk_flag_compressed = 1

-- `static_cast<uint8_t>(~kChunkFlagMask)`
abbrev pub chunk_flag_unknown : ℕ
chunk_flag_unknown = 0xfe

abbrev pub default_chunk_size : ℕ
default_chunk_size = 4 * 2 ^ 20

abbrev pub min_chunk_size : ℕ
min_chunk_size = 4 * 2 ^ 10

abbrev pub max_chunk_size : ℕ
max_chunk_size = 64 * 2 ^ 20

abbrev pub default_kdf_log_n : ℕ
default_kdf_log_n = 15

abbrev pub min_kdf_log_n : ℕ
min_kdf_log_n = 14

abbrev pub max_kdf_log_n : ℕ
max_kdf_log_n = 20

abbrev pub default_kdf_r : ℕ
default_kdf_r = 8

abbrev pub min_kdf_r : ℕ
min_kdf_r = 1

abbrev pub max_kdf_r : ℕ
max_kdf_r = 32

abbrev pub default_kdf_p : ℕ
default_kdf_p = 1

abbrev pub min_kdf_p : ℕ
min_kdf_p = 1

abbrev pub max_kdf_p : ℕ
max_kdf_p = 16

abbrev pub max_file_size : ℕ
max_file_size =
    max_plaintext_size + max_plaintext_size / min_chunk_size * chunk_header_size + header_size

abbrev pub max_kdf_memory : ℕ
max_kdf_memory = 2 ^ 30

pub record FileHeader : Type 0 where
  pub format_version : ℕ
  pub kdf_id : ℕ
  pub aead_id : ℕ
  pub compression_id : ℕ
  pub kdf_log_n : ℕ
  pub kdf_r : ℕ
  pub kdf_p : ℕ
  pub salt : Bytes
  pub nonce_prefix : Bytes
  pub chunk_size : ℕ
  pub plaintext_size : ℕ
  pub chunk_count : ℕ

-- `FileHeader header;`: the member initializers.
abbrev pub initial_header : FileHeader
initial_header = record {
  format_version = format_version_2;
  kdf_id = kdf_scrypt;
  aead_id = aead_aes256_gcm;
  compression_id = compress_zlib;
  kdf_log_n = default_kdf_log_n;
  kdf_r = default_kdf_r;
  kdf_p = default_kdf_p;
  salt = zeros salt_size;
  nonce_prefix = zeros nonce_prefix_size;
  chunk_size = default_chunk_size;
  plaintext_size = 0;
  chunk_count = 0;
}

pub record ChunkHeader : Type 0 where
  pub stored_size : ℕ
  pub flags : ℕ

abbrev pub initial_chunk : ChunkHeader
initial_chunk = record { stored_size = 0; flags = 0 }
