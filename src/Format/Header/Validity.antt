-- ===== src/Format/Header/Validity.antt =====
-- What ParseFileHeader accepts: the serializations of valid headers, and nothing else.
use model_crypt.Common.{ℕ, ◌^◌, ◌≤◌, ◌≡◌, refl, [], ◌∷◌, arith, length, All, true}
use model_crypt.Common.Buffer.{Bytes, IsByte, slice}
use model_crypt.Common.Result.{ok}
use model_crypt.Format.Types.{FileHeader, magic}
use model_crypt.Format.Endian.{read_u8, read_u16, read_u32, read_u64}
use model_crypt.Format.Sizes.{chunk_count_for, kdf_memory}
use model_crypt.Format.Header.{parse_fields, same_bytes}

-- The ranges that the rest of the pipeline relies on.
pub record IsValid (h : FileHeader) : Type 0 where
  pub version : h.format_version ≡ 2
  pub kdf : h.kdf_id ≡ 1
  pub aead : h.aead_id ≡ 1
  pub compression : h.compression_id ≤ 1
  pub log_n_low : 14 ≤ h.kdf_log_n
  pub log_n_high : h.kdf_log_n ≤ 20
  pub r_low : 1 ≤ h.kdf_r
  pub r_high : h.kdf_r ≤ 32
  pub p_low : 1 ≤ h.kdf_p
  pub p_high : h.kdf_p ≤ 16
  pub memory : kdf_memory h.kdf_log_n h.kdf_r ≤ 2 ^ 30
  pub salted : length h.salt ≡ 16
  pub salt_bytes : All IsByte h.salt
  pub prefixed : length h.nonce_prefix ≡ 8
  pub prefix_bytes : All IsByte h.nonce_prefix
  pub size_low : 2 ^ 12 ≤ h.chunk_size
  pub size_high : h.chunk_size ≤ 2 ^ 26
  pub plaintext : h.plaintext_size ≤ 2 ^ 36
  pub count : h.chunk_count ≡ chunk_count_for h.plaintext_size h.chunk_size

-- `memcmp` finds the same bytes exactly when they are equal.
pub same_bytes_eq : (a b : Bytes) → same_bytes a b ≡ true → a ≡ b
same_bytes_eq [] [] h = refl
same_bytes_eq [] (y ∷ b) h = cc
same_bytes_eq (x ∷ a) [] h = cc
same_bytes_eq (x ∷ a) (y ∷ b) h = ground (arith, same_bytes_eq a b)

pub same_bytes_self : (a : Bytes) → same_bytes a a ≡ true
same_bytes_self [] = refl
same_bytes_self (x ∷ a) = ground (arith, same_bytes_self a)

-- What a successful parse has read and checked.
pub record Accepted (bs : Bytes) (in_size : ℕ) (h : FileHeader) : Type 0 where
  pub enough : 64 ≤ in_size
  pub identity : slice bs 0 8 ≡ magic
  pub version : (h.format_version ≡ read_u16 bs 8) × (h.format_version ≡ 2)
  pub kdf : (h.kdf_id ≡ read_u8 bs 10) × (h.kdf_id ≡ 1)
  pub aead : (h.aead_id ≡ read_u8 bs 11) × (h.aead_id ≡ 1)
  pub compression : (h.compression_id ≡ read_u8 bs 12) × (h.compression_id ≤ 1)
  pub log_n : (h.kdf_log_n ≡ read_u8 bs 13) × (14 ≤ h.kdf_log_n) × (h.kdf_log_n ≤ 20)
  pub r : (h.kdf_r ≡ read_u32 bs 14) × (1 ≤ h.kdf_r) × (h.kdf_r ≤ 32)
  pub p : (h.kdf_p ≡ read_u32 bs 18) × (1 ≤ h.kdf_p) × (h.kdf_p ≤ 16)
  pub memory : kdf_memory h.kdf_log_n h.kdf_r ≤ 2 ^ 30
  pub salt : h.salt ≡ slice bs 22 16
  pub prefix : h.nonce_prefix ≡ slice bs 38 8
  pub size : (h.chunk_size ≡ read_u32 bs 46) × (2 ^ 12 ≤ h.chunk_size) × (h.chunk_size ≤ 2 ^ 26)
  pub plaintext : (h.plaintext_size ≡ read_u64 bs 50) × (h.plaintext_size ≤ 2 ^ 36)
  pub count :
      (h.chunk_count ≡ read_u32 bs 58)
      × (h.chunk_count ≡ chunk_count_for h.plaintext_size h.chunk_size)
  pub reserved : read_u16 bs 62 ≡ 0

pub parse_fields-Accepted :
    (bs : Bytes) (in_size : ℕ) (h : FileHeader)
    → parse_fields bs in_size ≡ ok h
    → Accepted bs in_size h
unfolding parse_fields
parse_fields-Accepted bs in_size h e = ground (arith, same_bytes_eq (slice bs 0 8) magic)

pub parse_fields-ok :
    (bs : Bytes) (in_size : ℕ) (h : FileHeader)
    → Accepted bs in_size h
    → parse_fields bs in_size ≡ ok h
unfolding parse_fields
parse_fields-ok bs in_size h a =
    let same : same_bytes (slice bs 0 8) magic ≡ true = rw a.identity refl in ground arith
