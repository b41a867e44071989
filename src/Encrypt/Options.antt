-- ===== src/Encrypt/Options.antt =====
-- mc_encrypt_options and ValidateOptions of src/crypt/encrypt.cc, and the defaults of
-- src/api/c_api.cc.
use model_crypt.Common.{
  Option, some, none, Bool, true, false, [], ℕ, ◌^◌, ◌≤◌, ◌<◌, ◌≡◌, ◌↔◌, arith, ◌&&◌, ◌||◌, ltb,
  ◌/=◌,
}
use model_crypt.Common.Buffer.{Bytes}
use model_crypt.Common.Result.{Result, ok, invalid_arg, too_large, reject_if, ◌>>◌}
use model_crypt.Format.Types.{
  compress_none, compress_zlib, min_chunk_size, max_chunk_size, min_kdf_log_n, max_kdf_log_n,
  min_kdf_r, max_kdf_r, min_kdf_p, max_kdf_p, max_kdf_memory, default_chunk_size, default_kdf_log_n,
  default_kdf_r, default_kdf_p, min_key_size, max_plaintext_size,
}
use model_crypt.Format.Sizes.{kdf_memory}

-- `compression` is the integer that the enum field holds.
pub record EncryptOptions : Type 0 where
  pub compression : ℕ
  pub chunk_size : ℕ
  pub kdf_log_n : ℕ
  pub kdf_r : ℕ
  pub kdf_p : ℕ

unfoldable pub default_options : EncryptOptions
default_options = record {
  compression = compress_zlib;
  chunk_size = default_chunk_size;
  kdf_log_n = default_kdf_log_n;
  kdf_r = default_kdf_r;
  kdf_p = default_kdf_p;
}

unfoldable pub validate_options : EncryptOptions → Result (Unit {0})
validate_options opts = do
  reject_if (opts.compression /= compress_none && opts.compression /= compress_zlib) invalid_arg
  reject_if (ltb opts.chunk_size min_chunk_size || ltb max_chunk_size opts.chunk_size) invalid_arg
  reject_if (ltb opts.kdf_log_n min_kdf_log_n || ltb max_kdf_log_n opts.kdf_log_n) invalid_arg
  reject_if
      (ltb opts.kdf_r min_kdf_r
        || ltb max_kdf_r opts.kdf_r
        || ltb opts.kdf_p min_kdf_p
        || ltb max_kdf_p opts.kdf_p)
      invalid_arg
  reject_if (ltb max_kdf_memory (kdf_memory opts.kdf_log_n opts.kdf_r)) invalid_arg
  ok tt

-- A pointer is `none` where it is null, and else the memory that it points to.
abbrev pub is_null {ℓ} : {A : Type ℓ} → Option A → Bool
is_null none = true
is_null (some _) = false

abbrev pub memory_at : Option Bytes → Bytes
memory_at none = []
memory_at (some bs) = bs

-- The early returns of EncryptBuffer, before anything is drawn.
unfoldable pub check_arguments :
    Option Bytes
    → ℕ
    → EncryptOptions
    → Option Bytes
    → ℕ
    → Option Bytes
    → Option ℕ
    → Result (Unit {0})
unfolding validate_options
check_arguments key key_size opts input in_size out out_size = do
  reject_if (is_null key || is_null out || is_null out_size) invalid_arg
  reject_if (ltb key_size min_key_size) invalid_arg
  reject_if (ltb 0 in_size && is_null input) invalid_arg
  reject_if (ltb max_plaintext_size in_size) too_large
  validate_options opts

-- The ranges documented on mc_encrypt_options, with the bound on the scrypt working set.
pub record IsPermitted (opts : EncryptOptions) : Type 0 where
  pub compression : opts.compression ≤ 1
  pub size_low : 2 ^ 12 ≤ opts.chunk_size
  pub size_high : opts.chunk_size ≤ 2 ^ 26
  pub log_n_low : 14 ≤ opts.kdf_log_n
  pub log_n_high : opts.kdf_log_n ≤ 20
  pub r_low : 1 ≤ opts.kdf_r
  pub r_high : opts.kdf_r ≤ 32
  pub p_low : 1 ≤ opts.kdf_p
  pub p_high : opts.kdf_p ≤ 16
  pub memory : kdf_memory opts.kdf_log_n opts.kdf_r ≤ 2 ^ 30

pub validate_options-IsPermitted :
    (opts : EncryptOptions) → validate_options opts ≡ ok tt → IsPermitted opts
unfolding validate_options
validate_options-IsPermitted opts e = ground arith

pub IsPermitted-validate_options :
    (opts : EncryptOptions) → IsPermitted opts → validate_options opts ≡ ok tt
unfolding validate_options
IsPermitted-validate_options opts v = ground arith

pub IsPermitted-check_arguments :
    (key : Bytes) (key_size : ℕ) (opts : EncryptOptions) (input : Option Bytes) (in_size : ℕ)
    (out : Bytes) (out_size : ℕ)
    → 12 ≤ key_size
    → in_size ≤ 2 ^ 36
    → (0 < in_size → is_null input ≡ false)
    → IsPermitted opts
    → check_arguments (some key) key_size opts input in_size (some out) (some out_size) ≡ ok tt
unfolding check_arguments
IsPermitted-check_arguments key key_size opts input in_size out out_size long small given v =
    ground (arith, given)

-- ValidateOptions passes exactly the documented ranges: a known compressor, a chunk size from 4 KiB
-- to 64 MiB, a cost from 14 to 20, r from 1 to 32, p from 1 to 16, and at most 1 GiB of scrypt memory.
pub validate_options_iff :
    (opts : EncryptOptions) → (validate_options opts ≡ ok tt) ↔ IsPermitted opts
validate_options_iff opts = (validate_options-IsPermitted opts, IsPermitted-validate_options opts)

pub check_arguments-facts :
    (key : Option Bytes) (key_size : ℕ) (opts : EncryptOptions) (input : Option Bytes) (in_size : ℕ)
    (out : Option Bytes) (out_size : Option ℕ)
    → check_arguments key key_size opts input in_size out out_size ≡ ok tt
    → (12 ≤ key_size) × (in_size ≤ 2 ^ 36) × IsPermitted opts
unfolding check_arguments
check_arguments-facts key key_size opts input in_size out out_size e = ground arith
