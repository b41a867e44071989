-- ===== src/Decrypt/Inspect.antt =====
-- mc_file_info and InspectBuffer of src/crypt/decrypt.cc.
use model_crypt.Common.{ℕ, Option, some, none}
use model_crypt.Common.Buffer.{Bytes}
use model_crypt.Common.Result.{Result, ok, err, invalid_arg, ◌>>=◌}
use model_crypt.Format.Types.{FileHeader, initial_header}
use model_crypt.Format.Header.{parse_file_header}

pub record FileInfo : Type 0 where
  pub format_version : ℕ
  pub compression : ℕ
  pub plaintext_size : ℕ
  pub chunk_size : ℕ
  pub chunk_count : ℕ
  pub kdf_log_n : ℕ
  pub kdf_r : ℕ
  pub kdf_p : ℕ

unfoldable pub file_info : FileHeader → FileInfo
file_info header = record {
  format_version = header.format_version;
  compression = header.compression_id;
  plaintext_size = header.plaintext_size;
  chunk_size = header.chunk_size;
  chunk_count = header.chunk_count;
  kdf_log_n = header.kdf_log_n;
  kdf_r = header.kdf_r;
  kdf_p = header.kdf_p;
}

-- The result is what is stored through `info`.
unfoldable pub inspect_buffer : Option Bytes → ℕ → Option FileInfo → Result FileInfo
unfolding file_info
inspect_buffer none in_size info = err invalid_arg
inspect_buffer (some bs) in_size none = err invalid_arg
inspect_buffer (some bs) in_size (some _) = do
  header ← parse_file_header (some bs) in_size (some initial_header)
  ok (file_info header)
