-- ===== src/Format/Header/Errors.antt =====
-- The errors of ParseFileHeader (src/crypt/format.cc).
use model_crypt.Common.{ℕ, ◌≤◌, ◌<◌, ◌^◌, ◌≡◌, ◌⊎◌, some, arith}
use model_crypt.Common.Buffer.{Bytes, slice}
use model_crypt.Common.Result.{Error, err, format, unsupported, too_large}
use model_crypt.Format.Types.{FileHeader, magic}
use model_crypt.Format.Endian.{read_u16, read_u64}
use model_crypt.Format.Header.{parse_fields, parse_file_header}
use model_crypt.Format.Header.Validity.{same_bytes_eq}

-- ParseFileHeader of a block fails with MC_ERR_FORMAT, or else the input holds a header that begins
-- with the magic and the failure is MC_ERR_UNSUPPORTED, or MC_ERR_TOO_LARGE when the version is 2 and
-- the declared plaintext is larger than 64 GiB.
pub parse_file_header-err :
    (bs : Bytes) (in_size : ℕ) (old : FileHeader) (e : Error)
    → parse_file_header (some bs) in_size (some old) ≡ err e
    → (e ≡ format)
      ⊎ (64 ≤ in_size)
        × (slice bs 0 8 ≡ magic)
        × ((e ≡ unsupported) ⊎ (e ≡ too_large) × (read_u16 bs 8 ≡ 2) × (2 ^ 36 < read_u64 bs 50))
unfolding parse_file_header parse_fields
parse_file_header-err bs in_size old e h = ground (arith, same_bytes_eq (slice bs 0 8) magic)
