-- ===== src/Examples/Formats.antt =====
-- The header, the records and the sizes of one file.
use model_crypt.Common.{
  ℕ, ◌+◌, ◌-◌, ◌*◌, ◌^◌, ◌≤◌, ◌<◌, ◌≡◌, refl, ◌⊎◌, ◌↔◌, some, [], ◌∷◌, ◌++◌, arith, length, All,
  min,
}
use model_crypt.Common.Buffer.{IsByte, slice, zeros}
use model_crypt.Common.Result.{ok, err, format, unsupported, too_large}
use model_crypt.Format.Types.{FileHeader, initial_header, ChunkHeader, initial_chunk, magic}
use model_crypt.Format.Endian.{read_u8, read_u16, read_u32, read_u64}
use model_crypt.Format.Sizes.{kdf_memory, chunk_count_for, chunk_plain_size}
use model_crypt.Format.Sizes.Counts.{InRange, chunk_count_for_covers, chunk_plain_size_step}
use model_crypt.Format.Header.{serialize_file_header, parse_file_header}
use model_crypt.Format.Header.Validity.{IsValid}
use model_crypt.Format.Header.RoundTrip.{parse_file_header-serialize_file_header}
use model_crypt.Format.Header.Canonical.{serialize_file_header-parse_file_header}
use model_crypt.Format.Header.Errors.{parse_file_header-err}
use model_crypt.Format.Record.{serialize_chunk_header, parse_chunk_header}
use model_crypt.Format.Record.RoundTrip.{
  IsChunk, parse_chunk_header-serialize_chunk_header, serialize_chunk_header-parse_chunk_header,
}
use model_crypt.Format.Record.Binding.{build_aad_injective, build_nonce_injective}
use model_crypt.Encrypt.Options.{
  IsPermitted, default_options, validate_options, validate_options_iff,
}
use model_crypt.Encrypt.Buffer.{fill_header}
use model_crypt.Container.Encrypted.{fill_header-IsValid}
use model_crypt.Examples.Platform.{all_bytes, all_bytes-IsByte}
use model_crypt.Examples.Files.{header_bytes, chunk_bytes}

-- The header of the file of three zeros.
abbrev sample : FileHeader
sample = record {
  format_version = 2;
  kdf_id = 1;
  aead_id = 1;
  compression_id = 1;
  kdf_log_n = 15;
  kdf_r = 8;
  kdf_p = 1;
  salt = zeros 16;
  nonce_prefix = zeros 8;
  chunk_size = 2 ^ 22;
  plaintext_size = 3;
  chunk_count = 1;
}

header_bytes-IsByte : All IsByte header_bytes
unfolding all_bytes
header_bytes-IsByte = all_bytes-IsByte header_bytes refl

parsed : parse_file_header (some header_bytes) 64 (some initial_header) ≡ ok sample
unfolding parse_file_header slice read_u8 read_u16 read_u32 read_u64 kdf_memory chunk_count_for
parsed = refl

serialize_file_header-parse_file_header_example :
    IsValid sample × (serialize_file_header sample ≡ slice header_bytes 0 64)
serialize_file_header-parse_file_header_example =
    serialize_file_header-parse_file_header header_bytes 64 initial_header sample
      header_bytes-IsByte (omega arith) parsed

sample-IsValid : IsValid sample
sample-IsValid =
    (serialize_file_header-parse_file_header header_bytes 64 initial_header sample
      header_bytes-IsByte (omega arith) parsed).0

parse_file_header-serialize_file_header_example :
    parse_file_header (some (serialize_file_header sample ++ 7 ∷ [])) 65 (some initial_header)
    ≡ ok sample
parse_file_header-serialize_file_header_example =
    parse_file_header-serialize_file_header sample (7 ∷ []) 65 initial_header sample-IsValid
      (omega arith, tt) (omega arith)

too_short : parse_file_header (some header_bytes) 63 (some initial_header) ≡ err format
unfolding parse_file_header
too_short = refl

parse_file_header-err_example :
    (format ≡ format)
    ⊎ (64 ≤ 63)
      × (slice header_bytes 0 8 ≡ magic)
      × ((format ≡ unsupported)
          ⊎ (format ≡ too_large)
            × (read_u16 header_bytes 8 ≡ 2)
            × (2 ^ 36 < read_u64 header_bytes 50))
parse_file_header-err_example =
    parse_file_header-err header_bytes 63 initial_header format too_short

build_aad_injective_example :
    (slice header_bytes 0 64 ≡ slice header_bytes 0 64)
    × (◌≡◌ {A = ℕ} 3 3)
    × (initial_chunk ≡ initial_chunk)
build_aad_injective_example =
    build_aad_injective header_bytes header_bytes 3 3 initial_chunk initial_chunk (omega arith)
      (omega arith) (omega arith) (omega arith) (omega arith) (omega arith) refl

build_nonce_injective_example : (zeros 8 ≡ zeros 8) × (◌≡◌ {A = ℕ} 5 5)
build_nonce_injective_example =
    build_nonce_injective (zeros 8) (zeros 8) 5 5 refl refl (omega arith) (omega arith) refl

-- The one chunk, compressed to a byte.
abbrev small : ChunkHeader
small = record { stored_size = 1; flags = 1 }

parse_chunk_header-serialize_chunk_header_example :
    parse_chunk_header
      (some (serialize_chunk_header small (zeros 16) ++ []))
      64
      (some initial_chunk)
      (some (zeros 16))
    ≡ ok (small, zeros 16)
parse_chunk_header-serialize_chunk_header_example =
    parse_chunk_header-serialize_chunk_header small initial_chunk (zeros 16) [] (zeros 16) 64
      (record { stored = omega arith; width = omega arith; known = omega arith }) refl
      (unfold all_bytes in all_bytes-IsByte (zeros 16) refl) tt

chunk_bytes-IsByte : All IsByte chunk_bytes
unfolding all_bytes
chunk_bytes-IsByte = all_bytes-IsByte chunk_bytes refl

chunk_parsed :
    parse_chunk_header (some chunk_bytes) 64 (some initial_chunk) (some (zeros 16))
    ≡ ok (small, zeros 16)
unfolding parse_chunk_header slice read_u8 read_u32
chunk_parsed = refl

serialize_chunk_header-parse_chunk_header_example :
    IsChunk 64 small
    × (length (zeros 16) ≡ 16)
    × (serialize_chunk_header small (zeros 16) ≡ slice chunk_bytes 0 24)
serialize_chunk_header-parse_chunk_header_example =
    serialize_chunk_header-parse_chunk_header chunk_bytes 64 initial_chunk small (zeros 16)
      (zeros 16) chunk_bytes-IsByte (omega arith) chunk_parsed

-- Three chunks of 4 KiB, the last of one byte.
long-InRange : InRange 8193 4096
long-InRange = record { low = omega arith; high = omega arith; plain = omega arith }

chunk_count_for_covers_example :
    (1 ≤ chunk_count_for 8193 4096)
    × (chunk_count_for 8193 4096 ≤ 2 ^ 24)
    × (8193 ≤ chunk_count_for 8193 4096 * 4096)
    × ((◌≡◌ {A = ℕ} 8193 0) × (chunk_count_for 8193 4096 ≡ 1)
        ⊎ ((chunk_count_for 8193 4096 - 1) * 4096 < 8193))
chunk_count_for_covers_example = chunk_count_for_covers 8193 4096 long-InRange

chunk_plain_size_step_example :
    min (2 * 4096) 8193 + chunk_plain_size 8193 4096 2 ≡ min ((2 + 1) * 4096) 8193
chunk_plain_size_step_example = chunk_plain_size_step 8193 4096 2 long-InRange (omega arith)

validate_options_iff_example :
    (validate_options default_options ≡ ok tt) ↔ IsPermitted default_options
validate_options_iff_example = validate_options_iff default_options

default_options-IsPermitted : IsPermitted default_options
unfolding validate_options default_options kdf_memory
default_options-IsPermitted = (validate_options_iff default_options).0 refl

fill_header-IsValid_example : IsValid (fill_header default_options 3 (zeros 16) (zeros 8))
fill_header-IsValid_example =
    fill_header-IsValid default_options 3 (zeros 16) (zeros 8) default_options-IsPermitted
      (omega arith) (refl, (unfold all_bytes in all_bytes-IsByte (zeros 16) refl))
      (refl, (unfold all_bytes in all_bytes-IsByte (zeros 8) refl))
