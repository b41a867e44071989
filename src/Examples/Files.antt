-- ===== src/Examples/Files.antt =====
-- A file of the toy platform, written and read.
use model_crypt.Common.{Option, some, [], ◌∷◌, ◌++◌, ◌≡◌, refl}
use model_crypt.Common.Buffer.{Bytes, zeros, slice, memcpy}
use model_crypt.Common.Result.{ok}
use model_crypt.Encrypt.Options.{default_options, check_arguments, validate_options}
use model_crypt.Encrypt.Loop.{choose_payload, seal_chunk, seal_chunks}
use model_crypt.Encrypt.Buffer.{
  encrypt_buffer, fill_header, worst_case_size, allocate, shrink, write_file,
}
use model_crypt.Format.Sizes.{kdf_memory, chunk_count_for, max_stored_size_for, chunk_plain_size}
use model_crypt.Format.Header.{serialize_file_header}
use model_crypt.Format.Record.{serialize_chunk_header, build_aad, build_nonce}
use model_crypt.Format.Endian.{write_u8, write_u16, write_u32, write_u64}
use model_crypt.Examples.Platform.{toy, toy_seal, toy_compress, all_bytes, all_zeros}

abbrev pub key : Bytes
key = 7 ∷ 7 ∷ 7 ∷ 7 ∷ 7 ∷ 7 ∷ 7 ∷ 7 ∷ 7 ∷ 7 ∷ 7 ∷ 7 ∷ []

abbrev pub three : Option Bytes
three = some (zeros 3)

-- The header of the file, its 64 bytes.
abbrev pub header_bytes : Bytes
header_bytes =
    77 ∷ 67 ∷ 82 ∷ 89 ∷ 80 ∷ 84 ∷ 48 ∷ 50 ∷ 2 ∷ 0 ∷ 1 ∷ 1 ∷ 1 ∷ 15 ∷ 8 ∷ 0 ∷ 0 ∷ 0 ∷ 1 ∷ 0 ∷ 0 ∷ 0
    ∷ 0 ∷ 0 ∷ 0 ∷ 0 ∷ 0 ∷ 0 ∷ 0 ∷ 0 ∷ 0 ∷ 0 ∷ 0 ∷ 0 ∷ 0 ∷ 0 ∷ 0 ∷ 0 ∷ 0 ∷ 0 ∷ 0 ∷ 0 ∷ 0 ∷ 0 ∷ 0 ∷ 0
    ∷ 0 ∷ 0 ∷ 64 ∷ 0 ∷ 3 ∷ 0 ∷ 0 ∷ 0 ∷ 0 ∷ 0 ∷ 0 ∷ 0 ∷ 1 ∷ 0 ∷ 0 ∷ 0 ∷ 0 ∷ 0 ∷ []

-- The record and the one byte of its chunk.
abbrev pub chunk_bytes : Bytes
chunk_bytes =
    1 ∷ 0 ∷ 0 ∷ 0 ∷ 1 ∷ 0 ∷ 0 ∷ 0 ∷ 0 ∷ 0 ∷ 0 ∷ 0 ∷ 0 ∷ 0 ∷ 0 ∷ 0 ∷ 0 ∷ 0 ∷ 0 ∷ 0 ∷ 0 ∷ 0 ∷ 0 ∷ 0
    ∷ 0 ∷ []

-- The buffer that `out` is given: the file, and two bytes that are not used.
abbrev pub file : Bytes
file = header_bytes ++ chunk_bytes ++ zeros 2

pub written :
    (encrypt_buffer toy (some key) 12 default_options three 3 (some []) (some 0) tt).0
    ≡ ok (file, 89)
unfolding encrypt_buffer check_arguments default_options validate_options kdf_memory worst_case_size
    fill_header chunk_count_for max_stored_size_for chunk_plain_size seal_chunks seal_chunk
    choose_payload memcpy slice allocate shrink write_file serialize_file_header
    serialize_chunk_header build_aad build_nonce write_u8 write_u16 write_u32 write_u64 toy_seal
    toy_compress all_bytes all_zeros
written = refl
