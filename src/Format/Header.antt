-- ===== src/Format/Header.antt =====
-- SerializeFileHeader and ParseFileHeader of src/crypt/format.cc.
pub mod RoundTrip
pub mod Canonical
pub mod Errors
pub mod Validity
use model_crypt.Common.{
  ℕ, ◌+◌, Option, some, none, Bool, true, false, not, ◌&&◌, ◌||◌, List, [], ◌∷◌, ltb, ◌==◌, ◌/=◌,
}
use model_crypt.Common.Buffer.{Bytes, slice, memcpy, zeros}
use model_crypt.Common.Result.{
  Result, ok, err, invalid_arg, format, unsupported, too_large, reject_if, ◌>>=◌, ◌>>◌,
}
use model_crypt.Format.Types.{
  FileHeader, magic, magic_size, header_size, salt_size, nonce_prefix_size, format_version_2,
  kdf_scrypt, aead_aes256_gcm, compress_none, compress_zlib, min_kdf_log_n, max_kdf_log_n,
  min_kdf_r, max_kdf_r, min_kdf_p, max_kdf_p, max_kdf_memory, min_chunk_size, max_chunk_size,
  max_plaintext_size,
}
use model_crypt.Format.Endian.{
  write_u8, write_u16, write_u32, write_u64, read_u8, read_u16, read_u32, read_u64,
}
use model_crypt.Format.Sizes.{chunk_count_for, kdf_memory}

abbrev pub off_magic : ℕ
off_magic = 0

abbrev pub off_version : ℕ
off_version = 8

abbrev pub off_kdf_id : ℕ
off_kdf_id = 10

abbrev pub off_aead_id : ℕ
off_aead_id = 11

abbrev pub off_compression_id : ℕ
off_compression_id = 12

abbrev pub off_kdf_log_n : ℕ
off_kdf_log_n = 13

abbrev pub off_kdf_r : ℕ
off_kdf_r = 14

abbrev pub off_kdf_p : ℕ
off_kdf_p = 18

abbrev pub off_salt : ℕ
off_salt = 22

abbrev pub off_nonce_prefix : ℕ
off_nonce_prefix = 38

abbrev pub off_chunk_size : ℕ
off_chunk_size = 46

abbrev pub off_plaintext_size : ℕ
off_plaintext_size = 50

abbrev pub off_chunk_count : ℕ
off_chunk_count = 58

abbrev pub off_header_reserved : ℕ
off_header_reserved = 62

unfoldable pub serialize_file_header : FileHeader → Bytes
serialize_file_header header =
    let out0 = zeros header_size in
    let out1 = memcpy out0 off_magic magic in
    let out2 = write_u16 out1 off_version header.format_version in
    let out3 = write_u8 out2 off_kdf_id header.kdf_id in
    let out4 = write_u8 out3 off_aead_id header.aead_id in
    let out5 = write_u8 out4 off_compression_id header.compression_id in
    let out6 = write_u8 out5 off_kdf_log_n header.kdf_log_n in
    let out7 = write_u32 out6 off_kdf_r header.kdf_r in
    let out8 = write_u32 out7 off_kdf_p header.kdf_p in
    let out9 = memcpy out8 off_salt header.salt in
    let out10 = memcpy out9 off_nonce_prefix header.nonce_prefix in
    let out11 = write_u32 out10 off_chunk_size header.chunk_size in
    let out12 = write_u64 out11 off_plaintext_size header.plaintext_size in
    let out13 = write_u32 out12 off_chunk_count header.chunk_count in
    write_u16 out13 off_header_reserved 0

-- `memcmp(a, b, n) == 0`
abbrev pub same_bytes : Bytes → Bytes → Bool
same_bytes [] [] = true
same_bytes [] (b ∷ bs) = false
same_bytes (a ∷ as') [] = false
same_bytes (a ∷ as') (b ∷ bs) = a == b && same_bytes as' bs

-- The header of `in_size` bytes at `bs`, with both pointers known to be there.
unfoldable pub parse_fields : Bytes → ℕ → Result FileHeader
parse_fields bs in_size = do
  reject_if (ltb in_size header_size) format
  reject_if (not (same_bytes (slice bs off_magic magic_size) magic)) format
  let version = read_u16 bs off_version
  reject_if (version /= format_version_2) unsupported
  let kdf = read_u8 bs off_kdf_id
  let aead = read_u8 bs off_aead_id
  reject_if (kdf /= kdf_scrypt || aead /= aead_aes256_gcm) unsupported
  let compression = read_u8 bs off_compression_id
  reject_if (compression /= compress_none && compression /= compress_zlib) unsupported
  reject_if (read_u16 bs off_header_reserved /= 0) format
  let log_n = read_u8 bs off_kdf_log_n
  let r = read_u32 bs off_kdf_r
  let p = read_u32 bs off_kdf_p
  reject_if
      (ltb log_n min_kdf_log_n
        || ltb max_kdf_log_n log_n
        || ltb r min_kdf_r
        || ltb max_kdf_r r
        || ltb p min_kdf_p
        || ltb max_kdf_p p)
      unsupported
  reject_if (ltb max_kdf_memory (kdf_memory log_n r)) unsupported
  let size = read_u32 bs off_chunk_size
  reject_if (ltb size min_chunk_size || ltb max_chunk_size size) format
  let plain = read_u64 bs off_plaintext_size
  reject_if (ltb max_plaintext_size plain) too_large
  let count = read_u32 bs off_chunk_count
  reject_if (count /= chunk_count_for plain size) format
  ok record {
    format_version = version;
    kdf_id = kdf;
    aead_id = aead;
    compression_id = compression;
    kdf_log_n = log_n;
    kdf_r = r;
    kdf_p = p;
    salt = slice bs off_salt salt_size;
    nonce_prefix = slice bs off_nonce_prefix nonce_prefix_size;
    chunk_size = size;
    plaintext_size = plain;
    chunk_count = count;
  }

-- A pointer is `none` where it is null. The result is what is stored through `header`.
unfoldable pub parse_file_header : Option Bytes → ℕ → Option FileHeader → Result FileHeader
unfolding parse_fields
parse_file_header none in_size header = err invalid_arg
parse_file_header (some bs) in_size none = err invalid_arg
parse_file_header (some bs) in_size (some _) = parse_fields bs in_size
