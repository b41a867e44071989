-- ===== src/Format/Record.antt =====
-- SerializeChunkHeader, ParseChunkHeader, BuildAad and BuildNonce of src/crypt/format.cc.
pub mod RoundTrip
pub mod Binding
use model_crypt.Common.{
  ℕ, zero, suc, ◌+◌, ◌-◌, Option, some, none, Bool, true, false, ◌||◌, List, [], ◌∷◌, ltb, ◌/=◌,
  bit_and,
}
use model_crypt.Common.Buffer.{Bytes, byte_at, slice, memcpy, zeros}
use model_crypt.Common.Result.{Result, ok, err, invalid_arg, format, reject_if, ◌>>=◌, ◌>>◌}
use model_crypt.Format.Types.{
  ChunkHeader, header_size, chunk_header_size, tag_size, aad_size, chunk_flag_unknown,
  nonce_prefix_size, nonce_size,
}
use model_crypt.Format.Endian.{write_u8, write_u32, read_u8, read_u32, byte_of}

abbrev pub off_chunk_stored_size : ℕ
off_chunk_stored_size = 0

abbrev pub off_chunk_flags : ℕ
off_chunk_flags = 4

abbrev pub off_chunk_reserved : ℕ
off_chunk_reserved = 5

abbrev pub off_chunk_tag : ℕ
off_chunk_tag = 8

unfoldable pub serialize_chunk_header : ChunkHeader → Bytes → Bytes
serialize_chunk_header chunk tag =
    let out0 = zeros chunk_header_size in
    let out1 = write_u32 out0 off_chunk_stored_size chunk.stored_size in
    let out2 = write_u8 out1 off_chunk_flags chunk.flags in memcpy out2 off_chunk_tag tag

-- `in[kOffChunkReserved + i] != 0` for some i, by the rounds left.
abbrev reserved_set : ℕ → ℕ → Bytes → Bool
reserved_set zero i bs = false
reserved_set (suc rounds) i bs =
    byte_at bs (off_chunk_reserved + i) /= 0 || reserved_set rounds (i + 1) bs

-- The record at `bs`, with all pointers known to be there.
unfoldable pub parse_record : Bytes → ℕ → Result (ChunkHeader × Bytes)
parse_record bs max_stored_size = do
  let stored = read_u32 bs off_chunk_stored_size
  let flag_byte = read_u8 bs off_chunk_flags
  reject_if (bit_and flag_byte chunk_flag_unknown /= 0) format
  reject_if (reserved_set (off_chunk_tag - off_chunk_reserved) 0 bs) format
  reject_if (ltb max_stored_size stored) format
  ok (record { stored_size = stored; flags = flag_byte }, slice bs off_chunk_tag tag_size)

-- A pointer is `none` where it is null. The result is what is stored through `chunk` and `tag`.
unfoldable pub parse_chunk_header :
    Option Bytes → ℕ → Option ChunkHeader → Option Bytes → Result (ChunkHeader × Bytes)
unfolding parse_record
parse_chunk_header (some bs) max_stored_size (some _) (some _) = parse_record bs max_stored_size
parse_chunk_header _ max_stored_size _ _ = err invalid_arg

unfoldable pub build_aad : Bytes → ℕ → ChunkHeader → Bytes
build_aad serialized_header chunk_index chunk =
    let out0 = memcpy (zeros aad_size) 0 (slice serialized_header 0 header_size) in
    let out1 = write_u32 out0 header_size chunk_index in
    let out2 = write_u32 out1 (header_size + 4) chunk.stored_size in
    write_u8 out2 (header_size + 8) chunk.flags

-- A big-endian counter behind the prefix.
unfoldable pub build_nonce : Bytes → ℕ → Bytes
build_nonce nonce_prefix chunk_index =
    let out0 = memcpy (zeros nonce_size) 0 nonce_prefix in
    let out1 = write_u8 out0 (nonce_prefix_size + 0) (byte_of chunk_index 24) in
    let out2 = write_u8 out1 (nonce_prefix_size + 1) (byte_of chunk_index 16) in
    let out3 = write_u8 out2 (nonce_prefix_size + 2) (byte_of chunk_index 8) in
    write_u8 out3 (nonce_prefix_size + 3) (byte_of chunk_index 0)
