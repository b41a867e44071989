-- ===== src/Format/Layout.antt =====
-- The layout of docs/Format.md: each structure is its fields, one behind the other.
use model_crypt.Common.{
  length-append, ℕ, ◌≤◌, ◌≡◌, refl, ◌∙◌, List, [], ◌∷◌, ◌++◌, arith, length, append_assoc,
  append-nil,
}
use model_crypt.Common.Buffer.{Bytes, slice, memcpy, zeros, length-slice}
use model_crypt.Common.Segments.{IsFilled, memcpy-IsFilled, concat}
use model_crypt.Format.Types.{FileHeader, ChunkHeader, magic}
use model_crypt.Format.Endian.{
  u16_bytes, u32_bytes, u64_bytes, write_u8, write_u16, write_u32, write_u64, byte_of,
}
use model_crypt.Format.Header.{serialize_file_header}
use model_crypt.Format.Record.{serialize_chunk_header, build_aad, build_nonce}

abbrev pub header_segments : FileHeader → List Bytes
header_segments h =
    magic
    ∷ u16_bytes h.format_version
    ∷ (h.kdf_id ∷ [])
    ∷ (h.aead_id ∷ [])
    ∷ (h.compression_id ∷ [])
    ∷ (h.kdf_log_n ∷ [])
    ∷ u32_bytes h.kdf_r
    ∷ u32_bytes h.kdf_p
    ∷ h.salt
    ∷ h.nonce_prefix
    ∷ u32_bytes h.chunk_size
    ∷ u64_bytes h.plaintext_size
    ∷ u32_bytes h.chunk_count
    ∷ u16_bytes 0
    ∷ []

-- The bytes of a file header, field by field.
pub serialize_file_header-segments :
    (h : FileHeader)
    → length h.salt ≡ 16
    → length h.nonce_prefix ≡ 8
    → serialize_file_header h ≡ concat (header_segments h)
unfolding serialize_file_header write_u8 write_u16 write_u32 write_u64
serialize_file_header-segments h salted prefixed =
    let f0 : IsFilled (zeros 64) [] 0 64 = record { content = refl; filled = refl } in
    let f1 = memcpy-IsFilled magic 8 56 f0 refl refl in
    let f2 = memcpy-IsFilled (u16_bytes h.format_version) 10 54 f1 refl refl in
    let f3 = memcpy-IsFilled (h.kdf_id ∷ []) 11 53 f2 refl refl in
    let f4 = memcpy-IsFilled (h.aead_id ∷ []) 12 52 f3 refl refl in
    let f5 = memcpy-IsFilled (h.compression_id ∷ []) 13 51 f4 refl refl in
    let f6 = memcpy-IsFilled (h.kdf_log_n ∷ []) 14 50 f5 refl refl in
    let f7 = memcpy-IsFilled (u32_bytes h.kdf_r) 18 46 f6 refl refl in
    let f8 = memcpy-IsFilled (u32_bytes h.kdf_p) 22 42 f7 refl refl in
    let f9 = memcpy-IsFilled h.salt 38 26 f8 (omega arith) (omega arith) in
    let f10 = memcpy-IsFilled h.nonce_prefix 46 18 f9 (omega arith) (omega arith) in
    let f11 = memcpy-IsFilled (u32_bytes h.chunk_size) 50 14 f10 refl refl in
    let f12 = memcpy-IsFilled (u64_bytes h.plaintext_size) 58 6 f11 refl refl in
    let f13 = memcpy-IsFilled (u32_bytes h.chunk_count) 62 2 f12 refl refl in
    let f14 = memcpy-IsFilled (u16_bytes 0) 64 0 f13 refl refl in
    f14.content ∙ simp (append_assoc, append-nil)

abbrev pub record_segments : ChunkHeader → Bytes → List Bytes
record_segments chunk tag = u32_bytes chunk.stored_size ∷ (chunk.flags ∷ []) ∷ zeros 3 ∷ tag ∷ []

-- The bytes of a chunk record; the reserved ones keep the zeros of the memset.
pub serialize_chunk_header-segments :
    (chunk : ChunkHeader) (tag : Bytes)
    → length tag ≡ 16
    → serialize_chunk_header chunk tag ≡ concat (record_segments chunk tag)
unfolding serialize_chunk_header write_u8 write_u32
serialize_chunk_header-segments chunk tag tagged =
    let f0 : IsFilled (zeros 24) [] 0 24 = record { content = refl; filled = refl } in
    let f1 = memcpy-IsFilled (u32_bytes chunk.stored_size) 4 20 f0 refl refl in
    let f2 = memcpy-IsFilled (chunk.flags ∷ []) 5 19 f1 refl refl in
    let f3 : IsFilled
        (memcpy (memcpy (zeros 24) 0 (u32_bytes chunk.stored_size)) 4 (chunk.flags ∷ []))
        ((u32_bytes chunk.stored_size ++ (chunk.flags ∷ [])) ++ zeros 3) 8 16 =
      record { content = f2.content; filled = refl } in
    let f4 = memcpy-IsFilled tag 24 0 f3 (omega arith) (omega arith) in
    f4.content ∙ simp (append_assoc, append-nil)

abbrev pub aad_segments : Bytes → ℕ → ChunkHeader → List Bytes
aad_segments header chunk_index chunk =
    header ∷ u32_bytes chunk_index ∷ u32_bytes chunk.stored_size ∷ (chunk.flags ∷ []) ∷ []

-- The associated data, from the first 64 of the bytes at the header pointer.
pub build_aad-segments :
    (file : Bytes) (chunk_index : ℕ) (chunk : ChunkHeader)
    → 64 ≤ length file
    → build_aad file chunk_index chunk ≡ concat (aad_segments (slice file 0 64) chunk_index chunk)
unfolding build_aad write_u8 write_u32
build_aad-segments file chunk_index chunk fits =
    let whole : length (slice file 0 64) ≡ 64 = length-slice file 0 64 (omega arith) in
    let f0 : IsFilled (zeros 73) [] 0 73 = record { content = refl; filled = refl } in
    let f1 = memcpy-IsFilled (slice file 0 64) 64 9 f0 (omega arith) (omega arith) in
    let f2 = memcpy-IsFilled (u32_bytes chunk_index) 68 5 f1 refl refl in
    let f3 = memcpy-IsFilled (u32_bytes chunk.stored_size) 72 1 f2 refl refl in
    let f4 = memcpy-IsFilled (chunk.flags ∷ []) 73 0 f3 refl refl in
    f4.content ∙ simp (append_assoc, append-nil)

pub length-build_aad :
    (file : Bytes) (chunk_index : ℕ) (chunk : ChunkHeader)
    → 64 ≤ length file
    → length (build_aad file chunk_index chunk) ≡ 73
length-build_aad file chunk_index chunk fits =
    let whole : length (slice file 0 64) ≡ 64 = length-slice file 0 64 (omega arith) in
    rw (build_aad-segments file chunk_index chunk fits)
      (omega (arith, whole, length-append (slice file 0 64)))

abbrev pub u32_big_endian : ℕ → Bytes
u32_big_endian value = byte_of value 24 ∷ byte_of value 16 ∷ byte_of value 8 ∷ byte_of value 0 ∷ []

pub build_nonce-segments :
    (nonce_prefix : Bytes) (chunk_index : ℕ)
    → length nonce_prefix ≡ 8
    → build_nonce nonce_prefix chunk_index ≡ nonce_prefix ++ u32_big_endian chunk_index
unfolding build_nonce write_u8
build_nonce-segments nonce_prefix chunk_index prefixed =
    let f0 : IsFilled (zeros 12) [] 0 12 = record { content = refl; filled = refl } in
    let f1 = memcpy-IsFilled nonce_prefix 8 4 f0 (omega arith) (omega arith) in
    let f2 = memcpy-IsFilled (byte_of chunk_index 24 ∷ []) 9 3 f1 refl refl in
    let f3 = memcpy-IsFilled (byte_of chunk_index 16 ∷ []) 10 2 f2 refl refl in
    let f4 = memcpy-IsFilled (byte_of chunk_index 8 ∷ []) 11 1 f3 refl refl in
    let f5 = memcpy-IsFilled (byte_of chunk_index 0 ∷ []) 12 0 f4 refl refl in
    f5.content ∙ simp (append_assoc, append-nil)
