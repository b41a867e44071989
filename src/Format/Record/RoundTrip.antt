-- ===== src/Format/Record/RoundTrip.antt =====
-- The parser and the serializer of the chunk record invert one another.
use model_crypt.Common.{
  ℕ, zero, suc, ◌+◌, ◌^◌, ◌≤◌, ◌<◌, ◌≡◌, refl, sym, ◌∙◌, [], ◌∷◌, ◌++◌, arith, length,
  length-append, take, get_or, All, All-append, some, append-nil,
}
use model_crypt.Common.Bits.{bit_and_others}
use model_crypt.Common.Buffer.{
  Bytes, IsByte, byte_at, slice, zeros, slice_glue, length-slice, byte_at-slice, slice-bytes_at,
}
use model_crypt.Common.Segments.{concat, concat-append, slice-concat, concat-IsByte}
use model_crypt.Common.Result.{ok}
use model_crypt.Format.Types.{ChunkHeader}
use model_crypt.Format.Endian.{read_u8, read_u32, u32_bytes}
use model_crypt.Format.Endian.Values.{
  read_u8-slice, read_u32-slice, bytes-read_u8, bytes-read_u32, read_u8-lt, read_u32-lt,
}
use model_crypt.Format.Layout.{record_segments, serialize_chunk_header-segments}
use model_crypt.Format.Record.{serialize_chunk_header, parse_record, parse_chunk_header}

-- What fits a record: the sizes that a chunk may declare, and its one known flag.
pub record IsChunk (max_stored_size : ℕ) (chunk : ChunkHeader) : Type 0 where
  pub stored : chunk.stored_size ≤ max_stored_size
  pub width : chunk.stored_size < 2 ^ 32
  pub known : chunk.flags ≤ 1

pub record Recorded (bs : Bytes) (max_stored_size : ℕ) (chunk : ChunkHeader) (tag : Bytes)
    : Type 0 where
  pub stored : (chunk.stored_size ≡ read_u32 bs 0) × (chunk.stored_size ≤ max_stored_size)
  pub flags : (chunk.flags ≡ read_u8 bs 4) × (chunk.flags ≤ 1)
  pub reserved : (byte_at bs 5 ≡ 0) × (byte_at bs 6 ≡ 0) × (byte_at bs 7 ≡ 0)
  pub tag_bytes : tag ≡ slice bs 8 16

pub parse_record-Recorded :
    (bs : Bytes) (max_stored_size : ℕ) (chunk : ChunkHeader) (tag : Bytes)
    → All IsByte bs
    → parse_record bs max_stored_size ≡ ok (chunk, tag)
    → Recorded bs max_stored_size chunk tag
unfolding parse_record
parse_record-Recorded bs max_stored_size chunk tag bytes e =
    ground (arith, bit_and_others (read_u8 bs 4), read_u8-lt bs bytes 4)

pub parse_record-ok :
    (bs : Bytes) (max_stored_size : ℕ) (chunk : ChunkHeader) (tag : Bytes)
    → All IsByte bs
    → Recorded bs max_stored_size chunk tag
    → parse_record bs max_stored_size ≡ ok (chunk, tag)
unfolding parse_record
parse_record-ok bs max_stored_size chunk tag bytes r =
    ground (arith, bit_and_others (read_u8 bs 4), read_u8-lt bs bytes 4)

module _ (chunk : ChunkHeader) (tag : Bytes) where
  pub length-serialize_chunk_header :
      length tag ≡ 16 → length (serialize_chunk_header chunk tag) ≡ 24
  length-serialize_chunk_header tagged =
      rw (serialize_chunk_header-segments chunk tag tagged) (omega (arith, length-append tag []))

  pub serialize_chunk_header-IsByte :
      length tag ≡ 16
      → All IsByte tag
      → chunk.flags ≤ 1
      → All IsByte (serialize_chunk_header chunk tag)
  serialize_chunk_header-IsByte tagged bytes known =
      rw (serialize_chunk_header-segments chunk tag tagged) (
        concat-IsByte (record_segments chunk tag)
          (omega arith, (omega arith, (omega arith, (bytes, tt)))))

module _ (chunk : ChunkHeader) (tag rest : Bytes) (tagged : length tag ≡ 16) where
  file-segments :
      serialize_chunk_header chunk tag ++ rest ≡ concat (record_segments chunk tag ++ (rest ∷ []))
  file-segments = rw (
    serialize_chunk_header-segments chunk tag tagged,
    concat-append (record_segments chunk tag) (rest ∷ []),
    append-nil rest,
  )

  segment_at :
      (k i n : ℕ)
      → length (concat (take k (record_segments chunk tag ++ (rest ∷ [])))) ≡ i
      → length (get_or (record_segments chunk tag ++ (rest ∷ [])) k []) ≡ n
      → slice (serialize_chunk_header chunk tag ++ rest) i n
        ≡ get_or (record_segments chunk tag ++ (rest ∷ [])) k []
  segment_at k i n p q =
      rw file-segments (slice-concat k (record_segments chunk tag ++ (rest ∷ [])) i n p q)

  reserved_at : (i : ℕ) → i < 3 → byte_at (serialize_chunk_header chunk tag ++ rest) (5 + i) ≡ 0
  reserved_at i h =
      sym (byte_at-slice (serialize_chunk_header chunk tag ++ rest) 5 3 i h)
      ∙ rw (segment_at 2 5 3 refl refl) (zeros_at i)
    where
      zeros_at : (i : ℕ) → byte_at (zeros 3) i ≡ 0
      zeros_at zero = refl
      zeros_at (suc zero) = refl
      zeros_at (suc (suc zero)) = refl
      zeros_at (suc (suc (suc i))) = refl

  pub serialize_chunk_header-Recorded :
      {max_stored_size : ℕ}
      → IsChunk max_stored_size chunk
      → All IsByte tag
      → All IsByte rest
      → Recorded (serialize_chunk_header chunk tag ++ rest) max_stored_size chunk tag
  serialize_chunk_header-Recorded c tag_bytes bytes =
      let all =
        All-append IsByte (serialize_chunk_header chunk tag) rest
          (serialize_chunk_header-IsByte chunk tag tagged tag_bytes c.known) bytes in
      let long : 24 ≤ length (serialize_chunk_header chunk tag ++ rest) = omega (
        arith,
        length-append (serialize_chunk_header chunk tag) rest,
        length-serialize_chunk_header chunk tag tagged,
      ) in
      record {
        stored = (
          sym (
              read_u32-slice _ all 0 chunk.stored_size c.width (omega arith)
                (segment_at 0 0 4 refl refl)),
          c.stored,
        );
        flags = (
          sym (
              read_u8-slice _ all 4 chunk.flags (omega (arith, c.known)) (omega arith)
                (segment_at 1 4 1 refl refl)),
          c.known,
        );
        reserved =
            (reserved_at 0 (omega arith), reserved_at 1 (omega arith), reserved_at 2 (omega arith));
        tag_bytes = sym (segment_at 3 8 16 refl tagged);
      }

-- A chunk header whose sizes and flags are in range, serialized with a 16-byte tag and followed by
-- any bytes, parses back to itself and its tag.
pub parse_chunk_header-serialize_chunk_header :
    (chunk old : ChunkHeader) (tag rest old_tag : Bytes) (max_stored_size : ℕ)
    → IsChunk max_stored_size chunk
    → length tag ≡ 16
    → All IsByte tag
    → All IsByte rest
    → parse_chunk_header
        (some (serialize_chunk_header chunk tag ++ rest))
        max_stored_size
        (some old)
        (some old_tag)
      ≡ ok (chunk, tag)
unfolding parse_chunk_header
parse_chunk_header-serialize_chunk_header chunk old tag rest old_tag max_stored_size c tagged
      tag_bytes bytes =
    parse_record-ok _ max_stored_size chunk tag
      (All-append IsByte (serialize_chunk_header chunk tag) rest
        (serialize_chunk_header-IsByte chunk tag tagged tag_bytes c.known) bytes)
      (serialize_chunk_header-Recorded chunk tag rest tagged c tag_bytes bytes)

module _ (bs : Bytes) (max_stored_size : ℕ) (chunk : ChunkHeader) (tag : Bytes) where
  Recorded-segments :
      All IsByte bs
      → 24 ≤ length bs
      → Recorded bs max_stored_size chunk tag
      → concat (record_segments chunk tag) ≡ slice bs 0 24
  Recorded-segments bytes there r =
      let zeros3 : zeros 3 ≡ slice bs 5 3 =
        rw (slice-bytes_at bs 5 0 3 (omega arith), r.reserved.0, r.reserved.1, r.reserved.2) refl in
      slice_glue bs (u32_bytes chunk.stored_size) _ 0 4 20 4 refl
        (rw r.stored.0 (bytes-read_u32 bs bytes 0 (omega arith)))
        (slice_glue bs (chunk.flags ∷ []) _ 4 1 19 5 refl
          (rw r.flags.0 (bytes-read_u8 bs bytes 4 (omega arith)))
          (slice_glue bs _ _ 5 3 16 8 refl zeros3 (append-nil tag ∙ r.tag_bytes)))

-- Whatever ParseChunkHeader accepts from a block of at least 24 bytes is in range and has a 16-byte
-- tag, and serializing the two gives back the first 24 bytes of the block.
pub serialize_chunk_header-parse_chunk_header :
    (bs : Bytes) (max_stored_size : ℕ) (old chunk : ChunkHeader) (old_tag tag : Bytes)
    → All IsByte bs
    → 24 ≤ length bs
    → parse_chunk_header (some bs) max_stored_size (some old) (some old_tag) ≡ ok (chunk, tag)
    → IsChunk max_stored_size chunk
      × (length tag ≡ 16)
      × (serialize_chunk_header chunk tag ≡ slice bs 0 24)
unfolding parse_chunk_header
serialize_chunk_header-parse_chunk_header bs max_stored_size old chunk old_tag tag bytes there e =
    let r = parse_record-Recorded bs max_stored_size chunk tag bytes e in
    let tagged : length tag ≡ 16 = rw r.tag_bytes (length-slice bs 8 16 (omega arith)) in
    (
      record {
        stored = r.stored.1;
        width = rw r.stored.0 (read_u32-lt bs bytes 0);
        known = r.flags.1;
      },
      tagged,
      serialize_chunk_header-segments chunk tag tagged
          ∙ Recorded-segments bs max_stored_size chunk tag bytes there r,
    )
