-- ===== src/Decrypt/Table.antt =====
-- ChunkEntry, ChunkPlainSize and WalkChunkTable of src/crypt/decrypt.cc, on a host whose size_t has
-- 64 bits.
use model_crypt.Common.{
  ℕ, zero, suc, ◌+◌, ◌-◌, ◌*◌, ◌%◌, ◌^◌, some, Bool, ◌&&◌, List, [], ◌∷◌, ltb, leb, ◌==◌, ◌/=◌,
  if◌then◌else◌, not, bit_and, drop,
}
use model_crypt.Common.Buffer.{Bytes, zeros}
use model_crypt.Common.Result.{Result, ok, format, reject_if, ◌>>=◌, ◌>>◌}
use model_crypt.Format.Types.{
  FileHeader, ChunkHeader, initial_chunk, chunk_header_size, tag_size, chunk_flag_compressed,
  compress_zlib,
}
use model_crypt.Format.Record.{parse_chunk_header}

pub record ChunkEntry : Type 0 where
  pub offset : ℕ
  pub header : ChunkHeader
  pub tag : Bytes

abbrev pub initial_entry : ChunkEntry
initial_entry = record { offset = 0; header = initial_chunk; tag = zeros tag_size }

-- sizeof(ChunkEntry): an 8-byte offset, a padded 8-byte header and the tag.
abbrev pub chunk_entry_size : ℕ
chunk_entry_size = 32

-- The reader has its own copy of the writer's function.
unfoldable pub chunk_plain_size : ℕ → ℕ → ℕ → ℕ
chunk_plain_size plaintext_size chunk_size index =
    let offset = index * chunk_size % 2 ^ 64 in
    let remaining = plaintext_size - offset in
    if leb plaintext_size offset
    then 0
    else if ltb remaining chunk_size
    then remaining
    else chunk_size

-- `(flags & kChunkFlagCompressed) != 0`
abbrev pub is_compressed : ChunkHeader → Bool
is_compressed chunk = bit_and chunk.flags chunk_flag_compressed /= 0

-- size_t subtraction.
abbrev pub sub64 : ℕ → ℕ → ℕ
sub64 a b = (a + 2 ^ 64 - b) % 2 ^ 64

-- Where the walk stands: the next offset, and the largest compressed size so far.
pub record Cursor : Type 0 where
  pub offset : ℕ
  pub max_compressed : ℕ

module _ (bs : Bytes) (in_size : ℕ) (header : FileHeader) (max_stored_size : ℕ) where
  -- The body of the loop for record `index`.
  unfoldable pub walk_record : ℕ → Cursor → Result (ChunkEntry × Cursor)
  walk_record index cursor = do
    reject_if (ltb (sub64 in_size cursor.offset) chunk_header_size) format
    (chunk, tag) ←
        parse_chunk_header (some (drop cursor.offset bs)) max_stored_size (some initial_chunk)
          (some (zeros tag_size))
    let offset = (cursor.offset + chunk_header_size) % 2 ^ 64
    reject_if (ltb (sub64 in_size offset) chunk.stored_size) format
    let next_offset = (offset + chunk.stored_size) % 2 ^ 64
    let plain_size = chunk_plain_size header.plaintext_size header.chunk_size index
    let compressed = is_compressed chunk
    reject_if (not compressed && chunk.stored_size /= plain_size) format
    reject_if (compressed && chunk.stored_size == 0) format
    reject_if (compressed && header.compression_id /= compress_zlib) format
    ok (
      record { offset = offset; header = chunk; tag = tag },
      record {
        offset = next_offset;
        max_compressed =
            if compressed && ltb cursor.max_compressed chunk.stored_size
            then chunk.stored_size
            else cursor.max_compressed;
      },
    )

  -- The loop, by the rounds left; the table is filled in order.
  unfoldable pub walk_records : ℕ → ℕ → Cursor → Result (List ChunkEntry × Cursor)
  walk_records zero index cursor = ok ([], cursor)
  walk_records (suc rounds) index cursor = do
    (entry, cursor') ← walk_record index cursor
    (entries, last) ← walk_records rounds (index + 1) cursor'
    ok (entry ∷ entries, last)
