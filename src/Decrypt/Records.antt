-- ===== src/Decrypt/Records.antt =====
-- The table that WalkChunkTable of src/crypt/decrypt.cc fills holds what the input's records say.
use model_crypt.Common.{
  ℕ, zero, suc, ◌+◌, ◌-◌, ◌^◌, ◌≤◌, ◌<◌, ◌≡◌, subst, some, List, arith, All, All-drop, drop,
}
use model_crypt.Common.Buffer.{Bytes, IsByte, zeros}
use model_crypt.Common.Result.{take_step, ok, ok_injective}
use model_crypt.Services.{Services}
use model_crypt.Format.Types.{FileHeader, ChunkHeader, initial_chunk}
use model_crypt.Format.Sizes.{max_stored_size_for}
use model_crypt.Format.Record.{parse_chunk_header}
use model_crypt.Format.Record.RoundTrip.{Recorded, parse_record-Recorded}
use model_crypt.Decrypt.Table.{ChunkEntry, Cursor, walk_record, walk_records}
use model_crypt.Decrypt.Buffer.{walk_chunk_table}
use model_crypt.Decrypt.Bounds.{walk_record-step, walk_chunk_table-walked}

-- The flags, the stored size and the tag of an entry are those of the 24 bytes of `bs` before the
-- ciphertext that it points to.
abbrev pub InFile : Bytes → FileHeader → ChunkEntry → Type 0
InFile bs header entry =
    Recorded (drop (entry.offset - 24) bs) (max_stored_size_for header.chunk_size) entry.header
      entry.tag

module _ (bs : Bytes) (bytes : All IsByte bs) (in_size : ℕ) (header : FileHeader)
    (host : in_size < 2 ^ 64) where
  parse_chunk_header-Recorded :
      (i max_stored_size : ℕ) (old chunk : ChunkHeader) (old_tag tag : Bytes)
      → parse_chunk_header (some (drop i bs)) max_stored_size (some old) (some old_tag)
        ≡ ok (chunk, tag)
      → Recorded (drop i bs) max_stored_size chunk tag
  unfolding parse_chunk_header
  parse_chunk_header-Recorded i max_stored_size old chunk old_tag tag e =
      parse_record-Recorded (drop i bs) max_stored_size chunk tag (All-drop IsByte i bs bytes) e

  walk_records-InFile :
      (rounds index : ℕ) (cursor last : Cursor) (entries : List ChunkEntry)
      → cursor.offset ≤ in_size
      → walk_records bs in_size header (max_stored_size_for header.chunk_size) rounds index cursor
        ≡ ok (entries, last)
      → All (InFile bs header) entries
  unfolding walk_records
  walk_records-InFile zero index cursor last entries inside e =
      subst (λ q. All (InFile bs header) q.0) (ok_injective e) tt
  walk_records-InFile (suc rounds) index cursor last entries inside e =
      let ((entry, cursor'), one, e1) =
        take_step
          (walk_record bs in_size header (max_stored_size_for header.chunk_size) index cursor) _
          e in
      let ((others, end), more, e2) =
        take_step
          (walk_records bs in_size header (max_stored_size_for header.chunk_size) rounds (index + 1)
            cursor')
          _ e1 in
      let (placed, _, _, _, within, parsed) =
        walk_record-step bs in_size header host index cursor cursor' entry inside one in
      let behind : cursor.offset ≡ entry.offset - 24 = omega (arith, placed) in
      subst (λ q. All (InFile bs header) q.0) (ok_injective e2)
        (
          subst
              (λ i.
                Recorded (drop i bs) (max_stored_size_for header.chunk_size) entry.header entry.tag)
              behind
              (parse_chunk_header-Recorded cursor.offset (max_stored_size_for header.chunk_size)
                initial_chunk entry.header (zeros 16) entry.tag parsed),
          walk_records-InFile rounds (index + 1) cursor' end others within more,
        )

  -- Every entry of a table that WalkChunkTable has accepted was read from the input.
  pub walk_chunk_table-InFile :
      (S : Services) (w : S.World) (entries : List ChunkEntry) (max_compressed : ℕ)
      → (walk_chunk_table S bs in_size header w).0 ≡ ok (entries, max_compressed)
      → header.chunk_count < 2 ^ 32
      → All (InFile bs header) entries
  walk_chunk_table-InFile S w entries max_compressed e few =
      let (room, last, walked, _) =
        walk_chunk_table-walked S bs in_size header w entries max_compressed few e in
      walk_records-InFile header.chunk_count 0 (record { offset = 64; max_compressed = 0 }) last
        entries room walked
