-- ===== src/Decrypt/Bounds.antt =====
-- Where the table of WalkChunkTable points (src/crypt/decrypt.cc).
use model_crypt.Common.{
  ℕ, zero, suc, ◌+◌, ◌-◌, ◌*◌, ◌%◌, ◌^◌, ◌≤◌, ◌<◌, ◌≡◌, refl, ap, subst, some, false, not, ◌&&◌,
  List, [], ◌∷◌, arith, length, get_or, ltb, not-ltb→le, ◌==◌, ◌/=◌, drop,
}
use model_crypt.Common.Buffer.{Bytes, zeros}
use model_crypt.Common.Result.{take_step, pass_check, ok, format, too_large, ok_injective}
use model_crypt.Common.World.{bind-eq_ok, checked-eq_ok, lift}
use model_crypt.Services.{Services}
use model_crypt.Format.Types.{FileHeader, ChunkHeader, initial_chunk}
use model_crypt.Format.Sizes.{max_stored_size_for}
use model_crypt.Format.Record.{parse_chunk_header}
use model_crypt.Encrypt.Buffer.{allocate}
use model_crypt.Decrypt.Table.{
  ChunkEntry, initial_entry, Cursor, is_compressed, chunk_plain_size, sub64, walk_record,
  walk_records,
}
use model_crypt.Decrypt.Buffer.{walk_chunk_table}

parse_chunk_header-stored :
    (bs old_tag : Bytes) (max_stored_size : ℕ) (old chunk : ChunkHeader) (tag : Bytes)
    → parse_chunk_header (some bs) max_stored_size (some old) (some old_tag) ≡ ok (chunk, tag)
    → chunk.stored_size ≤ max_stored_size
unfolding parse_chunk_header
parse_chunk_header-stored bs old_tag max_stored_size old chunk tag e = ground arith

-- The entries lie end to end from `start` to `end`, for the chunks from `index` on: each behind a
-- 24-byte record, no longer than a chunk may be, and an uncompressed one as long as its plaintext.
abbrev pub Tiles : FileHeader → ℕ → ℕ → List ChunkEntry → ℕ → Type 0
Tiles header index start [] end = start ≡ end
Tiles header index start (entry ∷ entries) end =
    (entry.offset ≡ start + 24)
    × (entry.header.stored_size ≤ max_stored_size_for header.chunk_size)
    × (is_compressed entry.header ≡ false
        → entry.header.stored_size ≡ chunk_plain_size header.plaintext_size header.chunk_size index)
    × Tiles header (index + 1) (start + 24 + entry.header.stored_size) entries end

Tiles-le :
    (header : FileHeader) (index start : ℕ) (entries : List ChunkEntry) (end : ℕ)
    → Tiles header index start entries end
    → start ≤ end
Tiles-le header index start [] end t = omega (arith, t)
Tiles-le header index start (entry ∷ entries) end (_, _, _, t) =
    omega (arith, Tiles-le header (index + 1) (start + 24 + entry.header.stored_size) entries end t)

-- The ciphertext of entry `k` lies inside the file.
pub Tiles-get_or :
    (header : FileHeader) (index start : ℕ) (entries : List ChunkEntry) (end k : ℕ)
    → Tiles header index start entries end
    → k < length entries
    → ((get_or entries k initial_entry).offset + (get_or entries k initial_entry).header.stored_size
        ≤ end)
      × (is_compressed (get_or entries k initial_entry).header ≡ false
          → (get_or entries k initial_entry).header.stored_size
            ≡ chunk_plain_size header.plaintext_size header.chunk_size (index + k))
Tiles-get_or header index start [] end k t h = absurd (omega arith)
Tiles-get_or header index start (entry ∷ entries) end zero (placed, _, raw, t) h =
    let e : index + 0 ≡ index = omega arith in
    rw e (
      omega (
        arith,
        placed,
        Tiles-le header (index + 1) (start + 24 + entry.header.stored_size) entries end t,
      ),
      raw,
    )
Tiles-get_or header index start (entry ∷ entries) end (suc k) (_, _, _, t) h =
    let e : index + suc k ≡ index + 1 + k = omega arith in
    rw e (
      Tiles-get_or header (index + 1) (start + 24 + entry.header.stored_size) entries end k t
        (omega arith))

module _ (bs : Bytes) (in_size : ℕ) (header : FileHeader) (host : in_size < 2 ^ 64) where
  pub walk_record-step :
      (index : ℕ) (cursor cursor' : Cursor) (entry : ChunkEntry)
      → cursor.offset ≤ in_size
      → walk_record bs in_size header (max_stored_size_for header.chunk_size) index cursor
        ≡ ok (entry, cursor')
      → (entry.offset ≡ cursor.offset + 24)
        × (entry.header.stored_size ≤ max_stored_size_for header.chunk_size)
        × (is_compressed entry.header ≡ false
            → entry.header.stored_size
              ≡ chunk_plain_size header.plaintext_size header.chunk_size index)
        × (cursor'.offset ≡ cursor.offset + 24 + entry.header.stored_size)
        × (cursor'.offset ≤ in_size)
        × (parse_chunk_header
              (some (drop cursor.offset bs))
              (max_stored_size_for header.chunk_size)
              (some initial_chunk)
              (some (zeros 16))
            ≡ ok (entry.header, entry.tag))
  unfolding walk_record
  walk_record-step index cursor cursor' entry inside e =
      let (room, e0) = pass_check (ltb (sub64 in_size cursor.offset) 24) format _ e in
      let ((chunk, tag), parsed, e1) =
        take_step
          (parse_chunk_header (some (drop cursor.offset bs)) (max_stored_size_for header.chunk_size)
            (some initial_chunk) (some (zeros 16)))
          _ e0 in
      let offset = (cursor.offset + 24) % 2 ^ 64 in
      let (payload, e2) = pass_check (ltb (sub64 in_size offset) chunk.stored_size) format _ e1 in
      let plain_size = chunk_plain_size header.plaintext_size header.chunk_size index in
      let packed = is_compressed chunk in
      let (fits, e3) = pass_check (not packed && chunk.stored_size /= plain_size) format _ e2 in
      let (_, e4) = pass_check (packed && chunk.stored_size == 0) format _ e3 in
      let (_, e5) = pass_check (packed && header.compression_id /= 1) format _ e4 in
      let same = ok_injective e5 in
      let behind : cursor.offset + 24 ≤ in_size =
        omega (arith, not-ltb→le (sub64 in_size cursor.offset) 24 room) in
      let after : cursor.offset + 24 + chunk.stored_size ≤ in_size =
        omega (arith, not-ltb→le (sub64 in_size offset) chunk.stored_size payload) in
      subst
        (λ q.
          (q.0.offset ≡ cursor.offset + 24)
          × (q.0.header.stored_size ≤ max_stored_size_for header.chunk_size)
          × (is_compressed q.0.header ≡ false → q.0.header.stored_size ≡ plain_size)
          × (q.1.offset ≡ cursor.offset + 24 + q.0.header.stored_size)
          × (q.1.offset ≤ in_size)
          × (parse_chunk_header (some (drop cursor.offset bs))
                (max_stored_size_for header.chunk_size) (some initial_chunk) (some (zeros 16))
              ≡ ok (q.0.header, q.0.tag)))
        same
        (
          omega arith,
          parse_chunk_header-stored (drop cursor.offset bs) (zeros 16)
              (max_stored_size_for header.chunk_size) initial_chunk chunk tag parsed,
          λ raw. ground (arith, rw raw at fits),
          omega arith,
          omega arith,
          parsed,
        )

  pub walk_records-Tiles :
      (rounds index : ℕ) (cursor last : Cursor) (entries : List ChunkEntry)
      → cursor.offset ≤ in_size
      → walk_records bs in_size header (max_stored_size_for header.chunk_size) rounds index cursor
        ≡ ok (entries, last)
      → (length entries ≡ rounds) × Tiles header index cursor.offset entries last.offset
  unfolding walk_records
  walk_records-Tiles zero index cursor last entries inside e =
      let same = ok_injective e in rw (← ap (λ t. t.0) same, ← ap (λ t. t.1) same) (refl, refl)
  walk_records-Tiles (suc rounds) index cursor last entries inside e =
      let ((entry, cursor'), one, e1) =
        take_step
          (walk_record bs in_size header (max_stored_size_for header.chunk_size) index cursor) _
          e in
      let ((others, end), more, e2) =
        take_step
          (walk_records bs in_size header (max_stored_size_for header.chunk_size) rounds (index + 1)
            cursor')
          _ e1 in
      let same = ok_injective e2 in
      let (placed, sized, raw, moved, within, _) =
        walk_record-step index cursor cursor' entry inside one in
      let (count, tiles) = walk_records-Tiles rounds (index + 1) cursor' end others within more in
      subst (λ q. (length q.0 ≡ suc rounds) × Tiles header index cursor.offset q.0 q.1.offset) same
        (
          ap suc count,
          (
            placed,
            sized,
            raw,
            subst (λ t. Tiles header (index + 1) t others end.offset) moved tiles,
          ),
        )

-- A table that WalkChunkTable accepts is the one that its loop has filled, up to the end of the input.
pub walk_chunk_table-walked :
    (S : Services) (bs : Bytes) (in_size : ℕ) (header : FileHeader) (w : S.World)
    (entries : List ChunkEntry) (max_compressed : ℕ)
    → header.chunk_count < 2 ^ 32
    → (walk_chunk_table S bs in_size header w).0 ≡ ok (entries, max_compressed)
    → (64 ≤ in_size)
      × (last : Cursor) × (walk_records bs in_size header
            (max_stored_size_for header.chunk_size)
            header.chunk_count
            0
            (record { offset = 64; max_compressed = 0 })
          ≡ ok (entries, last))
      × (last.offset ≡ in_size)
unfolding walk_chunk_table
walk_chunk_table-walked S bs in_size header w entries max_compressed few e =
    let minimum = (64 + header.chunk_count * 24) % 2 ^ 64 in
    let table = header.chunk_count * 32 % 2 ^ 64 in
    let (room, e1) = checked-eq_ok (ltb in_size minimum) format _ w e in
    let (_, e2) = checked-eq_ok (ltb (2 ^ 64 - 1) table) too_large _ w e1 in
    let (_, _, e3) = bind-eq_ok (allocate S table) _ w e2 in
    let walk =
      walk_records bs in_size header (max_stored_size_for header.chunk_size) header.chunk_count 0
        (record { offset = 64; max_compressed = 0 }) in
    let ((found, last), walked, e4) = bind-eq_ok (lift walk) _ _ e3 in
    let (ends, e5) = checked-eq_ok (last.offset /= in_size) format _ _ e4 in
    let same = ok_injective e5 in
    (
      omega (arith, not-ltb→le in_size minimum room),
      last,
      subst (λ t. walk ≡ ok (t, last)) (ap (λ q. q.0) same) walked,
      ground (arith, ends),
    )

-- When WalkChunkTable succeeds on an input that fits memory, with a chunk count of 32 bits, its table has one entry for every chunk
-- that the header counts, and the entries tile the input: the first record stands behind the 64
-- bytes of the header, each ciphertext begins 24 bytes behind its record and is no longer than a
-- chunk may be, an uncompressed one is as long as its plaintext, each further record begins where the ciphertext before it ends, and the last
-- ciphertext ends with the input.
pub walk_chunk_table-Tiles :
    (S : Services) (bs : Bytes) (in_size : ℕ) (header : FileHeader) (w : S.World)
    (entries : List ChunkEntry) (max_compressed : ℕ)
    → in_size < 2 ^ 64
    → header.chunk_count < 2 ^ 32
    → (walk_chunk_table S bs in_size header w).0 ≡ ok (entries, max_compressed)
    → (length entries ≡ header.chunk_count) × Tiles header 0 64 entries in_size
walk_chunk_table-Tiles S bs in_size header w entries max_compressed host few e =
    let (room, last, walked, ends) =
      walk_chunk_table-walked S bs in_size header w entries max_compressed few e in
    let (count, tiles) =
      walk_records-Tiles bs in_size header host header.chunk_count 0
        (record { offset = 64; max_compressed = 0 }) last entries room walked in
    (count, subst (Tiles header 0 64 entries) ends tiles)
