-- ===== src/Decrypt/Verified.antt =====
-- What a successful DecryptBuffer has verified (src/crypt/decrypt.cc).
use model_crypt.Common.{
  ℕ, suc, ◌+◌, ◌-◌, ◌*◌, ◌^◌, ◌≤◌, ◌<◌, ◌≡◌, refl, sym, ◌∙◌, ap, some, List, [], ◌∷◌, arith, length,
  length-append, All, get_or, min, if◌then◌else◌, Bool-cases, inl, inr, ltb, not-ltb→le,
}
use model_crypt.Common.Buffer.{Bytes, IsByte, slice, memcpy, zeros}
use model_crypt.Common.Segments.{IsFilled, memcpy-IsFilled, concat}
use model_crypt.Common.Result.{ok, invalid_arg, too_large, ok_injective}
use model_crypt.Common.World.{done, lift, bind-eq_ok, checked-eq_ok}
use model_crypt.Services.{Services, IsSound}
use model_crypt.Format.Types.{FileHeader, initial_header}
use model_crypt.Format.Sizes.{chunk_count_for}
use model_crypt.Format.Sizes.Counts.{InRange, chunk_count_for_covers}
use model_crypt.Format.Header.{parse_file_header}
use model_crypt.Format.Header.Validity.{IsValid}
use model_crypt.Format.Header.Canonical.{serialize_file_header-parse_file_header}
use model_crypt.Encrypt.Buffer.{allocate}
use model_crypt.Decrypt.Table.{ChunkEntry, initial_entry, chunk_plain_size}
use model_crypt.Decrypt.Chunks.{open_chunk, open_chunks}
use model_crypt.Decrypt.Buffer.{walk_chunk_table, open_file, decrypt_buffer}
use model_crypt.Decrypt.Bounds.{Tiles, walk_chunk_table-Tiles}
use model_crypt.Decrypt.Records.{InFile, walk_chunk_table-InFile}
use model_crypt.Decrypt.Authentic.{
  AuthenticFrom, Joined, open_chunks-Joined, entry-Authentic, sized,
}

module _ (S : Services) (derived bs : Bytes) (header : FileHeader) (sound : IsSound S)
    (range : InRange header.plaintext_size header.chunk_size)
    (counted : header.chunk_count ≡ chunk_count_for header.plaintext_size header.chunk_size)
    (entries : List ChunkEntry) (in_size : ℕ) (inside : in_size ≤ length bs)
    (tiles : Tiles header 0 64 entries in_size) (all : length entries ≡ header.chunk_count) where
  -- Chunk 0, copied into the zeroed plaintext buffer.
  start-IsFilled :
      (first : Bytes)
      → length first ≡ chunk_plain_size header.plaintext_size header.chunk_size 0
      → 0 < header.chunk_count
      → IsFilled
          (if ltb 0 (chunk_plain_size header.plaintext_size header.chunk_size 0)
            then memcpy (zeros header.plaintext_size) 0 first
            else zeros header.plaintext_size)
          first
          (min (1 * header.chunk_size) header.plaintext_size)
          (header.plaintext_size - min (1 * header.chunk_size) header.plaintext_size)
  start-IsFilled first long some_chunk =
      let p = header.plaintext_size in
      let c = header.chunk_size in
      let sum =
        sized S derived bs header sound range counted entries in_size inside tiles all 0
          some_chunk in
      let blank : IsFilled (zeros p) [] 0 p = record { content = refl; filled = refl } in
      elim (Bool-cases (ltb 0 (chunk_plain_size p c 0))) [
        | inl some_bytes ↦ rw some_bytes (
            memcpy-IsFilled first (min (1 * c) p) (p - min (1 * c) p) blank
              (omega (arith, sum, long)) (omega (arith, sum, long)))
        | inr empty ↦
            let size : min (1 * c) p ≡ 0 =
              omega (arith, sum, not-ltb→le 0 (chunk_plain_size p c 0) empty) in
            let nothing : length first ≡ 0 = omega (arith, sum, long, size) in
            let all_left : p - 0 ≡ p = omega arith in
            rw (empty, size, all_left) (empty-IsFilled first p nothing)
      ]
    where
      empty-IsFilled : (a : Bytes) (n : ℕ) → length a ≡ 0 → IsFilled (zeros n) a 0 n
      empty-IsFilled [] n e = record { content = refl; filled = refl }
      empty-IsFilled (b ∷ a) n e = absurd (omega arith)

  pub open_file-Joined :
      (max_compressed : ℕ) (w : S.World) (plain : Bytes) (n : ℕ)
      → (open_file S bs header derived entries max_compressed w).0 ≡ ok (plain, n)
      → Joined S derived bs header sound range counted entries in_size inside tiles all
          header.chunk_count 0 [] plain
        × (n ≡ header.plaintext_size)
  unfolding open_file
  open_file-Joined max_compressed w plain n e =
      let p = header.plaintext_size in
      let size = chunk_plain_size p header.chunk_size 0 in
      let (some_chunk, _, _, _) = chunk_count_for_covers p header.chunk_size range in
      let low : 0 < header.chunk_count = omega (arith, counted, some_chunk) in
      let (_, _, e1) =
        bind-eq_ok (if ltb 0 max_compressed then allocate S max_compressed else done tt) _ w e in
      let (_, _, e2) = bind-eq_ok (allocate S size) _ _ e1 in
      let (first, opened, e3) =
        bind-eq_ok (open_chunk S derived bs header bs 0 (get_or entries 0 initial_entry) size) _ _
          e2 in
      let (_, e4) = checked-eq_ok (ltb (2 ^ 64 - 1) p) too_large _ _ e3 in
      let (_, _, e5) = bind-eq_ok (allocate S p) _ _ e4 in
      let start = if ltb 0 size then memcpy (zeros p) 0 first else zeros p in
      let (result, others, e6) =
        bind-eq_ok (open_chunks S derived bs header bs entries (header.chunk_count - 1) 1 start) _ _
          e5 in
      let one =
        entry-Authentic S derived bs header sound range counted entries in_size inside tiles all 0 _
          first low opened in
      let more =
        open_chunks-Joined S derived bs header sound range counted entries in_size inside tiles all
          (header.chunk_count - 1) 1 first start result _ (omega (arith, low))
          (start-IsFilled first one.size low) others in
      let same = ok_injective e6 in
      (
        record {
          plains = first ∷ more.plains;
          count = omega (arith, more.count, low);
          each = (one, more.each);
          joined = sym (ap (λ q. q.0) same) ∙ more.joined;
        },
        sym (ap (λ q. q.1) same),
      )

  -- The plaintexts from `index` on are as long as the part of the whole that is left.
  length-AuthenticFrom :
      (index : ℕ) (plains : List Bytes)
      → AuthenticFrom S derived bs header entries index plains
      → index + length plains ≤ header.chunk_count
      → min (index * header.chunk_size) header.plaintext_size + length (concat plains)
        ≡ min ((index + length plains) * header.chunk_size) header.plaintext_size
  length-AuthenticFrom index [] each low =
      let e : index + 0 ≡ index = omega arith in rw e (omega arith)
  length-AuthenticFrom index (plain ∷ plains) (one, each) low =
      let e : index + suc (length plains) ≡ index + 1 + length plains = omega arith in
      rw e (
        omega (
          arith,
          length-append plain (concat plains),
          one.size,
          sized S derived bs header sound range counted entries in_size inside tiles all index
              (omega (arith, low)),
          length-AuthenticFrom (index + 1) plains each (omega (arith, low)),
        ))

-- What stands behind a plaintext of `n` bytes: a valid header that says so, a table that tiles the
-- input and holds, one entry for each chunk, the flags, sizes and tags of the input's records, a key derived from the header's salt, and for every chunk a successful authentication.
pub record Verified (S : Services) (key bs : Bytes) (in_size : ℕ) (plain : Bytes) (n : ℕ)
    : Type 0 where
  pub header : FileHeader
  pub parsed : parse_file_header (some bs) in_size (some initial_header) ≡ ok header
  pub valid : IsValid header
  pub entries : List ChunkEntry
  pub listed : length entries ≡ header.chunk_count
  pub tiles : Tiles header 0 64 entries in_size
  pub records : All (InFile bs header) entries
  pub derived : Bytes
  pub world : S.World
  pub derivation :
      (S.derive_key key header.salt header.kdf_log_n header.kdf_r header.kdf_p world).0 ≡ ok derived
  pub plains : List Bytes
  pub count : length plains ≡ header.chunk_count
  pub each : AuthenticFrom S derived bs header entries 0 plains
  pub joined : plain ≡ concat plains
  pub size : n ≡ header.plaintext_size
  pub whole : length plain ≡ n

-- Let the platform's calls be sound. When DecryptBuffer of `in_size` bytes in memory succeeds, its
-- header parsed as a valid one, its chunk table has an entry for every chunk and tiles the input to the last byte, each entry of it has the flags,
-- the stored size and the tag that stand in the 24 bytes of the input before its ciphertext, every chunk that
-- the header counts passed `open_sealed` with the tag of its entry, under the derived key, its own nonce and the associated
-- data of the file's header, its index and its record, and the plaintext is those chunks' plaintexts
-- in order, of the length that the header declares and that the call returns.
pub decrypt_buffer-Verified :
    (S : Services)
    → IsSound S
    → (key : Bytes) (key_size : ℕ) (bs : Bytes) (in_size : ℕ) (out : Bytes) (out_size : ℕ)
      (w : S.World) (plain : Bytes) (n : ℕ)
    → All IsByte bs
    → in_size ≤ length bs
    → in_size < 2 ^ 64
    → (decrypt_buffer S (some key) key_size (some bs) in_size (some out) (some out_size) w).0
      ≡ ok (plain, n)
    → Verified S (slice key 0 key_size) bs in_size plain n
unfolding decrypt_buffer
decrypt_buffer-Verified S sound key key_size bs in_size out out_size w plain n bytes inside host e =
    let (_, e1) = checked-eq_ok (ltb key_size 12) invalid_arg _ w e in
    let (header, parsed, e2) =
      bind-eq_ok (lift (parse_file_header (some bs) in_size (some initial_header))) _ w e1 in
    let ((entries, max_compressed), walked, e3) =
      bind-eq_ok (walk_chunk_table S bs in_size header) _ _ e2 in
    let (derived, derivation, e4) =
      bind-eq_ok
        (S.derive_key (slice key 0 key_size) header.salt header.kdf_log_n header.kdf_r header.kdf_p)
        _ _ e3 in
    let (valid, _) =
      serialize_file_header-parse_file_header bs in_size initial_header header bytes inside
        parsed in
    let range : InRange header.plaintext_size header.chunk_size = record {
      low = valid.size_low;
      high = valid.size_high;
      plain = valid.plaintext;
    } in
    let (_, few, all_bytes, _) =
      chunk_count_for_covers header.plaintext_size header.chunk_size range in
    let (all, tiles) =
      walk_chunk_table-Tiles S bs in_size header _ entries max_compressed host
        (omega (arith, valid.count, few)) walked in
    let records =
      walk_chunk_table-InFile bs bytes in_size header host S _ entries max_compressed walked
        (omega (arith, valid.count, few)) in
    let (joined, size) =
      open_file-Joined S derived bs header sound range valid.count entries in_size inside tiles all
        max_compressed _ plain n e4 in
    let measured =
      length-AuthenticFrom S derived bs header sound range valid.count entries in_size inside tiles
        all 0 joined.plains joined.each (omega (arith, joined.count)) in
    let chunks : 0 + length joined.plains
        ≡ chunk_count_for header.plaintext_size header.chunk_size =
      omega (arith, joined.count, valid.count) in
    record {
      header = header;
      parsed = parsed;
      valid = valid;
      entries = entries;
      listed = all;
      tiles = tiles;
      records = records;
      derived = derived;
      world = _;
      derivation = derivation;
      plains = joined.plains;
      count = joined.count;
      each = joined.each;
      joined = joined.joined;
      size = size;
      whole = ap length joined.joined ∙ omega (arith, rw chunks at measured, all_bytes, size);
    }
