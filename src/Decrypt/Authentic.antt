-- ===== src/Decrypt/Authentic.antt =====
-- What a successful OpenChunk, and the loop over it, have checked (src/crypt/decrypt.cc).
use model_crypt.Common.{
  ℕ, zero, suc, ◌+◌, ◌-◌, ◌*◌, ◌%◌, ◌^◌, ◌≤◌, ◌<◌, ◌≡◌, refl, sym, ◌∙◌, ap, ◌⊎◌, inl, inr, true,
  false, List, [], ◌∷◌, ◌++◌, arith, length, get_or, min, append_assoc, Bool-cases,
}
use model_crypt.Common.Buffer.{Bytes, slice, length-slice, memcpy}
use model_crypt.Common.Segments.{IsFilled, memcpy-IsFilled, concat}
use model_crypt.Common.Result.{ok, ok_injective}
use model_crypt.Common.World.{bind-eq_ok}
use model_crypt.Services.{Services, IsSound}
use model_crypt.Format.Types.{FileHeader}
use model_crypt.Format.Sizes
use model_crypt.Format.Sizes.{chunk_count_for}
use model_crypt.Format.Sizes.Counts.{
  InRange, chunk_count_for_covers, offset_fits, offset_of_chunk, chunk_plain_size_step,
}
use model_crypt.Format.Record.{build_aad, build_nonce}
use model_crypt.Decrypt.Table.{ChunkEntry, initial_entry, chunk_plain_size, is_compressed}
use model_crypt.Decrypt.Chunks.{open_chunk, open_chunks}
use model_crypt.Decrypt.Bounds.{Tiles, Tiles-get_or}

chunk_plain_size_same : (p c i : ℕ) → Sizes.chunk_plain_size p c i ≡ chunk_plain_size p c i
unfolding chunk_plain_size Sizes.chunk_plain_size
chunk_plain_size_same p c i = refl

module _ (S : Services) (derived : Bytes) (bs : Bytes) (header : FileHeader) where
  -- The entry's ciphertext passed `open_sealed` under the nonce and the associated data of chunk
  -- `index`, and `plain` is what it opened to, or what that inflated to.
  pub record Authentic (index : ℕ) (entry : ChunkEntry) (plain : Bytes) : Type 0 where
    pub payload : Bytes
    pub world : S.World
    pub opens :
        (S.open_sealed derived
          (build_nonce header.nonce_prefix index)
          (build_aad bs index entry.header)
          (slice bs entry.offset entry.header.stored_size)
          entry.tag
          world).0
        ≡ ok payload
    pub content :
        (is_compressed entry.header ≡ false) × (payload ≡ plain)
        ⊎ (is_compressed entry.header ≡ true)
          × ((v : S.World) × ((S.decompress_chunk
                  (slice payload 0 entry.header.stored_size)
                  (chunk_plain_size header.plaintext_size header.chunk_size index)
                  v).0
                ≡ ok plain))
    pub size : length plain ≡ chunk_plain_size header.plaintext_size header.chunk_size index

  -- The plaintexts of the chunks from `index` on.
  abbrev pub AuthenticFrom : List ChunkEntry → ℕ → List Bytes → Type 0
  AuthenticFrom entries index [] = Unit
  AuthenticFrom entries index (plain ∷ plains) =
      Authentic index (get_or entries index initial_entry) plain
      × AuthenticFrom entries (index + 1) plains

  pub open_chunk-Authentic :
      IsSound S
      → (index : ℕ) (entry : ChunkEntry) (w : S.World) (plain : Bytes)
      → entry.offset + entry.header.stored_size ≤ length bs
      → (is_compressed entry.header ≡ false
          → entry.header.stored_size
            ≡ chunk_plain_size header.plaintext_size header.chunk_size index)
      → (open_chunk S derived bs header bs index entry
          (chunk_plain_size header.plaintext_size header.chunk_size index)
          w).0
        ≡ ok plain
      → Authentic index entry plain
  unfolding open_chunk
  open_chunk-Authentic sound index entry w plain inside raw e =
      let size = chunk_plain_size header.plaintext_size header.chunk_size index in
      let nonce = build_nonce header.nonce_prefix index in
      let aad = build_aad bs index entry.header in
      let text = slice bs entry.offset entry.header.stored_size in
      let call = S.open_sealed derived nonce aad text entry.tag in
      let (payload, opens, e1) = bind-eq_ok call _ w e in
      elim (Bool-cases (is_compressed entry.header)) [
        | inl packed ↦
            let inflates = rw packed at e1 in
            record {
              payload = payload;
              world = w;
              opens = opens;
              content = inr (packed, (_, inflates));
              size =
                  sound.decompress_length (slice payload 0 entry.header.stored_size) size _ plain
                    inflates;
            }
        | inr plainly ↦
            let same = ok_injective (rw plainly at e1) in
            record {
              payload = payload;
              world = w;
              opens = opens;
              content = inl (plainly, same);
              size =
                  ap length (sym same)
                  ∙ sound.open_length derived nonce aad text entry.tag w payload opens
                  ∙ length-slice bs entry.offset entry.header.stored_size inside
                  ∙ raw plainly;
            }
      ]

  module _ (sound : IsSound S) (range : InRange header.plaintext_size header.chunk_size)
      (counted : header.chunk_count ≡ chunk_count_for header.plaintext_size header.chunk_size)
      (entries : List ChunkEntry) (in_size : ℕ) (inside : in_size ≤ length bs)
      (tiles : Tiles header 0 64 entries in_size) (all : length entries ≡ header.chunk_count) where
    abbrev pub covered : ℕ → ℕ
    covered index = min (index * header.chunk_size) header.plaintext_size

    few : header.chunk_count ≤ 2 ^ 24
    few =
        omega
          (arith, counted, (chunk_count_for_covers header.plaintext_size header.chunk_size range).1)

    pub sized :
        (index : ℕ)
        → index < header.chunk_count
        → covered index + chunk_plain_size header.plaintext_size header.chunk_size index
          ≡ covered (index + 1)
    sized index low = rw (← chunk_plain_size_same header.plaintext_size header.chunk_size index) (
        chunk_plain_size_step header.plaintext_size header.chunk_size index range
          (omega (arith, few)))

    pub entry-Authentic :
        (index : ℕ) (w : S.World) (plain : Bytes)
        → index < header.chunk_count
        → (open_chunk S derived bs header bs index
            (get_or entries index initial_entry)
            (chunk_plain_size header.plaintext_size header.chunk_size index)
            w).0
          ≡ ok plain
        → Authentic index (get_or entries index initial_entry) plain
    entry-Authentic index w plain low e =
        let (fits, raw) =
          Tiles-get_or header 0 64 entries in_size index tiles (omega (arith, all)) in
        let same : 0 + index ≡ index = omega arith in
        open_chunk-Authentic sound index (get_or entries index initial_entry) w plain
          (omega (arith, fits, inside)) (rw same at raw) e

    -- The plaintexts that a loop has opened, and the buffer that they have completed.
    pub record Joined (rounds index : ℕ) (front result : Bytes) : Type 0 where
      pub plains : List Bytes
      pub count : length plains ≡ rounds
      pub each : AuthenticFrom entries index plains
      pub joined : result ≡ front ++ concat plains

    pub open_chunks-Joined :
        (rounds index : ℕ) (front out result : Bytes) (w : S.World)
        → index + rounds ≡ header.chunk_count
        → IsFilled out front (covered index) (header.plaintext_size - covered index)
        → (open_chunks S derived bs header bs entries rounds index out w).0 ≡ ok result
        → Joined rounds index front result
    unfolding open_chunks
    open_chunks-Joined zero index front out result w end f e =
        let p = header.plaintext_size in
        let ended : index ≡ chunk_count_for p header.chunk_size = omega (arith, counted, end) in
        let full : covered index ≡ p =
          rw ended (omega (arith, (chunk_count_for_covers p header.chunk_size range).2)) in
        let none_left : p - covered index ≡ 0 = omega (arith, full) in
        record {
          plains = [];
          count = refl;
          each = tt;
          joined = sym (ok_injective e) ∙ f.content ∙ rw none_left refl;
        }
    open_chunks-Joined (suc rounds) index front out result w end f e =
        let p = header.plaintext_size in
        let c = header.chunk_size in
        let low : index < header.chunk_count = omega (arith, end) in
        let (plain, opened, e1) =
          bind-eq_ok
            (open_chunk S derived bs header bs index (get_or entries index initial_entry)
              (chunk_plain_size p c index))
            _ w e in
        let one = entry-Authentic index w plain low opened in
        let here : index * c % 2 ^ 64 ≡ covered index = omega (
          arith,
          offset_fits p c index range (omega (arith, few)),
          offset_of_chunk p c index range (omega (arith, counted)),
        ) in
        let sum = sized index low in
        let filled : IsFilled (memcpy out (index * c % 2 ^ 64) plain) (front ++ plain)
            (covered (index + 1)) (p - covered (index + 1)) =
          rw here (
            memcpy-IsFilled plain (covered (index + 1)) (p - covered (index + 1)) f
              (omega (arith, sum, one.size)) (omega (arith, sum, one.size))) in
        let more =
          open_chunks-Joined rounds (index + 1) (front ++ plain)
            (memcpy out (index * c % 2 ^ 64) plain) result _ (omega (arith, end)) filled e1 in
        record {
          plains = plain ∷ more.plains;
          count = ap suc more.count;
          each = (one, more.each);
          joined = more.joined ∙ append_assoc front plain (concat more.plains);
        }
