-- ===== src/Container/Opens.antt =====
-- An entry of the reader's table that points at a sealed chunk opens to its plaintext.
use model_crypt.Common.{
  ℕ, zero, suc, ◌+◌, ◌^◌, ◌≤◌, ◌<◌, ◌≡◌, refl, sym, ◌∙◌, ap, subst, inl, inr, true, false, not,
  List, [], ◌∷◌, ◌++◌, arith, length, length-append, All, All-drop, some, append_assoc, get_or,
  if◌then◌else◌, bit_and, ◌/=◌, drop, drop-append,
}
use model_crypt.Common.Buffer.{Bytes, IsByte, slice, slice_self, slice-append, zeros}
use model_crypt.Common.Result.{ok}
use model_crypt.Common.World.{Effect, done, bind_ok}
use model_crypt.Services.{Services}
use model_crypt.Format.Types.{ChunkHeader, initial_chunk}
use model_crypt.Format.Sizes
use model_crypt.Format.Sizes.{max_stored_size_for}
use model_crypt.Format.Sizes.Counts.{InRange, max_stored_size_for_lem}
use model_crypt.Format.Record.{serialize_chunk_header, build_aad, build_nonce, parse_chunk_header}
use model_crypt.Format.Record.RoundTrip.{
  length-serialize_chunk_header, parse_chunk_header-serialize_chunk_header,
}
use model_crypt.Encrypt.Loop.{Job}
use model_crypt.Decrypt.Table.{ChunkEntry, initial_entry, chunk_plain_size, is_compressed}
use model_crypt.Decrypt.Chunks.{open_chunk}
use model_crypt.Container.Sealed.{SealedChunk, SealedChunk-known, plain_of, plain_size_of}

-- The reader's copy of ChunkPlainSize is the writer's.
pub chunk_plain_size_same : (p c i : ℕ) → chunk_plain_size p c i ≡ Sizes.chunk_plain_size p c i
unfolding chunk_plain_size Sizes.chunk_plain_size
chunk_plain_size_same p c i = refl

build_aad_prefix :
    (f g : Bytes) (i : ℕ) (chunk : ChunkHeader)
    → slice f 0 64 ≡ slice g 0 64
    → build_aad f i chunk ≡ build_aad g i chunk
unfolding build_aad
build_aad_prefix f g i chunk e = rw e

-- A file that a job has written, as far as its chunks are concerned.
pub record Setting (job : Job) (bs : Bytes) : Type 0 where
  pub bytes : All IsByte bs
  pub short : length bs < 2 ^ 63
  pub range : InRange job.header.plaintext_size job.header.chunk_size
  pub same_header : slice bs 0 64 ≡ slice job.serialized 0 64
  pub zlib : job.want_compression ≡ true → job.header.compression_id ≡ 1
  pub sizes :
      (k : ℕ)
      → k < 2 ^ 32
      → (length (plain_of job k) ≡ plain_size_of job k)
        × (plain_size_of job k ≤ job.header.chunk_size)

module _ (S : Services) (job : Job) (bs : Bytes) (setting : Setting job bs) where
  -- The entry's chunk opens to the plaintext of chunk `index`.
  abbrev pub Opens : ℕ → ChunkEntry → Type 0
  Opens index entry =
      (v : S.World)
      → (open_chunk S job.derived bs job.header bs index entry (plain_size_of job index) v).0
        ≡ ok (plain_of job index)

  abbrev pub OpensFrom : ℕ → List ChunkEntry → Type 0
  OpensFrom index [] = Unit
  OpensFrom index (entry ∷ entries) = Opens index entry × OpensFrom (index + 1) entries

  pub OpensFrom-get_or :
      (index : ℕ) (entries : List ChunkEntry) (k : ℕ)
      → OpensFrom index entries
      → k < length entries
      → Opens (index + k) (get_or entries k initial_entry)
  OpensFrom-get_or index [] k o h = absurd (omega arith)
  OpensFrom-get_or index (entry ∷ entries) zero o h =
      let e : index + 0 ≡ index = omega arith in rw e o.0
  OpensFrom-get_or index (entry ∷ entries) (suc k) o h =
      let e : index + suc k ≡ index + 1 + k = omega arith in
      rw e (OpensFrom-get_or (index + 1) entries k o.1 (omega arith))

  module _ (index : ℕ) (chunk : ChunkHeader) (tag text a rest : Bytes)
      (one : SealedChunk S job index chunk tag text)
      (place : bs ≡ a ++ ((serialize_chunk_header chunk tag ++ text) ++ rest))
      (low : index < 2 ^ 32) where
    abbrev pub entry : ChunkEntry
    entry = record { offset = length a + 24; header = chunk; tag = tag }

    head : length (a ++ serialize_chunk_header chunk tag) ≡ length a + 24
    head = omega (
      arith,
      length-append a (serialize_chunk_header chunk tag),
      length-serialize_chunk_header chunk tag one.tagged,
    )

    split : bs ≡ (a ++ serialize_chunk_header chunk tag) ++ (text ++ rest)
    split = place ∙ simp append_assoc

    text_at : slice bs (length a + 24) chunk.stored_size ≡ text
    text_at =
        rw (split, ← append_assoc (a ++ serialize_chunk_header chunk tag) text rest)
          (slice-append (a ++ serialize_chunk_header chunk tag) text rest _ _ head one.text_length)

    rest-IsByte : All IsByte (text ++ rest)
    rest-IsByte =
        subst (All IsByte)
          (ap (drop (length (a ++ serialize_chunk_header chunk tag))) split
            ∙ drop-append (a ++ serialize_chunk_header chunk tag) (text ++ rest))
          (All-drop IsByte (length (a ++ serialize_chunk_header chunk tag)) bs setting.bytes)

    pub parsed :
        parse_chunk_header
          (some (drop (length a) bs))
          (max_stored_size_for job.header.chunk_size)
          (some initial_chunk)
          (some (zeros 16))
        ≡ ok (chunk, tag)
    parsed =
        let (sized, full) = setting.sizes index low in
        let (_, room) = max_stored_size_for_lem job.header.chunk_size setting.range.high in
        rw (place, drop-append a ((serialize_chunk_header chunk tag ++ text) ++ rest), append_assoc)
          (parse_chunk_header-serialize_chunk_header chunk initial_chunk tag (text ++ rest)
            (zeros 16) (max_stored_size_for job.header.chunk_size)
            record {
              stored = omega (arith, one.chosen.bound, sized, full, room);
              width = one.width;
              known = SealedChunk-known one;
            }
            one.tagged one.tag_bytes rest-IsByte)

    opened :
        (v : S.World)
        → (S.open_sealed job.derived
            (build_nonce job.header.nonce_prefix index)
            (build_aad bs index chunk)
            (slice bs (length a + 24) chunk.stored_size)
            tag
            v).0
          ≡ ok one.payload
    opened v =
        rw (text_at, build_aad_prefix bs job.serialized index chunk setting.same_header)
          (one.opens v)

    pub sealed-Opens : Opens index entry
    unfolding open_chunk
    sealed-Opens v =
        let call =
          S.open_sealed job.derived (build_nonce job.header.nonce_prefix index)
            (build_aad bs index chunk) (slice bs (length a + 24) chunk.stored_size) tag in
        let inflate : Bytes → Effect S.World Bytes =
          λ o. S.decompress_chunk (slice o 0 chunk.stored_size) (plain_size_of job index) in
        let rest_of : Bytes → Effect S.World Bytes =
          λ o. if not (is_compressed chunk) then done o else inflate o in
        let step = ap (λ r. r.0) (bind_ok call rest_of v (opened v)) in
        elim one.chosen.kind [
          | inl (e, same) ↦
              let raw : is_compressed chunk ≡ false = ap (λ t. bit_and t 1 /= 0) e in
              step ∙ rw raw (ap ok same)
          | inr (e, _, _, inflates) ↦
              let packed : is_compressed chunk ≡ true = ap (λ t. bit_and t 1 /= 0) e in
              let whole : slice one.payload 0 chunk.stored_size ≡ one.payload =
                slice_self one.payload chunk.stored_size (sym one.chosen.stored) in
              step ∙ rw (packed, whole) (rw (setting.sizes index low).0 at (inflates (call v).1))
        ]
