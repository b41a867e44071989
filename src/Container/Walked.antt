-- ===== src/Container/Walked.antt =====
-- The walk of phase 1 finds the sealed chunks that the writer left.
use model_crypt.Common.{
  ℕ, suc, ◌+◌, ◌%◌, ◌^◌, ◌≤◌, ◌<◌, ◌≡◌, refl, sym, ◌∙◌, ap, subst, ◌⊎◌, inl, inr, true, false, ◌&&◌,
  List, [], ◌∷◌, ◌++◌, arith, length, length-append, ltb, some, append_assoc, if◌then◌else◌,
  bit_and, ◌==◌, ◌/=◌, drop,
}
use model_crypt.Common.Buffer.{Bytes, zeros}
use model_crypt.Common.Result.{ok}
use model_crypt.Services.{Services}
use model_crypt.Format.Types.{ChunkHeader, initial_chunk}
use model_crypt.Format.Sizes.{max_stored_size_for}
use model_crypt.Format.Record.{serialize_chunk_header, parse_chunk_header}
use model_crypt.Format.Record.RoundTrip.{length-serialize_chunk_header}
use model_crypt.Encrypt.Loop.{Job}
use model_crypt.Decrypt.Table.{
  ChunkEntry, chunk_plain_size, is_compressed, sub64, Cursor, walk_record, walk_records,
}
use model_crypt.Container.Sealed.{SealedChunk, Sealed, finished, next}
use model_crypt.Container.Opens.{Setting, OpensFrom, parsed, sealed-Opens, chunk_plain_size_same}

module _ (S : Services) (job : Job) (bs : Bytes) (setting : Setting job bs) where
  -- The chunk passes the checks that follow its record.
  record Passes (index : ℕ) (chunk : ChunkHeader) : Type 0 where
    raw :
        (is_compressed chunk ≡ false)
          × (chunk.stored_size
              ≡ chunk_plain_size job.header.plaintext_size job.header.chunk_size index)
        ⊎ (is_compressed chunk ≡ true) × (0 < chunk.stored_size) × (job.header.compression_id ≡ 1)

  sealed-Passes :
      (index : ℕ) (chunk : ChunkHeader) (tag text : Bytes)
      → SealedChunk S job index chunk tag text
      → index < 2 ^ 32
      → Passes index chunk
  sealed-Passes index chunk tag text one low = record {
    raw = elim one.chosen.kind [
      | inl (e, same) ↦ inl (
        ap (λ t. bit_and t 1 /= 0) e,
        one.chosen.stored
            ∙ ap length same
            ∙ (setting.sizes index low).0
            ∙ sym (chunk_plain_size_same job.header.plaintext_size job.header.chunk_size index),
      )
      | inr (e, some_bytes, want, _) ↦
          inr (ap (λ t. bit_and t 1 /= 0) e, some_bytes, setting.zlib want)
    ];
  }

  walk_record_lem :
      (index : ℕ) (cursor : Cursor) (chunk : ChunkHeader) (tag : Bytes)
      → parse_chunk_header
          (some (drop cursor.offset bs))
          (max_stored_size_for job.header.chunk_size)
          (some initial_chunk)
          (some (zeros 16))
        ≡ ok (chunk, tag)
      → cursor.offset + 24 + chunk.stored_size ≤ length bs
      → Passes index chunk
      → walk_record bs
          (length bs)
          job.header
          (max_stored_size_for job.header.chunk_size)
          index
          cursor
        ≡ ok (
          record { offset = cursor.offset + 24; header = chunk; tag = tag },
          record {
            offset = cursor.offset + 24 + chunk.stored_size;
            max_compressed =
                if is_compressed chunk && ltb cursor.max_compressed chunk.stored_size
                then chunk.stored_size
                else cursor.max_compressed;
          },
        )
  unfolding walk_record
  walk_record_lem index cursor chunk tag parsed inside passes =
      let short = setting.short in
      let a0 : ltb (sub64 (length bs) cursor.offset) 24 ≡ false = ground arith in
      let a1 : (cursor.offset + 24) % 2 ^ 64 ≡ cursor.offset + 24 = omega arith in
      let a2 : ltb (sub64 (length bs) (cursor.offset + 24)) chunk.stored_size ≡ false =
        ground arith in
      let a3 : (cursor.offset + 24 + chunk.stored_size) % 2 ^ 64
          ≡ cursor.offset + 24 + chunk.stored_size =
        omega arith in
      rw (a0, parsed, a1, a2, a3)
        (elim passes.raw [
          | inl (e, same) ↦
              let n1 : (chunk.stored_size
                    /= chunk_plain_size job.header.plaintext_size job.header.chunk_size index)
                  ≡ false =
                ground arith in
              rw (e, n1)
          | inr (e, some_bytes, zlib) ↦
              let n2 : (chunk.stored_size == 0) ≡ false = ground arith in
              let n3 : (job.header.compression_id /= 1) ≡ false = ground arith in rw (e, n2, n3)
        ])

  -- The table that the walk returns, and where it ends.
  pub record Walked (rounds index : ℕ) (cursor : Cursor) (size : ℕ) : Type 0 where
    pub entries : List ChunkEntry
    pub last : Cursor
    pub found :
        walk_records bs
          (length bs)
          job.header
          (max_stored_size_for job.header.chunk_size)
          rounds
          index
          cursor
        ≡ ok (entries, last)
    pub end : last.offset ≡ cursor.offset + size
    pub count : length entries ≡ rounds
    pub opens : OpensFrom S job bs setting index entries

  pub walk_records-Walked :
      {rounds index : ℕ} {body : Bytes} (a : Bytes) (max_compressed : ℕ)
      → Sealed S job rounds index body
      → bs ≡ a ++ body
      → index + rounds ≤ 2 ^ 32
      → Walked rounds index
          (record { offset = length a; max_compressed = max_compressed })
          (length body)
  unfolding walk_records
  walk_records-Walked a max_compressed finished place low = record {
    entries = [];
    last = record { offset = length a; max_compressed = max_compressed };
    found = refl;
    end = omega arith;
    count = refl;
    opens = tt;
  }
  walk_records-Walked {index = index} a max_compressed
        (next {rounds = n} chunk tag text rest one others) place low =
      let block = serialize_chunk_header chunk tag ++ text in
      let size : length block ≡ 24 + chunk.stored_size = omega (
        arith,
        length-append (serialize_chunk_header chunk tag) text,
        length-serialize_chunk_header chunk tag one.tagged,
        one.text_length,
      ) in
      let small : index < 2 ^ 32 = omega arith in
      let step =
        walk_record_lem index (record { offset = length a; max_compressed = max_compressed }) chunk
          tag (parsed S job bs setting index chunk tag text a rest one place small)
          (omega (
            arith,
            ap length place,
            length-append a (block ++ rest),
            length-append block rest,
            size,
          ))
          (sealed-Passes index chunk tag text one small) in
      let after : ℕ =
        if is_compressed chunk && ltb max_compressed chunk.stored_size
        then chunk.stored_size
        else max_compressed in
      let moved : length (a ++ block) ≡ length a + 24 + chunk.stored_size =
        omega (arith, length-append a block, size) in
      let more =
        subst
          (λ t. Walked n (index + 1) (record { offset = t; max_compressed = after }) (length rest))
          moved
          (walk_records-Walked (a ++ block) after others (place ∙ sym (append_assoc a block rest))
            (omega arith)) in
      record {
        entries = record { offset = length a + 24; header = chunk; tag = tag } ∷ more.entries;
        last = more.last;
        found = rw (step, more.found) refl;
        end = omega (arith, more.end, length-append block rest, size);
        count = ap suc more.count;
        opens =
            (sealed-Opens S job bs setting index chunk tag text a rest one place small, more.opens);
      }
