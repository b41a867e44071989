-- ===== src/Container/Opened.antt =====
-- Phases 2 and 3 put the plaintexts of the chunks together.
use model_crypt.Common.{
  ℕ, zero, suc, ◌+◌, ◌-◌, ◌*◌, ◌%◌, ◌^◌, ◌<◌, ◌≡◌, sym, ◌∙◌, ap, List, ◌++◌, arith, length, get_or,
  min, append-nil,
}
use model_crypt.Common.Buffer.{Bytes, slice, slice_self, slice_split, memcpy}
use model_crypt.Common.Segments.{IsFilled, memcpy-IsFilled}
use model_crypt.Common.Result.{ok}
use model_crypt.Common.World.{Effect, bind_ok}
use model_crypt.Services.{Services}
use model_crypt.Format.Sizes.{chunk_count_for}
use model_crypt.Format.Sizes.Counts.{
  chunk_count_for_covers, offset_fits, offset_of_chunk, chunk_plain_size_step,
}
use model_crypt.Encrypt.Loop.{Job}
use model_crypt.Decrypt.Table.{ChunkEntry, initial_entry, chunk_plain_size}
use model_crypt.Decrypt.Chunks.{open_chunk, open_chunks}
use model_crypt.Container.Sealed.{plain_of, plain_size_of}
use model_crypt.Container.Opens.{Setting, OpensFrom, OpensFrom-get_or, chunk_plain_size_same}

module _ (S : Services) (job : Job) (bs : Bytes) (setting : Setting job bs)
    (whole : length job.plain ≡ job.header.plaintext_size)
    (counted : job.header.chunk_count
      ≡ chunk_count_for job.header.plaintext_size job.header.chunk_size) where
  -- How much of the plaintext the chunks before `index` hold.
  abbrev pub covered : ℕ → ℕ
  covered index = min (index * job.header.chunk_size) job.header.plaintext_size

  -- The plaintext buffer once the chunks before `index` are there.
  abbrev pub Recovered : ℕ → Bytes → Type 0
  Recovered index out =
      IsFilled out (slice job.plain 0 (covered index)) (covered index)
        (job.header.plaintext_size - covered index)

  pub memcpy-Recovered :
      (index : ℕ) (out : Bytes)
      → index < job.header.chunk_count
      → Recovered index out
      → Recovered
          (index + 1)
          (memcpy out (index * job.header.chunk_size % 2 ^ 64) (plain_of job index))
  memcpy-Recovered index out low f =
      let p = job.header.plaintext_size in
      let c = job.header.chunk_size in
      let r = setting.range in
      let small : index < 2 ^ 32 = omega (arith, counted, (chunk_count_for_covers p c r).1) in
      let here : index * c % 2 ^ 64 ≡ covered index = omega (
        arith,
        offset_fits p c index r small,
        offset_of_chunk p c index r (omega (arith, counted)),
      ) in
      let size = plain_size_of job index in
      let sum : covered index + size ≡ covered (index + 1) =
        chunk_plain_size_step p c index r small in
      let sized : length (slice job.plain (covered index) size) ≡ size =
        rw here at (setting.sizes index small).0 in
      let joined : slice job.plain 0 (covered index) ++ slice job.plain (covered index) size
          ≡ slice job.plain 0 (covered (index + 1)) =
        sym (slice_split job.plain 0 (covered index) size (covered index) (omega arith))
        ∙ ap (slice job.plain 0) sum in
      rw (here, ← joined)
        (memcpy-IsFilled (slice job.plain (covered index) size) (covered (index + 1))
          (p - covered (index + 1)) f (omega (arith, sum, sized)) (omega (arith, sum, sized)))

  pub open_chunks-plain :
      (entries : List ChunkEntry) (rounds index : ℕ) (out : Bytes) (v : S.World)
      → OpensFrom S job bs setting 0 entries
      → length entries ≡ job.header.chunk_count
      → index + rounds ≡ job.header.chunk_count
      → Recovered index out
      → (open_chunks S job.derived bs job.header bs entries rounds index out v).0 ≡ ok job.plain
  unfolding open_chunks
  open_chunks-plain entries zero index out v opens long end f =
      let p = job.header.plaintext_size in
      let c = job.header.chunk_size in
      let e : index ≡ chunk_count_for p c = omega (arith, counted, end) in
      let all : covered index ≡ p =
        rw e (omega (arith, (chunk_count_for_covers p c setting.range).2)) in
      let none_left : p - covered index ≡ 0 = omega (arith, all) in
      ap ok (f.content ∙ rw (none_left, append-nil, all) (slice_self job.plain p whole))
  open_chunks-plain entries (suc rounds) index out v opens long end f =
      let p = job.header.plaintext_size in
      let c = job.header.chunk_size in
      let low : index < job.header.chunk_count = omega (arith, end) in
      let open_next : Effect S.World Bytes =
        open_chunk S job.derived bs job.header bs index (get_or entries index initial_entry)
          (chunk_plain_size p c index) in
      let others : Bytes → Effect S.World Bytes = λ plain.
        open_chunks S job.derived bs job.header bs entries rounds (index + 1)
          (memcpy out (index * c % 2 ^ 64) plain) in
      let same : 0 + index ≡ index = omega arith in
      let found =
        rw same at
          (OpensFrom-get_or S job bs setting 0 entries index opens (omega (arith, long))) in
      let one : (open_next v).0 ≡ ok (plain_of job index) =
        rw (chunk_plain_size_same p c index) (found v) in
      ap (λ r. r.0) (bind_ok open_next others v one)
      ∙ open_chunks-plain entries rounds (index + 1) _ (open_next v).1 opens long
          (omega (arith, end)) (memcpy-Recovered index out low f)
