-- ===== src/Container/Accepted.antt =====
-- Phase 1 accepts a written file, and phases 2 and 3 return its plaintext.
use model_crypt.Common.{
  ℕ, ◌+◌, ◌-◌, ◌*◌, ◌%◌, ◌^◌, ◌≤◌, ◌≡◌, refl, subst, Bool, true, false, ◌++◌, arith, length,
  length-append, All, All-append, ltb, ◌/=◌, get_or, min, if◌then◌else◌, Bool-cases, inl, inr,
  le→not-ltb, not-ltb→le,
}
use model_crypt.Common.Buffer.{Bytes, IsByte, slice, memcpy, zeros}
use model_crypt.Common.Segments.{IsFilled}
use model_crypt.Common.Result.{ok}
use model_crypt.Common.World.{done, bind_then}
use model_crypt.Services.{Services, Inverts}
use model_crypt.Format.Sizes.{chunk_count_for}
use model_crypt.Format.Sizes.Counts.{chunk_count_for_covers, chunk_plain_size_step}
use model_crypt.Format.Record.{serialize_chunk_header}
use model_crypt.Format.Record.RoundTrip.{
  serialize_chunk_header-IsByte, length-serialize_chunk_header,
}
use model_crypt.Encrypt.Loop.{Job}
use model_crypt.Encrypt.Buffer.{allocate}
use model_crypt.Decrypt.Table.{initial_entry}
use model_crypt.Decrypt.Chunks.{open_chunk, open_chunks}
use model_crypt.Decrypt.Buffer.{walk_chunk_table, open_file}
use model_crypt.Container.Sealed.{
  SealedChunk-known, Sealed, finished, next, plain_of, plain_size_of,
}
use model_crypt.Container.Opens.{Setting, OpensFrom-get_or, chunk_plain_size_same}
use model_crypt.Container.Walked.{Walked, walk_records-Walked}
use model_crypt.Container.Opened.{open_chunks-plain, memcpy-Recovered, Recovered}

pub allocate-ok : (S : Services) → Inverts S → (n : ℕ) (v : S.World) → (allocate S n v).0 ≡ ok tt
unfolding allocate
allocate-ok S inverts n v = rw (inverts.reset_succeeds n v)

scratch-ok :
    (S : Services)
    → Inverts S
    → (b : Bool) (n : ℕ) (v : S.World) → ((if b then allocate S n else done tt) v).0 ≡ ok tt
scratch-ok S inverts true n v = allocate-ok S inverts n v
scratch-ok S inverts false n v = refl

nothing-IsFilled : (a : Bytes) (n : ℕ) → IsFilled (zeros n) (slice a 0 0) 0 n
unfolding slice
nothing-IsFilled a n = record { content = refl; filled = refl }

-- Every chunk takes a record at least.
pub Sealed-length :
    {S : Services} {job : Job} {rounds index : ℕ} {body : Bytes}
    → Sealed S job rounds index body
    → rounds * 24 ≤ length body
Sealed-length finished = omega arith
Sealed-length (next chunk tag text rest one others) = omega (
  arith,
  length-append (serialize_chunk_header chunk tag ++ text) rest,
  length-append (serialize_chunk_header chunk tag) text,
  length-serialize_chunk_header chunk tag one.tagged,
  Sealed-length others,
)

pub Sealed-IsByte :
    {S : Services} {job : Job} {rounds index : ℕ} {body : Bytes}
    → Sealed S job rounds index body
    → All IsByte body
Sealed-IsByte finished = tt
Sealed-IsByte (next chunk tag text rest one others) =
    All-append IsByte (serialize_chunk_header chunk tag ++ text) rest
      (All-append IsByte (serialize_chunk_header chunk tag) text
        (serialize_chunk_header-IsByte chunk tag one.tagged one.tag_bytes (SealedChunk-known one))
        one.text_bytes)
      (Sealed-IsByte others)

module _ (S : Services) (inverts : Inverts S) (job : Job) (body : Bytes)
    (headed : length job.serialized ≡ 64) (setting : Setting job (job.serialized ++ body))
    (chunks : Sealed S job job.header.chunk_count 0 body)
    (whole : length job.plain ≡ job.header.plaintext_size)
    (counted : job.header.chunk_count
      ≡ chunk_count_for job.header.plaintext_size job.header.chunk_size) where
  few : (1 ≤ job.header.chunk_count) × (job.header.chunk_count ≤ 2 ^ 24)
  few =
      let many =
        chunk_count_for_covers job.header.plaintext_size job.header.chunk_size setting.range in
      (omega (arith, counted, many.0), omega (arith, counted, many.1))

  pub walked :
      Walked S job
        (job.serialized ++ body)
        setting
        job.header.chunk_count
        0
        (record { offset = 64; max_compressed = 0 })
        (length body)
  walked =
      subst
        (λ t.
          Walked S job (job.serialized ++ body) setting job.header.chunk_count 0
            (record { offset = t; max_compressed = 0 }) (length body))
        headed
        (walk_records-Walked S job (job.serialized ++ body) setting job.serialized 0 chunks refl
          (omega (arith, few)))

  pub walk_chunk_table-ok :
      (v : S.World)
      → (walk_chunk_table S
          (job.serialized ++ body)
          (length (job.serialized ++ body))
          job.header
          v).0
        ≡ ok (walked.entries, walked.last.max_compressed)
  unfolding walk_chunk_table
  walk_chunk_table-ok v =
      let long = length-append job.serialized body in
      let enough : ltb (length (job.serialized ++ body))
            ((64 + job.header.chunk_count * 24) % 2 ^ 64)
          ≡ false =
        le→not-ltb _ _ (omega (arith, long, headed, Sealed-length chunks)) in
      let table : ltb (2 ^ 64 - 1) (job.header.chunk_count * 32 % 2 ^ 64) ≡ false =
        le→not-ltb _ _ (omega arith) in
      let ends : (walked.last.offset /= length (job.serialized ++ body)) ≡ false =
        ground (arith, long, headed, walked.end) in
      rw (enough, table)
        (bind_then (allocate S (job.header.chunk_count * 32 % 2 ^ 64)) _ v
          (allocate-ok S inverts _ v) (λ u. rw (walked.found, ends)))

  -- The plaintext buffer before phase 3 holds chunk 0.
  start : Bytes
  start =
      if ltb 0 (plain_size_of job 0)
      then memcpy (zeros job.header.plaintext_size) 0 (plain_of job 0)
      else zeros job.header.plaintext_size

  blank-Recovered :
      Recovered S job
        (job.serialized ++ body)
        setting
        whole
        counted
        0
        (zeros job.header.plaintext_size)
  blank-Recovered =
      let p = job.header.plaintext_size in
      let none_yet : min (0 * job.header.chunk_size) p ≡ 0 = omega arith in
      let all_left : p - 0 ≡ p = omega arith in
      rw (none_yet, all_left) (nothing-IsFilled job.plain p)

  start-Recovered : Recovered S job (job.serialized ++ body) setting whole counted 1 start
  unfolding start
  start-Recovered =
      let p = job.header.plaintext_size in
      let written =
        memcpy-Recovered S job (job.serialized ++ body) setting whole counted 0 (zeros p)
          (omega (arith, few)) blank-Recovered in
      let at0 : 0 * job.header.chunk_size % 2 ^ 64 ≡ 0 = omega arith in
      elim (Bool-cases (ltb 0 (plain_size_of job 0))) [
        | inl some_bytes ↦ rw (some_bytes, at0) (rw at0 at written)
        | inr empty ↦
            let none_yet : min (1 * job.header.chunk_size) p ≡ 0 = omega (
              arith,
              chunk_plain_size_step p job.header.chunk_size 0 setting.range (omega arith),
              not-ltb→le 0 (plain_size_of job 0) empty,
            ) in
            let all_left : p - 0 ≡ p = omega arith in
            rw (empty, none_yet, all_left) (nothing-IsFilled job.plain p)
      ]

  pub open_file-ok :
      (v : S.World)
      → (open_file S
          (job.serialized ++ body)
          job.header
          job.derived
          walked.entries
          walked.last.max_compressed
          v).0
        ≡ ok (job.plain, job.header.plaintext_size)
  unfolding open_file start
  open_file-ok v =
      let p = job.header.plaintext_size in
      let c = job.header.chunk_size in
      let bs = job.serialized ++ body in
      let same = chunk_plain_size_same p c 0 in
      let small : ltb (2 ^ 64 - 1) p ≡ false =
        le→not-ltb _ _ (omega (arith, setting.range.plain)) in
      let first =
        OpensFrom-get_or S job bs setting 0 walked.entries 0 walked.opens
          (omega (arith, walked.count, few)) in
      rw (same, small)
        (bind_then
          (if ltb 0 walked.last.max_compressed
            then allocate S walked.last.max_compressed
            else done tt)
          _ v (scratch-ok S inverts (ltb 0 walked.last.max_compressed) walked.last.max_compressed v)
          (λ v1.
            bind_then (allocate S (plain_size_of job 0)) _ v1 (allocate-ok S inverts _ v1) (λ v2.
              bind_then
                (open_chunk S job.derived bs job.header bs 0 (get_or walked.entries 0 initial_entry)
                  (plain_size_of job 0))
                _ v2 {a = plain_of job 0} (first v2)
                (λ v3. bind_then (allocate S p) _ v3 (allocate-ok S inverts _ v3) (λ v4.
                  bind_then
                    (open_chunks S job.derived bs job.header bs walked.entries
                      (job.header.chunk_count - 1) 1 start)
                    _ v4
                    (open_chunks-plain S job bs setting whole counted walked.entries
                      (job.header.chunk_count - 1) 1 start v4 walked.opens walked.count
                      (omega (arith, few)) start-Recovered)
                    (λ v5. refl))))))
