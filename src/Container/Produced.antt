-- ===== src/Container/Produced.antt =====
-- What a successful EncryptBuffer has written.
use model_crypt.Common.{
  ℕ, ◌+◌, ◌-◌, ◌*◌, ◌%◌, ◌^◌, ◌≤◌, ◌<◌, ◌≡◌, refl, sym, ◌∙◌, subst, [], ◌++◌, arith, length,
  length-append, ltb, ◌==◌, if◌then◌else◌, Bool-cases, inl, inr, append-nil,
}
use model_crypt.Common.Buffer.{
  Bytes, slice, slice_self, slice-append, length-slice-min, memcpy, zeros,
}
use model_crypt.Common.Segments.{IsFilled, memcpy-IsFilled, length-IsFilled}
use model_crypt.Common.Result.{ok, too_large, ok_injective}
use model_crypt.Common.World.{done, bind-eq_ok, checked-eq_ok}
use model_crypt.Services.{Services, IsSound, Inverts}
use model_crypt.Format.Types.{FileHeader}
use model_crypt.Format.Sizes.{chunk_count_for, max_stored_size_for}
use model_crypt.Format.Sizes.Counts.{
  InRange, chunk_count_for_covers, offset_fits, chunk_plain_size_lem,
}
use model_crypt.Format.Header.{serialize_file_header}
use model_crypt.Encrypt.Options.{EncryptOptions}
use model_crypt.Encrypt.Loop.{Job, seal_chunks}
use model_crypt.Encrypt.Buffer.{
  fill_header, worst_case_size, allocate, shrink, write_file, shrink_threshold, size_max,
}
use model_crypt.Container.Sealed.{Sealed, plain_of, plain_size_of}
use model_crypt.Container.Written.{seal_chunks-Written}

-- The job of a call, from its options, its plaintext, and what was drawn and derived.
abbrev pub job_for : EncryptOptions → Bytes → Bytes → Bytes → Bytes → ℕ → Job
job_for opts salt nonce_prefix derived plain in_size = record {
  header = fill_header opts in_size salt nonce_prefix;
  serialized = serialize_file_header (fill_header opts in_size salt nonce_prefix);
  derived = derived;
  want_compression = opts.compression == 1;
  plain = plain;
}

pub plain_of-sizes :
    (job : Job)
    → InRange job.header.plaintext_size job.header.chunk_size
    → length job.plain ≡ job.header.plaintext_size
    → (k : ℕ) → k < 2 ^ 32
    → (length (plain_of job k) ≡ plain_size_of job k)
      × (plain_size_of job k ≤ job.header.chunk_size)
plain_of-sizes job range whole k low =
    let p = job.header.plaintext_size in
    let c = job.header.chunk_size in
    let size = chunk_plain_size_lem p c k range low in
    (
      omega (
        arith,
        length-slice-min job.plain (k * c % 2 ^ 64) (plain_size_of job k),
        offset_fits p c k range low,
        size,
        whole,
      ),
      omega (arith, size),
    )

-- The worst case does not wrap.
pub worst_case_lem :
    (header : FileHeader) (n : ℕ)
    → n ≤ 2 ^ 36
    → header.chunk_count ≤ 2 ^ 24
    → (64 ≤ worst_case_size header n)
      × (worst_case_size header n < 2 ^ 63)
      × (worst_case_size header n ≡ 64 + header.chunk_count * 24 + n)
unfolding worst_case_size
worst_case_lem header n small few = omega arith

-- The whole of a block, copied into a zeroed one.
memcpy_whole : (a : Bytes) (n : ℕ) → length a ≡ n → memcpy (zeros n) 0 a ≡ a
memcpy_whole a n e =
    let f0 : IsFilled (zeros n) [] 0 n = record { content = refl; filled = refl } in
    (memcpy-IsFilled a n 0 f0 (omega arith) (omega arith)).content ∙ append-nil a

module _ (S : Services) (sound : IsSound S) (inverts : Inverts S) where
  -- The first `size` bytes of the buffer are the header and the sealed chunks.
  pub record Contents (job : Job) (file : Bytes) (size : ℕ) : Type 0 where
    pub body : Bytes
    pub chunks : Sealed S job job.header.chunk_count 0 body
    pub content : slice file 0 size ≡ job.serialized ++ body
    pub total : size ≡ length job.serialized + length body
    pub fits : size ≤ worst_case_size job.header job.header.plaintext_size
    pub inside : size ≤ length file

  shrink-slice :
      (file a : Bytes) (i left : ℕ) (w : S.World) (exact : Bytes)
      → IsFilled file a i left
      → (shrink S file i w).0 ≡ ok exact
      → (slice exact 0 i ≡ a) × (i ≤ length exact)
  unfolding shrink
  shrink-slice file a i left w exact f e =
      let front : slice file 0 i ≡ a =
        rw f.content (slice-append [] a (zeros left) 0 i refl f.filled) in
      elim (Bool-cases (ltb shrink_threshold (length file - i))) [
        | inl big ↦
            let (_, _, copied) = bind-eq_ok (allocate S i) _ w (rw big at e) in
            let same : a ≡ exact =
              sym (memcpy_whole a i f.filled) ∙ rw front at (ok_injective copied) in
            subst (λ x. (slice x 0 i ≡ a) × (i ≤ length x)) same
              (slice_self a i f.filled, omega (arith, f.filled))
        | inr small ↦
            subst (λ x. (slice x 0 i ≡ a) × (i ≤ length x)) (ok_injective (rw small at e))
              (front, omega (arith, length-IsFilled f))
      ]

  pub write_file-Contents :
      (opts : EncryptOptions) (job : Job) (w : S.World) (file : Bytes) (size : ℕ)
      → InRange job.header.plaintext_size job.header.chunk_size
      → job.header.chunk_count ≡ chunk_count_for job.header.plaintext_size job.header.chunk_size
      → length job.serialized ≡ 64
      → length job.plain ≡ job.header.plaintext_size
      → (write_file S opts job w).0 ≡ ok (file, size)
      → Contents job file size
  unfolding write_file
  write_file-Contents opts job w file size range counted headed whole e =
      let worst = worst_case_size job.header job.header.plaintext_size in
      let (_, e1) = checked-eq_ok (ltb size_max worst) too_large _ w e in
      let (_, _, e2) = bind-eq_ok (allocate S worst) _ w e1 in
      let (_, _, e3) =
        bind-eq_ok
          (if job.want_compression
            then allocate S (max_stored_size_for opts.chunk_size)
            else done tt)
          _ _ e2 in
      let start = memcpy (zeros worst) 0 job.serialized in
      let ((written, i), e4, e5) =
        bind-eq_ok (seal_chunks S job job.header.chunk_count 0 start 64) _ _ e3 in
      let (exact, e6, e7) = bind-eq_ok (shrink S written i) _ _ e5 in
      let f0 : IsFilled (zeros worst) [] 0 worst = record { content = refl; filled = refl } in
      let many = chunk_count_for_covers job.header.plaintext_size job.header.chunk_size range in
      let bound =
        worst_case_lem job.header job.header.plaintext_size range.plain
          (omega (arith, counted, many.1)) in
      let f1 : IsFilled start job.serialized 64 (worst - 64) =
        memcpy-IsFilled job.serialized 64 (worst - 64) f0 (omega (arith, headed))
          (omega (arith, headed, bound.0)) in
      let sizes = plain_of-sizes job range whole in
      let done_writing =
        seal_chunks-Written S sound inverts job job.header.chunk_count 0 start job.serialized 64
          (worst - 64) _ written i
          (λ k h.
            let low : k < 2 ^ 32 = omega (arith, counted, many.1) in
            ((sizes k low).0, omega (arith, sizes k low, range.high)))
          f1 (omega (arith, bound)) e4 in
      let (content, inside) =
        shrink-slice written (job.serialized ++ done_writing.body) i done_writing.left _ exact
          done_writing.state e6 in
      let ends = ok_injective e7 in
      subst (λ q. Contents job q.0 q.1) ends
        record {
          body = done_writing.body;
          chunks = done_writing.chunks;
          content = content;
          total =
              omega
                (arith, done_writing.state.filled, length-append job.serialized done_writing.body);
          fits = omega (arith, done_writing.total, bound);
          inside = inside;
        }
