-- ===== src/Container/Returns.antt =====
-- The writer's loop in src/crypt/encrypt.cc returns, on a platform that finds its resources.
use model_crypt.Common.{
  ℕ, zero, suc, ◌+◌, ◌-◌, ◌*◌, ◌%◌, ◌^◌, ◌≤◌, ◌<◌, ◌≡◌, refl, ◌∙◌, ap, subst, Bool, true, false,
  ◌&&◌, ◌++◌, min, arith, length, All, ltb, if◌then◌else◌, Bool-cases, inl, inr, le→not-ltb,
}
use model_crypt.Common.Buffer.{Bytes, IsByte, slice, All-slice, length-slice-min}
use model_crypt.Common.Segments.{IsFilled, length-IsFilled}
use model_crypt.Common.Result.{Result, ok, memory}
use model_crypt.Common.World.{Effect, ◌>>=◌, reject_if, bind_ok}
use model_crypt.Services.{Services, IsSound, Inverts}
use model_crypt.Format.Types.{ChunkHeader}
use model_crypt.Format.Sizes.{max_stored_size_for}
use model_crypt.Format.Sizes.Counts.{InRange, chunk_plain_size_step, max_stored_size_for_lem}
use model_crypt.Format.Record.{serialize_chunk_header, build_aad, build_nonce}
use model_crypt.Format.Layout.{length-build_aad}
use model_crypt.Encrypt.Options.{EncryptOptions, IsPermitted}
use model_crypt.Encrypt.Loop.{Job, choose_payload, seal_chunk, seal_chunks}
use model_crypt.Encrypt.Buffer.{allocate}
use model_crypt.Container.Sealed.{choose_payload-Chosen, plain_of, plain_size_of}
use model_crypt.Container.Written.{seal_chunk-Round}
use model_crypt.Container.Produced.{plain_of-sizes}

-- The writing half of the services finds its resources: random bytes are drawn, a key of at least 12
-- bytes is derived under permitted options, text of less than 2 GiB is sealed, and the compressor
-- gives an answer for a chunk that its capacity could hold.
pub record Provides (S : Services) : Type 0 where
  pub fills : (n : ℕ) (w : S.World) → (bs : Bytes) × ((S.fill n w).0 ≡ ok bs)
  pub derives :
      (key salt : Bytes) (opts : EncryptOptions) (w : S.World)
      → 12 ≤ length key
      → length salt ≡ 16
      → IsPermitted opts
      → (derived : Bytes) × ((S.derive_key key salt opts.kdf_log_n opts.kdf_r opts.kdf_p w).0
          ≡ ok derived)
  pub seals :
      (key nonce aad plain : Bytes) (w : S.World)
      → length aad < 2 ^ 31
      → length plain < 2 ^ 31
      → All IsByte plain
      → (q : Bytes × Bytes) × ((S.seal key nonce aad plain w).0 ≡ ok q)
  pub compresses :
      (plain : Bytes) (capacity : ℕ) (w : S.World)
      → 0 < length plain
      → length plain ≤ capacity
      → capacity < 2 ^ 31
      → All IsByte plain
      → (stream : Bytes) × (smaller : Bool) × ((S.compress_chunk plain capacity w).0
          ≡ ok (stream, smaller))
        × All IsByte stream

-- A call that returned a value.
abbrev pub Returns : {W A : Type 0} → Result A × W → Type 0
Returns {W} {A} q = (a : A) × (q.0 ≡ ok a)

module _ {W A B : Type 0} (m : Effect W A) (f : A → Effect W B) (w : W) where
  -- A chain returns if its first call does, and the rest does from any world.
  pub bind-Returns : {a : A} → (m w).0 ≡ ok a → ((v : W) → Returns (f a v)) → Returns ((m >>= f) w)
  bind-Returns {a} e k = let (b, r) = k (m w).1 in (b, ap (λ q. q.0) (bind_ok m f w e) ∙ r)

pub check-Returns :
    {W B : Type 0} (test : Bool) (x : _) (m : Effect W B) (w : W)
    → test ≡ false
    → Returns (m w)
    → Returns ((reject_if test x >>= λ _. m) w)
check-Returns true x m w e r = cc
check-Returns false x m w e r = r

module _ (S : Services) (sound : IsSound S) (inverts : Inverts S) (provides : Provides S) where
  pub allocate-ok : (n : ℕ) (w : S.World) → (allocate S n w).0 ≡ ok tt
  unfolding allocate
  allocate-ok n w = rw (inverts.reset_succeeds n w) refl

  module _ (job : Job) (range : InRange job.header.plaintext_size job.header.chunk_size)
      (headed : length job.serialized ≡ 64) (bytes : All IsByte job.plain)
      (whole : length job.plain ≡ job.header.plaintext_size) where
    -- The payload of a chunk is there, and is bytes.
    choose_payload-Returns :
        (plain : Bytes) (w : S.World)
        → All IsByte plain
        → length plain ≤ job.header.chunk_size
        → (chunk : ChunkHeader) × (payload : Bytes) × ((choose_payload S job plain
              (length plain)
              w).0
            ≡ ok (chunk, payload))
          × All IsByte payload
    unfolding choose_payload
    choose_payload-Returns plain w all low =
        elim (Bool-cases (job.want_compression && ltb 0 (length plain))) [
          | inr raw ↦ rw raw (_, plain, refl, all)
          | inl tried ↦
              let capacity = max_stored_size_for job.header.chunk_size in
              let room = max_stored_size_for_lem job.header.chunk_size range.high in
              let some_bytes : 0 < length plain = ground (arith, tried) in
              let (stream, smaller, answer, stream_bytes) =
                provides.compresses plain capacity w some_bytes (omega (arith, low, room))
                  (omega (arith, room, range.high)) all in
              rw tried (
                _,
                _,
                ap (λ t. t.0) (bind_ok (S.compress_chunk plain capacity) _ w answer),
                picked stream smaller stream_bytes,
              )
        ]
      where
        picked :
            (stream : Bytes) (smaller : Bool)
            → All IsByte stream
            → All IsByte
                (if◌then◌else◌ {A = ChunkHeader × Bytes} smaller
                  (record { stored_size = length stream % 2 ^ 32; flags = 1 }, stream)
                  (record { stored_size = length plain % 2 ^ 32; flags = 0 }, plain)).1
        picked stream true b = b
        picked stream false b = all

    seal_chunk-Returns :
        (index : ℕ) (file a : Bytes) (i room : ℕ) (w : S.World)
        → IsFilled file a i room
        → i + room < 2 ^ 63
        → index < 2 ^ 32
        → 24 + plain_size_of job index ≤ room
        → Returns (seal_chunk S job index file i w)
    unfolding seal_chunk
    seal_chunk-Returns index file a i room w f bounded few enough =
        let (sized, low) = plain_of-sizes job range whole index few in
        let plain = plain_of job index in
        let short : length plain ≤ job.header.chunk_size = omega (arith, sized, low) in
        let all =
          All-slice job.plain (index * job.header.chunk_size % 2 ^ 64) (plain_size_of job index)
            bytes in
        let (chunk, payload, c, payload_bytes) = choose_payload-Returns plain w all short in
        let chosen =
          choose_payload-Chosen S sound inverts job plain w chunk payload
            (omega (arith, short, range.high)) c in
        let fits : ltb (length file) ((i + 24 + chunk.stored_size) % 2 ^ 64) ≡ false =
          le→not-ltb (length file) ((i + 24 + chunk.stored_size) % 2 ^ 64)
            (omega (arith, chosen.bound, sized, enough, bounded, length-IsFilled f)) in
        let text = slice payload 0 chunk.stored_size in
        let text_length : length text ≤ length plain =
          omega (arith, length-slice-min payload 0 chunk.stored_size, chosen.bound) in
        bind-Returns (choose_payload S job plain (plain_size_of job index)) _ w
          (subst (λ n. (choose_payload S job plain n w).0 ≡ ok (chunk, payload)) sized c)
          (λ v1.
            check-Returns (ltb (length file) ((i + 24 + chunk.stored_size) % 2 ^ 64)) memory _ v1
              fits
              (let aad = build_aad job.serialized index chunk in
                let (q, e) =
                  provides.seals job.derived (build_nonce job.header.nonce_prefix index) aad text v1
                    (omega
                      (arith, length-build_aad job.serialized index chunk (omega (arith, headed))))
                    (omega (arith, text_length, short, range.high))
                    (All-slice payload 0 chunk.stored_size payload_bytes) in
                bind-Returns
                  (S.seal job.derived (build_nonce job.header.nonce_prefix index) aad text) _ v1 e
                  (λ v2. (_, refl))))

    -- What the chunks from `index` on can take.
    abbrev pub room_for : ℕ → ℕ → ℕ
    room_for rounds index =
        rounds * 24
        + (job.header.plaintext_size
            - min (index * job.header.chunk_size) job.header.plaintext_size)

    pub seal_chunks-Returns :
        (rounds index : ℕ) (file a : Bytes) (i room : ℕ) (w : S.World)
        → IsFilled file a i room
        → i + room < 2 ^ 63
        → index + rounds < 2 ^ 32
        → room_for rounds index ≤ room
        → Returns (seal_chunks S job rounds index file i w)
    unfolding seal_chunks
    seal_chunks-Returns zero index file a i room w f bounded few enough = ((file, i), refl)
    seal_chunks-Returns (suc rounds) index file a i room w f bounded few enough =
        let step =
          chunk_plain_size_step job.header.plaintext_size job.header.chunk_size index range
            (omega (arith, few)) in
        let (sized, low) = plain_of-sizes job range whole index (omega (arith, few)) in
        let ((mid, j), e) =
          seal_chunk-Returns index file a i room w f bounded (omega (arith, few))
            (omega (arith, enough, step)) in
        let r =
          seal_chunk-Round S sound inverts job index file a i room w mid j f bounded sized
            (omega (arith, sized, low, range.high)) e in
        bind-Returns (seal_chunk S job index file i) _ w e (λ v.
          seal_chunks-Returns rounds (index + 1) mid
            (a ++ (serialize_chunk_header r.chunk r.tag ++ r.text)) j r.left v r.state
            (omega (arith, r.moved, bounded)) (omega (arith, few))
            (omega (arith, r.moved, r.one.chosen.bound, sized, step, enough)))
