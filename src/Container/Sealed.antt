-- ===== src/Container/Sealed.antt =====
-- What one round of the writer's loop produces: a payload, its record and its ciphertext.
use model_crypt.Common.{
  ℕ, zero, suc, ◌+◌, ◌*◌, ◌%◌, ◌^◌, ◌≤◌, ◌<◌, ◌≡◌, refl, subst, ◌⊎◌, inl, inr, Bool, true, false,
  ◌&&◌, [], ◌++◌, arith, length, All, ltb, Bool-cases, if◌then◌else◌,
}
use model_crypt.Common.Buffer.{Bytes, IsByte, slice}
use model_crypt.Common.Result.{ok, ok_injective}
use model_crypt.Common.World.{bind-eq_ok}
use model_crypt.Services.{Services, IsSound, Inverts}
use model_crypt.Format.Types.{ChunkHeader}
use model_crypt.Format.Sizes.{max_stored_size_for, chunk_plain_size}
use model_crypt.Format.Record.{serialize_chunk_header, build_aad, build_nonce}
use model_crypt.Encrypt.Loop.{Job, choose_payload}

-- The payload of a chunk: its plaintext, or a smaller stream that inflates to it.
pub record Chosen (S : Services) (want : Bool) (plain : Bytes) (chunk : ChunkHeader)
    (payload : Bytes) : Type 0 where
  pub stored : chunk.stored_size ≡ length payload
  pub bound : chunk.stored_size ≤ length plain
  pub kind :
      (chunk.flags ≡ 0) × (payload ≡ plain)
      ⊎ (chunk.flags ≡ 1)
        × (0 < chunk.stored_size)
        × (want ≡ true)
        × ((v : S.World) → (S.decompress_chunk payload (length plain) v).0 ≡ ok plain)

module _ (S : Services) (sound : IsSound S) (inverts : Inverts S) (job : Job) where
  raw-Chosen :
      (plain : Bytes)
      → length plain < 2 ^ 32
      → Chosen S job.want_compression plain
          (record { stored_size = length plain % 2 ^ 32; flags = 0 })
          plain
  raw-Chosen plain small = record {
    stored = omega arith;
    bound = omega arith;
    kind = inl (refl, refl);
  }

  -- What the compressor's answer makes of the chunk.
  compressed-Chosen :
      (plain : Bytes) (w : S.World) (stream : Bytes) (smaller : Bool) (chunk : ChunkHeader)
      (payload : Bytes)
      → length plain < 2 ^ 32
      → job.want_compression ≡ true
      → (S.compress_chunk plain (max_stored_size_for job.header.chunk_size) w).0
        ≡ ok (stream, smaller)
      → ◌≡◌ {A = ChunkHeader × Bytes}
          (if smaller
            then (record { stored_size = length stream % 2 ^ 32; flags = 1 }, stream)
            else (record { stored_size = length plain % 2 ^ 32; flags = 0 }, plain))
          (chunk, payload)
      → Chosen S job.want_compression plain chunk payload
  compressed-Chosen plain w stream false chunk payload small want e p =
      subst (λ q. Chosen S job.want_compression plain q.0 q.1) p (raw-Chosen plain small)
  compressed-Chosen plain w stream true chunk payload small want e p =
      let (shorter, some_bytes) = sound.compress_shape plain _ w stream e in
      let fits : length stream % 2 ^ 32 ≡ length stream = omega arith in
      subst (λ q. Chosen S job.want_compression plain q.0 q.1) p
        record {
          stored = fits;
          bound = omega arith;
          kind = inr (refl, omega arith, want, inverts.decompress-compress plain _ w stream e);
        }

  pub choose_payload-Chosen :
      (plain : Bytes) (w : S.World) (chunk : ChunkHeader) (payload : Bytes)
      → length plain < 2 ^ 32
      → (choose_payload S job plain (length plain) w).0 ≡ ok (chunk, payload)
      → Chosen S job.want_compression plain chunk payload
  unfolding choose_payload
  choose_payload-Chosen plain w chunk payload small e =
      elim (Bool-cases (job.want_compression && ltb 0 (length plain))) [
        | inl tried ↦
            let ((stream, smaller), answer, rest) =
              bind-eq_ok (S.compress_chunk plain (max_stored_size_for job.header.chunk_size)) _ w
                (rw tried at e) in
            compressed-Chosen plain w stream smaller chunk payload small (ground arith) answer
              (ok_injective rest)
        | inr raw ↦
            subst (λ q. Chosen S job.want_compression plain q.0 q.1) (ok_injective (rw raw at e))
              (raw-Chosen plain small)
      ]

-- The plaintext of chunk `index`, and its length.
abbrev pub plain_size_of : Job → ℕ → ℕ
plain_size_of job index = chunk_plain_size job.header.plaintext_size job.header.chunk_size index

abbrev pub plain_of : Job → ℕ → Bytes
plain_of job index =
    slice job.plain (index * job.header.chunk_size % 2 ^ 64) (plain_size_of job index)

-- One sealed chunk: it opens to a payload, and the payload is or inflates to its plaintext.
pub record SealedChunk (S : Services) (job : Job) (index : ℕ) (chunk : ChunkHeader)
    (tag text : Bytes) : Type 0 where
  pub payload : Bytes
  pub chosen : Chosen S job.want_compression (plain_of job index) chunk payload
  pub width : chunk.stored_size < 2 ^ 32
  pub tagged : length tag ≡ 16
  pub tag_bytes : All IsByte tag
  pub text_length : length text ≡ chunk.stored_size
  pub text_bytes : All IsByte text
  pub opens :
      (v : S.World)
      → (S.open_sealed job.derived
          (build_nonce job.header.nonce_prefix index)
          (build_aad job.serialized index chunk)
          text
          tag
          v).0
        ≡ ok payload

-- The chunks from `index` on, `rounds` of them, and the bytes that hold them.
pub data Sealed (S : Services) (job : Job) : ℕ → ℕ → Bytes → Type 0 where
  finished : {index : ℕ} → Sealed S job zero index []
  next :
      {rounds index : ℕ} (chunk : ChunkHeader) (tag text rest : Bytes)
      → SealedChunk S job index chunk tag text
      → Sealed S job rounds (index + 1) rest
      → Sealed S job (suc rounds) index ((serialize_chunk_header chunk tag ++ text) ++ rest)

pub SealedChunk-known :
    {S : Services} {job : Job} {index : ℕ} {chunk : ChunkHeader} {tag text : Bytes}
    → SealedChunk S job index chunk tag text
    → chunk.flags ≤ 1
SealedChunk-known one = elim one.chosen.kind [
  | inl (e, _) ↦ omega (arith, e)
  | inr (e, _, _, _) ↦ omega (arith, e)
]
