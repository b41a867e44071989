-- ===== src/Container/Written.antt =====
-- The writer's loop leaves sealed chunks behind one another, and stays inside its buffer.
use model_crypt.Common.{
  ℕ, zero, suc, ◌+◌, ◌-◌, ◌%◌, ◌^◌, ◌≤◌, ◌<◌, ◌≡◌, refl, sym, ◌∙◌, subst, false, [], ◌++◌, arith,
  length, length-append, ltb, append-nil, append_assoc, replicate-append, not-ltb→le,
}
use model_crypt.Common.Buffer.{Bytes, slice, slice_self, memcpy, zeros, memcpy-append}
use model_crypt.Common.Segments.{IsFilled, memcpy-IsFilled, length-IsFilled}
use model_crypt.Common.Result.{ok, memory, ok_injective}
use model_crypt.Common.World.{bind-eq_ok, checked-eq_ok}
use model_crypt.Services.{Services, IsSound, Inverts}
use model_crypt.Format.Types.{ChunkHeader}
use model_crypt.Format.Record.{serialize_chunk_header, build_aad, build_nonce}
use model_crypt.Format.Record.RoundTrip.{length-serialize_chunk_header}
use model_crypt.Encrypt.Loop.{Job, choose_payload, seal_chunk, seal_chunks}
use model_crypt.Container.Sealed.{
  Chosen, choose_payload-Chosen, SealedChunk, Sealed, finished, next, plain_of, plain_size_of,
}

-- Writing a text and then the record in front of it.
memcpy_record :
    {file a : Bytes} {i room : ℕ} (record_bytes text : Bytes) (left : ℕ)
    → IsFilled file a i room
    → length record_bytes ≡ 24
    → 24 + length text + left ≡ room
    → IsFilled
        (memcpy (memcpy file (i + 24) text) i record_bytes)
        (a ++ (record_bytes ++ text))
        (i + 24 + length text)
        left
memcpy_record {file} {a} {i} {room} record_bytes text left f p q =
    let more = length text + left in
    let total : 24 + more ≡ room = omega arith in
    let split : zeros room ≡ zeros 24 ++ zeros more =
      rw (← total) (replicate-append {A = ℕ} 24 more 0) in
    let f1 : IsFilled file (a ++ zeros 24) (i + 24) more = record {
      content = f.content ∙ rw (split, append_assoc a (zeros 24) (zeros more));
      filled = omega (arith, length-append a (zeros 24), f.filled);
    } in
    let f2 = memcpy-IsFilled text (i + 24 + length text) left f1 refl refl in
    record {
      content =
          rw (f2.content, append_assoc (a ++ zeros 24) text (zeros left))
            (memcpy-append a (zeros 24) (text ++ zeros left) record_bytes i f.filled (sym p)
              ∙ simp append_assoc);
      filled = omega (
        arith,
        f.filled,
        length-append a (record_bytes ++ text),
        length-append record_bytes text,
      );
    }

-- The state after one round.
pub record Round (S : Services) (job : Job) (index : ℕ) (a : Bytes) (i room : ℕ) (file' : Bytes)
    (i' : ℕ) : Type 0 where
  pub chunk : ChunkHeader
  pub tag : Bytes
  pub text : Bytes
  pub left : ℕ
  pub one : SealedChunk S job index chunk tag text
  pub state : IsFilled file' (a ++ (serialize_chunk_header chunk tag ++ text)) i' left
  pub moved : (i' ≡ i + 24 + chunk.stored_size) × (i' + left ≡ i + room)

module _ (S : Services) (sound : IsSound S) (inverts : Inverts S) (job : Job) where
  -- The end of a round, once the text and the tag are there.
  finish-Round :
      (index : ℕ) (file a : Bytes) (i room : ℕ) (chunk : ChunkHeader) (payload ct tag : Bytes)
      (w : S.World)
      → IsFilled file a i room
      → i + room < 2 ^ 63
      → length (plain_of job index) < 2 ^ 32
      → Chosen S job.want_compression (plain_of job index) chunk payload
      → ltb (length file) ((i + 24 + chunk.stored_size) % 2 ^ 64) ≡ false
      → (S.seal job.derived
          (build_nonce job.header.nonce_prefix index)
          (build_aad job.serialized index chunk)
          (slice payload 0 chunk.stored_size)
          w).0
        ≡ ok (ct, tag)
      → Round S job index a i room
          (memcpy (memcpy file (i + 24) ct) i (serialize_chunk_header chunk tag))
          ((i + 24 + chunk.stored_size) % 2 ^ 64)
  finish-Round index file a i room chunk payload ct tag w f bounded small chosen fits e =
      let whole : slice payload 0 chunk.stored_size ≡ payload =
        slice_self payload chunk.stored_size (sym chosen.stored) in
      let sealed = rw whole at e in
      let (text_length, text_bytes, tagged, tag_bytes) =
        sound.seal_shape _ _ _ payload w ct tag sealed in
      let long : length file ≡ i + room = length-IsFilled f in
      let no_wrap : (i + 24 + chunk.stored_size) % 2 ^ 64 ≡ i + 24 + chunk.stored_size =
        omega (arith, chosen.bound) in
      let inside : i + 24 + chunk.stored_size ≤ i + room =
        omega (arith, not-ltb→le _ _ fits, no_wrap, long) in
      let left = room - (24 + chunk.stored_size) in
      record {
        chunk = chunk;
        tag = tag;
        text = ct;
        left = left;
        one = record {
          payload = payload;
          chosen = chosen;
          width = omega (arith, chosen.bound);
          tagged = tagged;
          tag_bytes = tag_bytes;
          text_length = omega (arith, chosen.stored);
          text_bytes = text_bytes;
          opens = inverts.open-seal _ _ _ payload w ct tag sealed;
        };
        state =
            subst
              (λ t.
                IsFilled (memcpy (memcpy file (i + 24) ct) i (serialize_chunk_header chunk tag))
                  (a ++ (serialize_chunk_header chunk tag ++ ct)) t left)
              (omega (arith, text_length, chosen.stored, no_wrap))
              (memcpy_record (serialize_chunk_header chunk tag) ct left f
                (length-serialize_chunk_header chunk tag tagged)
                (omega (arith, inside, text_length, chosen.stored)));
        moved = (no_wrap, omega (arith, no_wrap, inside));
      }

  pub seal_chunk-Round :
      (index : ℕ) (file a : Bytes) (i room : ℕ) (w : S.World) (file' : Bytes) (i' : ℕ)
      → IsFilled file a i room
      → i + room < 2 ^ 63
      → length (plain_of job index) ≡ plain_size_of job index
      → length (plain_of job index) < 2 ^ 32
      → (seal_chunk S job index file i w).0 ≡ ok (file', i')
      → Round S job index a i room file' i'
  unfolding seal_chunk
  seal_chunk-Round index file a i room w file' i' f bounded sized small e =
      let ((chunk, payload), c, e1) =
        bind-eq_ok (choose_payload S job (plain_of job index) (plain_size_of job index)) _ w e in
      let (fits, e2) = checked-eq_ok _ memory _ _ e1 in
      let ((ct, tag), sealed, e3) = bind-eq_ok (S.seal _ _ _ _) _ _ e2 in
      let chosen =
        choose_payload-Chosen S sound inverts job (plain_of job index) w chunk payload small
          (rw sized c) in
      subst (λ q. Round S job index a i room q.0 q.1) (ok_injective e3)
        (finish-Round index file a i room chunk payload ct tag _ f bounded small chosen fits sealed)

  -- The sealed chunks that the loop has added, and what is left of the buffer.
  pub record Written (rounds index : ℕ) (a : Bytes) (i room : ℕ) (file' : Bytes) (i' : ℕ)
      : Type 0 where
    pub body : Bytes
    pub left : ℕ
    pub chunks : Sealed S job rounds index body
    pub state : IsFilled file' (a ++ body) i' left
    pub total : i' + left ≡ i + room

  pub seal_chunks-Written :
      (rounds index : ℕ) (file a : Bytes) (i room : ℕ) (w : S.World) (file' : Bytes) (i' : ℕ)
      → ((k : ℕ)
          → k < index + rounds
          → (length (plain_of job k) ≡ plain_size_of job k) × (length (plain_of job k) < 2 ^ 32))
      → IsFilled file a i room
      → i + room < 2 ^ 63
      → (seal_chunks S job rounds index file i w).0 ≡ ok (file', i')
      → Written rounds index a i room file' i'
  unfolding seal_chunks
  seal_chunks-Written zero index file a i room w file' i' sizes f bounded e =
      subst (λ q. Written zero index a i room q.0 q.1) (ok_injective e)
        record {
          body = [];
          left = room;
          chunks = finished;
          state = rw (append-nil a) f;
          total = refl;
        }
  seal_chunks-Written (suc rounds) index file a i room w file' i' sizes f bounded e =
      let ((mid, j), first, others) = bind-eq_ok (seal_chunk S job index file i) _ w e in
      let (sized, small) = sizes index (omega arith) in
      let r = seal_chunk-Round index file a i room w mid j f bounded sized small first in
      let block = serialize_chunk_header r.chunk r.tag ++ r.text in
      let more =
        seal_chunks-Written rounds (index + 1) mid (a ++ block) j r.left _ file' i'
          (λ k h. sizes k (omega arith)) r.state (omega (arith, r.moved)) others in
      record {
        body = block ++ more.body;
        left = more.left;
        chunks = next r.chunk r.tag r.text more.body r.one more.chunks;
        state = rw (← append_assoc a block more.body) more.state;
        total = omega (arith, r.moved, more.total);
      }
