-- ===== src/Container/RoundTrip.antt =====
-- DecryptBuffer after EncryptBuffer.
use model_crypt.Common.{
  ℕ, ◌≤◌, ◌≡◌, refl, sym, ◌∙◌, ap, subst, Option, some, false, [], ◌++◌, arith, length,
  length-append, All-append, ltb, le→not-ltb, ==_iff,
}
use model_crypt.Common.Buffer.{Bytes, IsByte, slice, slice-append, slice_self, length-slice}
use model_crypt.Common.Result.{ok}
use model_crypt.Common.World.{bind_then}
use model_crypt.Services.{Services, IsSound, Inverts}
use model_crypt.Format.Types.{initial_header}
use model_crypt.Format.Sizes.Counts.{InRange, chunk_count_for_covers}
use model_crypt.Format.Header.{serialize_file_header, parse_file_header}
use model_crypt.Format.Header.Validity.{IsValid}
use model_crypt.Format.Header.RoundTrip.{
  parse_file_header-serialize_file_header, length-serialize_file_header,
  serialize_file_header-IsByte,
}
use model_crypt.Encrypt.Options.{EncryptOptions, IsPermitted, memory_at}
use model_crypt.Encrypt.Loop.{Job}
use model_crypt.Encrypt.Buffer.{fill_header, encrypt_buffer}
use model_crypt.Decrypt.Buffer.{walk_chunk_table, decrypt_buffer}
use model_crypt.Container.Sealed.{Sealed}
use model_crypt.Container.Opens.{Setting}
use model_crypt.Container.Produced.{job_for, plain_of-sizes, worst_case_lem, Contents}
use model_crypt.Container.Encrypted.{encrypt_buffer-Encrypted, input_of}
use model_crypt.Container.Accepted.{Sealed-IsByte, walk_chunk_table-ok, open_file-ok}

-- The reader's side, for a file whose parts are known.
module _ (S : Services) (inverts : Inverts S) (job : Job) (body key : Bytes) (key_size : ℕ)
    (long_key : 12 ≤ key_size) (valid : IsValid job.header)
    (serialized : job.serialized ≡ serialize_file_header job.header)
    (headed : length job.serialized ≡ 64) (setting : Setting job (job.serialized ++ body))
    (chunks : Sealed S job job.header.chunk_count 0 body)
    (whole : length job.plain ≡ job.header.plaintext_size)
    (derives : (v : S.World)
      → (S.derive_key
          (slice key 0 key_size)
          job.header.salt
          job.header.kdf_log_n
          job.header.kdf_r
          job.header.kdf_p
          v).0
        ≡ ok job.derived) where
  decrypt_buffer-ok :
      (o : Bytes) (s : ℕ) (v : S.World)
      → (decrypt_buffer S
          (some key)
          key_size
          (some (job.serialized ++ body))
          (length (job.serialized ++ body))
          (some o)
          (some s)
          v).0
        ≡ ok (job.plain, job.header.plaintext_size)
  unfolding decrypt_buffer
  decrypt_buffer-ok o s v =
      let bs = job.serialized ++ body in
      let long : ltb key_size 12 ≡ false = le→not-ltb _ _ long_key in
      let parsed : parse_file_header (some bs) (length bs) (some initial_header) ≡ ok job.header =
        rw serialized (
          parse_file_header-serialize_file_header job.header body
            (length (serialize_file_header job.header ++ body)) initial_header valid
            (Sealed-IsByte chunks)
            (omega (
              arith,
              length-append (serialize_file_header job.header) body,
              headed,
              ap length serialized,
            ))) in
      rw (long, parsed)
        (bind_then (walk_chunk_table S bs (length bs) job.header) _ v
          (walk_chunk_table-ok S inverts job body headed setting chunks whole valid.count v)
          (λ v1.
            bind_then
              (S.derive_key (slice key 0 key_size) job.header.salt job.header.kdf_log_n
                job.header.kdf_r job.header.kdf_p)
              _ v1 (derives v1)
              (λ v2. open_file-ok S inverts job body headed setting chunks whole valid.count v2)))

-- The file that a job has produced is set up for the reader.
Contents-Setting :
    (S : Services) (sound : IsSound S) (inverts : Inverts S) (opts : EncryptOptions) (in_size : ℕ)
    (salt nonce_prefix derived plain file : Bytes) (size : ℕ)
    → IsPermitted opts
    → IsValid (fill_header opts in_size salt nonce_prefix)
    → length plain ≡ in_size
    → (c : Contents S sound inverts
        (job_for opts salt nonce_prefix derived plain in_size)
        file
        size)
    → Setting
        (job_for opts salt nonce_prefix derived plain in_size)
        (serialize_file_header (fill_header opts in_size salt nonce_prefix) ++ c.body)
unfolding fill_header
Contents-Setting S sound inverts opts in_size salt nonce_prefix derived plain file size permitted
      valid whole c =
    let job = job_for opts salt nonce_prefix derived plain in_size in
    let range : InRange in_size opts.chunk_size = record {
      low = permitted.size_low;
      high = permitted.size_high;
      plain = valid.plaintext;
    } in
    let headed = length-serialize_file_header job.header valid in
    let many = chunk_count_for_covers in_size opts.chunk_size range in
    let bound =
      worst_case_lem job.header in_size valid.plaintext (omega (arith, valid.count, many.1)) in
    record {
      bytes =
          All-append IsByte job.serialized c.body (serialize_file_header-IsByte job.header valid)
            (Sealed-IsByte c.chunks);
      short = omega (arith, length-append job.serialized c.body, c.total, c.fits, bound);
      range = range;
      same_header =
          slice-append [] job.serialized c.body 0 64 refl headed
          ∙ sym (slice_self job.serialized 64 headed);
      zlib = λ want. omega (arith, (==_iff opts.compression 1).0 want, permitted.compression);
      sizes = plain_of-sizes job range whole;
    }

-- Let the platform's calls be sound and let the reading half of them undo the writing half and find
-- memory. If EncryptBuffer of `in_size` bytes at `input` succeeds, then DecryptBuffer of the `size`
-- bytes it returned, with the same key and whatever the platform has become since, succeeds and
-- returns those `in_size` bytes.
pub decrypt_buffer-encrypt_buffer :
    (S : Services) (sound : IsSound S) (inverts : Inverts S) (key : Bytes) (key_size : ℕ)
    (opts : EncryptOptions) (input : Option Bytes) (in_size : ℕ) (out : Option Bytes)
    (out_size : Option ℕ) (w : S.World) (file : Bytes) (size : ℕ)
    → in_size ≤ length (memory_at input)
    → (encrypt_buffer S (some key) key_size opts input in_size out out_size w).0 ≡ ok (file, size)
    → (o : Bytes) (s : ℕ) (v : S.World)
    → (decrypt_buffer S (some key) key_size (some (slice file 0 size)) size (some o) (some s) v).0
      ≡ ok (input_of input in_size, in_size)
unfolding fill_header
decrypt_buffer-encrypt_buffer S sound inverts key key_size opts input in_size out out_size w file
      size there e o s v =
    let r =
      encrypt_buffer-Encrypted S sound inverts key key_size opts input in_size out out_size w file
        size there e in
    let plain = input_of input in_size in
    let whole : length plain ≡ in_size =
      length-slice (memory_at input) 0 in_size (omega (arith, there)) in
    let job = job_for opts r.salt r.nonce_prefix r.derived plain in_size in
    let setting =
      Contents-Setting S sound inverts opts in_size r.salt r.nonce_prefix r.derived plain file size
        r.permitted r.valid whole r.contents in
    let sized : size ≡ length (job.serialized ++ r.contents.body) =
      r.contents.total ∙ sym (length-append job.serialized r.contents.body) in
    subst
      (λ t.
        (decrypt_buffer S (some key) key_size (some t) size (some o) (some s) v).0
        ≡ ok (plain, in_size))
      (sym r.contents.content)
      (subst
        (λ t.
          (decrypt_buffer S (some key) key_size (some (job.serialized ++ r.contents.body)) t
            (some o) (some s) v).0
          ≡ ok (plain, in_size))
        (sym sized)
        (decrypt_buffer-ok S inverts job r.contents.body key key_size r.long_key r.valid refl
          (length-serialize_file_header job.header r.valid) setting r.contents.chunks whole
          (inverts.derive_again (slice key 0 key_size) r.salt opts.kdf_log_n opts.kdf_r opts.kdf_p
            r.world r.derived r.derivation)
          o s v))
