-- ===== src/Container/Inspected.antt =====
-- What a written file's size and header tell without its key.
use model_crypt.Common.{ℕ, ◌+◌, ◌*◌, ◌%◌, ◌^◌, ◌≤◌, ◌≡◌, ap, Option, some, arith, length}
use model_crypt.Common.Buffer.{Bytes, slice}
use model_crypt.Common.Result.{ok}
use model_crypt.Services.{Services, IsSound, Inverts}
use model_crypt.Format.Types.{max_file_size, initial_header}
use model_crypt.Format.Sizes.{chunk_count_for}
use model_crypt.Format.Sizes.Counts.{InRange, chunk_count_for_covers}
use model_crypt.Format.Header.RoundTrip.{
  parse_file_header-serialize_file_header, length-serialize_file_header,
}
use model_crypt.Encrypt.Options.{EncryptOptions, memory_at}
use model_crypt.Encrypt.Buffer.{fill_header, encrypt_buffer}
use model_crypt.Decrypt.Inspect.{FileInfo, inspect_buffer}
use model_crypt.Container.Produced.{worst_case_lem}
use model_crypt.Container.Encrypted.{encrypt_buffer-Encrypted}
use model_crypt.Container.Accepted.{Sealed-length, Sealed-IsByte}

-- What InspectBuffer is to report of a file written under these options.
abbrev pub promised_info : EncryptOptions → ℕ → FileInfo
promised_info opts in_size = record {
  format_version = 2;
  compression = opts.compression;
  plaintext_size = in_size;
  chunk_size = opts.chunk_size;
  chunk_count = chunk_count_for in_size opts.chunk_size;
  kdf_log_n = opts.kdf_log_n;
  kdf_r = opts.kdf_r;
  kdf_p = opts.kdf_p;
}

module _ (S : Services) (sound : IsSound S) (inverts : Inverts S) (key : Bytes) (key_size : ℕ)
    (opts : EncryptOptions) (input : Option Bytes) (in_size : ℕ) (out : Option Bytes)
    (out_size : Option ℕ) (w : S.World) (file : Bytes) (size : ℕ)
    (there : in_size ≤ length (memory_at input))
    (written : (encrypt_buffer S (some key) key_size opts input in_size out out_size w).0
      ≡ ok (file, size)) where
  -- Let the platform's calls be sound and invertible. If EncryptBuffer of `in_size` bytes succeeds,
  -- then the size it returns is at least that of a header and a record per chunk, at most that with
  -- the plaintext added, and no more than the buffer holds.
  pub encrypt_buffer-size :
      (64 + chunk_count_for in_size opts.chunk_size * 24 ≤ size)
      × (size ≤ 64 + chunk_count_for in_size opts.chunk_size * 24 + in_size)
      × (size ≤ length file)
  unfolding fill_header
  encrypt_buffer-size =
      let r =
        encrypt_buffer-Encrypted S sound inverts key key_size opts input in_size out out_size w file
          size there written in
      let header = fill_header opts in_size r.salt r.nonce_prefix in
      let range : InRange in_size opts.chunk_size = record {
        low = r.permitted.size_low;
        high = r.permitted.size_high;
        plain = r.small;
      } in
      let (_, few, _, _) = chunk_count_for_covers in_size opts.chunk_size range in
      let (_, _, bound) = worst_case_lem header in_size r.small few in
      let headed = length-serialize_file_header header r.valid in
      (
        omega (arith, Sealed-length r.contents.chunks, r.contents.total, headed),
        omega (arith, r.contents.fits, bound),
        r.contents.inside,
      )

  -- Let the platform's calls be sound and invertible. If EncryptBuffer of `in_size` bytes succeeds,
  -- then the size it returns is at most kMaxFileSize, the bound on the files that are read back.
  pub encrypt_buffer-max_file_size : size ≤ max_file_size
  encrypt_buffer-max_file_size =
      let r =
        encrypt_buffer-Encrypted S sound inverts key key_size opts input in_size out out_size w file
          size there written in
      let range : InRange in_size opts.chunk_size = record {
        low = r.permitted.size_low;
        high = r.permitted.size_high;
        plain = r.small;
      } in
      let (_, few, _, _) = chunk_count_for_covers in_size opts.chunk_size range in
      omega (arith, encrypt_buffer-size.1, few, r.small)

  -- Let the platform's calls be sound and invertible. If EncryptBuffer of `in_size` bytes succeeds,
  -- then InspectBuffer of the file, without any key, reports version 2, the size of the plaintext,
  -- the number of its chunks, and the options the file was written under.
  pub inspect_buffer-encrypt_buffer :
      (info : FileInfo)
      → inspect_buffer (some (slice file 0 size)) size (some info) ≡ ok (promised_info opts in_size)
  unfolding inspect_buffer fill_header
  inspect_buffer-encrypt_buffer info =
      let r =
        encrypt_buffer-Encrypted S sound inverts key key_size opts input in_size out out_size w file
          size there written in
      let header = fill_header opts in_size r.salt r.nonce_prefix in
      let headed = length-serialize_file_header header r.valid in
      let narrow : opts.compression % 2 ^ 8 ≡ opts.compression =
        omega (arith, r.permitted.compression) in
      rw
        (
          r.contents.content,
          parse_file_header-serialize_file_header header r.contents.body size initial_header r.valid
              (Sealed-IsByte r.contents.chunks) (omega (arith, r.contents.total, headed)),
        )
        (ap (λ t. ok (record (promised_info opts in_size) { compression = t })) narrow)
