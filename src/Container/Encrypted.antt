-- ===== src/Container/Encrypted.antt =====
-- A successful EncryptBuffer, from its arguments: the header is valid and the file holds the job.
use model_crypt.Common.{ℕ, ◌^◌, ◌≤◌, ◌≡◌, refl, Option, some, arith, length, All}
use model_crypt.Common.Buffer.{Bytes, IsByte, slice, length-slice}
use model_crypt.Common.Result.{ok}
use model_crypt.Common.World.{lift, bind-eq_ok}
use model_crypt.Services.{Services, IsSound, Inverts}
use model_crypt.Format.Sizes.Counts.{InRange}
use model_crypt.Format.Header.Validity.{IsValid}
use model_crypt.Format.Header.RoundTrip.{length-serialize_file_header}
use model_crypt.Encrypt.Options.{
  EncryptOptions, IsPermitted, memory_at, check_arguments, check_arguments-facts,
}
use model_crypt.Encrypt.Buffer.{fill_header, encrypt_buffer}
use model_crypt.Container.Produced.{job_for, Contents, write_file-Contents}

-- For permitted options, at most 64 GiB of plaintext, 16 bytes of salt and 8 bytes of nonce prefix,
-- the header that EncryptBuffer fills in is valid: it meets each condition of ParseFileHeader.
pub fill_header-IsValid :
    (opts : EncryptOptions) (in_size : ℕ) (salt nonce_prefix : Bytes)
    → IsPermitted opts
    → in_size ≤ 2 ^ 36
    → (length salt ≡ 16) × All IsByte salt
    → (length nonce_prefix ≡ 8) × All IsByte nonce_prefix
    → IsValid (fill_header opts in_size salt nonce_prefix)
unfolding fill_header
fill_header-IsValid opts in_size salt nonce_prefix v small s n = record {
  version = refl;
  kdf = refl;
  aead = refl;
  compression = omega (arith, v.compression);
  log_n_low = v.log_n_low;
  log_n_high = v.log_n_high;
  r_low = v.r_low;
  r_high = v.r_high;
  p_low = v.p_low;
  p_high = v.p_high;
  memory = v.memory;
  salted = s.0;
  salt_bytes = s.1;
  prefixed = n.0;
  prefix_bytes = n.1;
  size_low = v.size_low;
  size_high = v.size_high;
  plaintext = small;
  count = refl;
}

-- The plaintext that the call is given.
abbrev pub input_of : Option Bytes → ℕ → Bytes
input_of input in_size = slice (memory_at input) 0 in_size

module _ (S : Services) (sound : IsSound S) (inverts : Inverts S) where
  pub record Encrypted (key : Bytes) (key_size : ℕ) (opts : EncryptOptions) (plain : Bytes)
      (in_size : ℕ) (file : Bytes) (size : ℕ) : Type 0 where
    pub salt : Bytes
    pub nonce_prefix : Bytes
    pub derived : Bytes
    pub world : S.World
    pub long_key : 12 ≤ key_size
    pub permitted : IsPermitted opts
    pub small : in_size ≤ 2 ^ 36
    pub valid : IsValid (fill_header opts in_size salt nonce_prefix)
    pub derivation :
        (S.derive_key (slice key 0 key_size) salt opts.kdf_log_n opts.kdf_r opts.kdf_p world).0
        ≡ ok derived
    pub contents :
        Contents S sound inverts (job_for opts salt nonce_prefix derived plain in_size) file size

  pub encrypt_buffer-Encrypted :
      (key : Bytes) (key_size : ℕ) (opts : EncryptOptions) (input : Option Bytes) (in_size : ℕ)
      (out : Option Bytes) (out_size : Option ℕ) (w : S.World) (file : Bytes) (size : ℕ)
      → in_size ≤ length (memory_at input)
      → (encrypt_buffer S (some key) key_size opts input in_size out out_size w).0 ≡ ok (file, size)
      → Encrypted key key_size opts (input_of input in_size) in_size file size
  unfolding encrypt_buffer fill_header
  encrypt_buffer-Encrypted key key_size opts input in_size out out_size w file size there e =
      let (_, checked, e5) =
        bind-eq_ok (lift (check_arguments (some key) key_size opts input in_size out out_size)) _ w
          e in
      let (salt, salted, e6) = bind-eq_ok (S.fill 16) _ w e5 in
      let (nonce_prefix, prefixed, e7) = bind-eq_ok (S.fill 8) _ _ e6 in
      let (derived, derivation, e8) =
        bind-eq_ok (S.derive_key (slice key 0 key_size) salt opts.kdf_log_n opts.kdf_r opts.kdf_p) _
          _ e7 in
      let (long, small, permitted) =
        check_arguments-facts (some key) key_size opts input in_size out out_size checked in
      let valid =
        fill_header-IsValid opts in_size salt nonce_prefix permitted small
          (sound.fill_bytes 16 _ salt salted) (sound.fill_bytes 8 _ nonce_prefix prefixed) in
      let range : InRange in_size opts.chunk_size = record {
        low = permitted.size_low;
        high = permitted.size_high;
        plain = small;
      } in
      record {
        salt = salt;
        nonce_prefix = nonce_prefix;
        derived = derived;
        world = _;
        long_key = long;
        permitted = permitted;
        small = small;
        valid = valid;
        derivation = derivation;
        contents =
            write_file-Contents S sound inverts opts
              (job_for opts salt nonce_prefix derived (input_of input in_size) in_size) _ file size
              range refl
              (length-serialize_file_header (fill_header opts in_size salt nonce_prefix) valid)
              (length-slice (memory_at input) 0 in_size (omega (arith, there))) e8;
      }
