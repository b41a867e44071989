-- ===== src/Platform/Kdf.antt =====
-- DeriveKey of src/crypt/kdf.cc, with SecureBuffer::Reset of src/crypt/secure_buffer.cc as far as
-- its callers see it.
use model_crypt.Common.{
  ℕ, ◌+◌, ◌%◌, ◌^◌, ◌≡◌, Option, Bool, true, not, ◌||◌, ltb, ◌==◌, ◌/=◌, if◌then◌else◌, Bool-cases,
  inl, inr,
}
use model_crypt.Common.Buffer.{Bytes, slice}
use model_crypt.Common.Result.{ok, invalid_arg, memory, crypto}
use model_crypt.Common.World.{Effect, ◌>>◌, reject_if, bind-eq_ok, checked-eq_ok, bind_then}
use model_crypt.Format.Types.{min_key_size, salt_size, key_size, max_kdf_memory}
use model_crypt.Encrypt.Options.{is_null, memory_at}
use model_crypt.Platform.Libraries.{Libraries, Reverses}
use model_crypt.Platform.RandomBytes.{or_fail, or_fail-eq_ok, or_fail-some}

module _ (L : Libraries) where
  open L use {World, new_block, pbe_scrypt}

  -- SecureBuffer::Reset: nothing is allocated for size 0.
  unfoldable pub reset : ℕ → World → Bool × World
  reset size w = if size == 0 then (true, w) else new_block size w

  pub reset_succeeds : Reverses L → (n : ℕ) (w : World) → (reset n w).0 ≡ true
  unfolding reset
  reset_succeeds r n w = elim (Bool-cases (n == 0)) [
    | inl none_wanted ↦ rw none_wanted
    | inr wanted ↦ rw wanted (r.new_block_succeeds n w)
  ]

  unfoldable pub allocate_key : Effect World (Unit {0})
  unfolding reset
  allocate_key w = let (there, w') = reset key_size w in reject_if (not there) memory w'

  abbrev pub max_mem : ℕ
  max_mem = (max_kdf_memory + 2 ^ 20) % 2 ^ 64

  -- The result is what is moved to `*out`.
  unfoldable pub derive_key :
      Option Bytes
      → ℕ
      → Option Bytes
      → ℕ
      → (log_n r p : ℕ) → (out : Option (Unit {0})) → Effect World Bytes
  unfolding allocate_key
  derive_key key length_of_key salt length_of_salt log_n r p out = do
    reject_if (is_null key || is_null salt || is_null out) invalid_arg
    reject_if (ltb length_of_key min_key_size || length_of_salt /= salt_size) invalid_arg
    allocate_key
    λ w. or_fail crypto (
        pbe_scrypt (slice (memory_at key) 0 length_of_key) (slice (memory_at salt) 0 length_of_salt)
          (2 ^ log_n % 2 ^ 64) r p max_mem key_size w)

  -- scrypt is a function of its arguments.
  pub derive_again :
      Reverses L
      → (key salt : Option Bytes) (m n log_n r p : ℕ) (out : Option (Unit {0})) (w : World)
        (derived : Bytes)
      → (derive_key key m salt n log_n r p out w).0 ≡ ok derived
      → (v : World) → (derive_key key m salt n log_n r p out v).0 ≡ ok derived
  unfolding derive_key
  derive_again b key salt m n log_n r p out w derived e v =
      let (there, e1) =
        checked-eq_ok (is_null key || is_null salt || is_null out) invalid_arg _ w e in
      let (sizes, e2) = checked-eq_ok (ltb m min_key_size || n /= salt_size) invalid_arg _ w e1 in
      let (_, _, e3) = bind-eq_ok allocate_key _ w e2 in
      let ran =
        or_fail-eq_ok crypto
          (pbe_scrypt (slice (memory_at key) 0 m) (slice (memory_at salt) 0 n) (2 ^ log_n % 2 ^ 64)
            r p max_mem key_size _)
          e3 in
      rw (there, sizes)
        (bind_then allocate_key _ v (rw (reset_succeeds b key_size v)) (λ v1.
          or_fail-some crypto
            (pbe_scrypt (slice (memory_at key) 0 m) (slice (memory_at salt) 0 n)
              (2 ^ log_n % 2 ^ 64) r p max_mem key_size v1)
            (b.scrypt_again _ _ _ r p max_mem key_size _ derived ran v1)))
