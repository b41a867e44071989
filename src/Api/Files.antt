-- ===== src/Api/Files.antt =====
-- The file functions of src/api/c_api.cc. Two things are left out of them: wiping what their buffers
-- held, and running out of memory where WriteFileAtomically puts the name of its temporary together.
pub mod Laws
pub mod Calls
pub mod RoundTrip
use model_crypt.Common.{
  ℕ, ◌≡◌, Option, some, none, Bool, true, false, ◌||◌, [], not, length, if◌then◌else◌,
}
use model_crypt.Common.Buffer.{Bytes}
use model_crypt.Common.Result.{Error, Result, ok, err, invalid_arg, memory}
use model_crypt.Common.World.{Effect, reject_if, ◌>>◌, done, fail}
use model_crypt.Services.{Services}
use model_crypt.Format.Types.{max_plaintext_size, max_file_size}
use model_crypt.Encrypt.Options.{EncryptOptions, is_null}
use model_crypt.Encrypt.Buffer.{encrypt_buffer}
use model_crypt.Decrypt.Buffer.{decrypt_buffer}
use model_crypt.Files.Posix.{Posix}
use model_crypt.Files.Running.{Running, ◌>>=◌}
use model_crypt.Files.Read.{Machine, on_system, on_services, read_file}
use model_crypt.Files.Write.{write_file_atomically}
use model_crypt.Api.{Cells, release, hand_off, effective}

-- What the functions run on. `new_string` says whether a std::string of a length was made, or
-- std::bad_alloc was thrown.
pub record Host : Type 1 where
  pub services : Services
  pub posix : Posix
  pub new_string : ℕ → services.World → Bool × services.World

-- SecureBuffer::data(), null for a buffer of size 0.
abbrev pub data_of : Bytes → Option Bytes
data_of = release

module _ (H : Host) where
  open H use {services, posix, new_string}

  abbrev pub State : Type 0
  State = Machine services posix

  -- A call that reaches the services only, and one that reaches the system only.
  abbrev pub served : {A : Type 0} → Effect services.World A → Running State A
  served call m = let (r, m') = on_services services posix m (call m.services) in (some r, m')

  abbrev pub by_system : {A : Type 0} → Running posix.World A → Running State A
  by_system call m = on_system services posix m (call m.system)

  -- ToPath, with the catch around it.
  unfoldable pub to_path : Option Bytes → Effect services.World Bytes
  to_path none v = (err invalid_arg, v)
  to_path (some path) v =
      let (made, v') = new_string (length path) v in (if made then ok path else err memory, v')

  -- The mode is 0644.
  unfoldable pub mc_encrypt_file :
      ℕ
      → Option Bytes
      → ℕ
      → Option EncryptOptions
      → (in_path out_path : Option Bytes) → Running State (Unit {0})
  unfolding to_path effective
  mc_encrypt_file fuel key key_size opts in_path out_path = do
    input_path ← served (to_path in_path)
    output_path ← served (to_path out_path)
    (plaintext, plaintext_size) ←
        read_file services posix fuel input_path max_plaintext_size (some tt) (some tt)
    (ciphertext, ciphertext_size) ← served (
        encrypt_buffer services key key_size (effective opts) (data_of plaintext) plaintext_size
          (some []) (some 0))
    by_system
        (write_file_atomically posix fuel output_path (data_of ciphertext) ciphertext_size 420)

  -- ReadFile and DecryptBuffer, which two functions share.
  unfoldable pub read_and_decrypt : ℕ → Option Bytes → ℕ → Bytes → Running State (Bytes × ℕ)
  read_and_decrypt fuel key key_size input_path = do
    (ciphertext, ciphertext_size) ←
        read_file services posix fuel input_path max_file_size (some tt) (some tt)
    served (
        decrypt_buffer services key key_size (data_of ciphertext) ciphertext_size (some [])
          (some 0))

  -- The mode is 0600.
  unfoldable pub mc_decrypt_file :
      ℕ → Option Bytes → ℕ → (in_path out_path : Option Bytes) → Running State (Unit {0})
  unfolding to_path read_and_decrypt
  mc_decrypt_file fuel key key_size in_path out_path = do
    input_path ← served (to_path in_path)
    output_path ← served (to_path out_path)
    (plaintext, plaintext_size) ← read_and_decrypt fuel key key_size input_path
    by_system (write_file_atomically posix fuel output_path (data_of plaintext) plaintext_size 384)

  -- A successful call hands its buffer to the caller, and a failed one only its status.
  unfoldable pub deliver :
      Cells → Option (Result (Bytes × ℕ)) × State → Option (Result (Unit {0})) × Cells × State
  unfolding hand_off
  deliver cells (none, m) = (none, cells, m)
  deliver cells (some (err error), m) = (some (err error), cells, m)
  deliver cells (some (ok (bytes, size)), m) = (some (ok tt), hand_off bytes size cells, m)

  unfoldable pub mc_decrypt_file_to_buffer :
      ℕ
      → Option Bytes
      → ℕ
      → (in_path : Option Bytes) (out out_size : Option (Unit {0})) → Cells
      → State
      → Option (Result (Unit {0})) × Cells × State
  unfolding to_path read_and_decrypt deliver
  mc_decrypt_file_to_buffer fuel key key_size in_path out out_size cells m =
      let whole : Running State (Bytes × ℕ) = do
        input_path ← served (to_path in_path)
        read_and_decrypt fuel key key_size input_path
      in if is_null out || is_null out_size
        then (some (err invalid_arg), cells, m)
        else deliver cells (whole m)
