-- ===== src/Api.antt =====
-- The buffer functions of src/api/c_api.cc, over the caller's two out-cells, which do not overlap.
pub mod Laws
pub mod Files
pub mod Status
use model_crypt.Common.{
  ℕ, Option, some, none, Bool, true, false, ◌||◌, List, [], ◌∷◌, if◌then◌else◌,
}
use model_crypt.Common.Buffer.{Bytes}
use model_crypt.Common.Result.{Error, Result, ok, err, invalid_arg}
use model_crypt.Services.{Services}
use model_crypt.Encrypt.Options.{EncryptOptions, default_options, is_null}
use model_crypt.Encrypt.Buffer.{encrypt_buffer}
use model_crypt.Decrypt.Buffer.{decrypt_buffer}
use model_crypt.Decrypt.Inspect.{FileInfo, inspect_buffer}

-- The pointer at `*out`, `none` where it is null, and the number at `*out_size`.
pub record Cells : Type 0 where
  pub out : Option Bytes
  pub out_size : ℕ

-- SecureBuffer::Release(): an empty buffer never allocated, so it has no address.
abbrev pub release : Bytes → Option Bytes
release [] = none
release (b ∷ bs) = some (b ∷ bs)

-- What a call returns and leaves.
abbrev pub Outcome : Type 0 → Type 0
Outcome W = Result (Unit {0}) × Cells × W

unfoldable pub hand_off : Bytes → ℕ → Cells → Cells
hand_off buffer size cells = record { out = release buffer; out_size = size }

-- A successful call hands its buffer to the caller, and a failed one only its status.
unfoldable pub finish : {W : Type 0} → Cells → Result (Bytes × ℕ) × W → Outcome W
unfolding hand_off
finish cells (ok (buffer, size), w) = (ok tt, hand_off buffer size cells, w)
finish cells (err e, w) = (err e, cells, w)

-- `opts != nullptr ? *opts : DefaultOptions()`
unfoldable pub effective : Option EncryptOptions → EncryptOptions
unfolding default_options
effective (some opts) = opts
effective none = default_options

-- `*opts` after the call, `none` where `opts` is null.
unfoldable pub mc_encrypt_options_init : Option EncryptOptions → Option EncryptOptions
unfolding default_options
mc_encrypt_options_init none = none
mc_encrypt_options_init (some _) = some default_options

module _ (S : Services) where
  open S use {World}

  -- `out` and `out_size` say whether those pointers are null.
  unfoldable pub mc_encrypt_buffer :
      Option Bytes
      → ℕ
      → Option EncryptOptions
      → Option Bytes
      → ℕ
      → (out out_size : Option (Unit {0})) → Cells
      → World
      → Outcome World
  unfolding finish effective
  mc_encrypt_buffer key key_size opts input in_size out out_size cells w =
      if is_null out || is_null out_size
      then (err invalid_arg, cells, w)
      else finish cells
          (encrypt_buffer S key key_size (effective opts) input in_size (some []) (some 0) w)

  unfoldable pub mc_decrypt_buffer :
      Option Bytes
      → ℕ
      → Option Bytes
      → ℕ
      → (out out_size : Option (Unit {0})) → Cells
      → World
      → Outcome World
  unfolding finish
  mc_decrypt_buffer key key_size input in_size out out_size cells w =
      if is_null out || is_null out_size
      then (err invalid_arg, cells, w)
      else finish cells (decrypt_buffer S key key_size input in_size (some []) (some 0) w)

-- The result is what is stored through `info`.
unfoldable pub mc_inspect_buffer : Option Bytes → ℕ → Option FileInfo → Result FileInfo
mc_inspect_buffer input in_size info = inspect_buffer input in_size info
