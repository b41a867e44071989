-- ===== src/Common/Result.antt =====
-- The errors of mc_status (include/model_crypt/model_crypt.h), and functions that return a status
-- beside their out-parameters: `ok` holds what the call stored through them, `err` any status but
-- MC_OK. In a `do` block each line after an `err` is skipped, as the early returns of the code do.
use mathlib.Core.Path.{◌≡◌, refl}
use mathlib.Core.Bool.{Bool, true, false}
use mathlib.Core.Option.{some}

pub data Error : Type 0 where
  invalid_arg format unsupported auth compress crypto memory io too_large : Error

pub data Result {ℓ} (A : Type ℓ) : Type ℓ where
  ok : A → Result A
  err : Error → Result A

-- `if (test) { return error; }`
abbrev pub reject_if : Bool → Error → Result (Unit {0})
reject_if true error = err error
reject_if false error = ok tt

module _ {ℓ} {B : Type ℓ} where
  infixl 5 ◌>>=◌
  abbrev pub ◌>>=◌ {κ} : {A : Type κ} → Result A → (A → Result B) → Result B
  err error >>= rest = err error
  ok a >>= rest = rest a

  infixl 5 ◌>>◌
  abbrev pub ◌>>◌ : Result (Unit {0}) → Result B → Result B
  check >> rest = check >>= λ _. rest

pub ok_injective {ℓ} : {A : Type ℓ} {a b : A} → ok a ≡ ok b → a ≡ b
ok_injective e = cc

pub some_injective {ℓ} : {A : Type ℓ} {a b : A} → some a ≡ some b → a ≡ b
some_injective e = cc

-- What a chain that succeeds says of its first call, and of its first check.
module _ {B : Type 0} {last : B} where
  pub take_step :
      {A : Type 0} (first : Result A) (rest : A → Result B)
      → (first >>= rest) ≡ ok last
      → (found : A) × (first ≡ ok found) × (rest found ≡ ok last)
  take_step (err error) rest e = cc
  take_step (ok found) rest e = (found, refl, e)

  pub pass_check :
      (test : Bool) (error : Error) (rest : Result B)
      → (reject_if test error >> rest) ≡ ok last
      → (test ≡ false) × (rest ≡ ok last)
  pass_check true error rest e = cc
  pass_check false error rest e = (refl, e)
