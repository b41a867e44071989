-- ===== src/Platform/RandomBytes.antt =====
-- Fill of src/crypt/random.cc.
use model_crypt.Common.{ℕ, ◌-◌, ◌^◌, ◌≡◌, Option, some, none, ◌||◌, ltb, ◌==◌, length, All}
use model_crypt.Common.Buffer.{Bytes, IsByte}
use model_crypt.Common.Result.{Error, Result, ok, err, invalid_arg, crypto}
use model_crypt.Common.World.{Effect, ◌>>◌, reject_if, checked-eq_ok}
use model_crypt.Encrypt.Options.{is_null}
use model_crypt.Platform.Libraries.{Libraries, IsDocumented}

abbrev pub int_max : ℕ
int_max = 2 ^ 31 - 1

-- `if (call(...) != 1) { return error; }`
abbrev pub or_fail : {W A : Type 0} → Error → Option A × W → Result A × W
or_fail error (none, w) = (err error, w)
or_fail error (some a, w) = (ok a, w)

pub or_fail-eq_ok :
    {W A : Type 0} (error : Error) (q : Option A × W) {a : A}
    → (or_fail error q).0 ≡ ok a
    → q.0 ≡ some a
or_fail-eq_ok error (none, w) e = cc
or_fail-eq_ok error (some a, w) e = cc

pub or_fail-some :
    {W A : Type 0} (error : Error) (q : Option A × W) {a : A}
    → q.0 ≡ some a
    → (or_fail error q).0 ≡ ok a
or_fail-some error (none, w) e = cc
or_fail-some error (some a, w) e = cc

module _ (L : Libraries) where
  open L use {World, rand_bytes}

  -- The result is what is stored at `out`.
  unfoldable pub fill : Option Bytes → ℕ → Effect World Bytes
  fill out size = do
    reject_if (is_null out || size == 0) invalid_arg
    reject_if (ltb int_max size) invalid_arg
    λ w. or_fail crypto (rand_bytes size w)

  pub fill_shape :
      IsDocumented L
      → (out : Option Bytes) (size : ℕ) (w : World) (bs : Bytes) → (fill out size w).0 ≡ ok bs
      → (length bs ≡ size) × All IsByte bs
  unfolding fill
  fill_shape d out size w bs e =
      let (_, e1) = checked-eq_ok (is_null out || size == 0) invalid_arg _ w e in
      let (_, e2) = checked-eq_ok (ltb int_max size) invalid_arg _ w e1 in
      d.rand_shape size w bs (or_fail-eq_ok crypto (rand_bytes size w) e2)
