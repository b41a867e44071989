-- ===== src/Files/Running.antt =====
-- Functions that contain a loop which the code does not bound. They are given fuel: the outcome is
-- `none` while such a loop is still running.
use model_crypt.Common.{◌≡◌, refl, Option, some, none}
use model_crypt.Common.Result.{Result, ok, err}

-- A loop that is running, has met an error, or is through.
pub data Loop (A : Type 0) : Type 0 where
  running failed : Loop A
  finished : A → Loop A

abbrev pub Running : Type 0 → Type 0 → Type 0
Running W A = W → Option (Result A) × W

abbrev pub run_outcome :
    {W A B : Type 0} → Option (Result A) × W → (A → Running W B) → Option (Result B) × W
run_outcome (none, w) f = (none, w)
run_outcome (some (err e), w) f = (some (err e), w)
run_outcome (some (ok a), w) f = f a w

-- `rc = call(); if (rc != MC_OK) { return rc; }`
infixl 5 ◌>>=◌
abbrev pub ◌>>=◌ : {W A B : Type 0} → Running W A → (A → Running W B) → Running W B
◌>>=◌ m f w = run_outcome (m w) f

-- To show something of a chain that succeeds, show it of the rest after its first call.
module _ {W A B : Type 0} {b : B} (Goal : Option (Result B) × W → Type 0) (m : Running W A)
    (f : A → Running W B) (w : W) where
  pub run_through :
      ((a : A) (v : W) → m w ≡ (some (ok a), v) → (f a v).0 ≡ some (ok b) → Goal (f a v))
      → ((m >>= f) w).0 ≡ some (ok b)
      → Goal ((m >>= f) w)
  run_through k h = go (m w) refl h
    where
      go :
          (q : Option (Result A) × W)
          → m w ≡ q
          → (run_outcome q f).0 ≡ some (ok b)
          → Goal (run_outcome q f)
      go (none, v) e h = cc
      go (some (err x), v) e h = cc
      go (some (ok a), v) e h = k a v e h
