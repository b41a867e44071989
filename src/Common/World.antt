-- ===== src/Common/World.antt =====
-- Calls that reach the platform: OpenSSL, zlib, the allocator. Each takes the state of the world
-- and leaves another, so a second call with the same arguments may end differently.
use mathlib.Core.Path.{◌≡◌, refl}
use mathlib.Core.Bool.{Bool, true, false}
use model_crypt.Common.Result.{Error, Result, ok, err, ok_injective}

abbrev pub Effect : Type 0 → Type 0 → Type 0
Effect W A = W → Result A × W

abbrev pub bind_outcome : {W A B : Type 0} → Result A × W → (A → Effect W B) → Result B × W
bind_outcome (ok a, w) f = f a w
bind_outcome (err e, w) f = (err e, w)

infixl 5 ◌>>=◌ ◌>>◌
abbrev pub ◌>>=◌ : {W A B : Type 0} → Effect W A → (A → Effect W B) → Effect W B
◌>>=◌ m f w = bind_outcome (m w) f

abbrev pub ◌>>◌ : {W B : Type 0} → Effect W (Unit {0}) → Effect W B → Effect W B
m >> k = m >>= λ _. k

abbrev pub done : {W A : Type 0} → A → Effect W A
done a w = (ok a, w)

abbrev pub fail : {W A : Type 0} → Error → Effect W A
fail e w = (err e, w)

-- A call that does not reach the platform.
abbrev pub lift : {W A : Type 0} → Result A → Effect W A
lift r w = (r, w)

-- `if (test) { return error; }`
abbrev pub reject_if : {W : Type 0} → Bool → Error → Effect W (Unit {0})
reject_if true e w = (err e, w)
reject_if false e w = (ok tt, w)

module _ {W A B : Type 0} (m : Effect W A) (f : A → Effect W B) (w : W) where
  -- A call that succeeds hands its value and its world on.
  pub bind_ok : {a : A} → (m w).0 ≡ ok a → (m >>= f) w ≡ f a (m w).1
  bind_ok {a} h = go (m w) h
    where
      go : (r : Result A × W) → r.0 ≡ ok a → bind_outcome r f ≡ f a r.1
      go (ok b, v) e = cc
      go (err x, v) e = cc

  pub bind_err : {e : Error} → (m w).0 ≡ err e → ((m >>= f) w).0 ≡ err e
  bind_err {e} h = go (m w) h
    where
      go : (r : Result A × W) → r.0 ≡ err e → (bind_outcome r f).0 ≡ err e
      go (ok b, v) h = cc
      go (err x, v) h = cc

  -- What a successful chain says of its first call.
  pub bind-eq_ok :
      {b : B} → ((m >>= f) w).0 ≡ ok b → (a : A) × ((m w).0 ≡ ok a) × ((f a (m w).1).0 ≡ ok b)
  bind-eq_ok {b} h = go (m w) h
    where
      go :
          (r : Result A × W)
          → (bind_outcome r f).0 ≡ ok b
          → (a : A) × (r.0 ≡ ok a) × ((f a r.1).0 ≡ ok b)
      go (ok a, v) e = (a, refl, e)
      go (err x, v) e = cc

pub reject_if-eq_ok :
    {W : Type 0} (test : Bool) (e : Error) (w : W) {u : Unit {0}}
    → (reject_if test e w).0 ≡ ok u
    → test ≡ false
reject_if-eq_ok true e w h = cc
reject_if-eq_ok false e w h = refl

module _ {W A : Type 0} (test : Bool) (e : Error) (m : Effect W A) (w : W) where
  -- A check that was passed leaves the rest of the chain.
  pub checked-eq_ok :
      {a : A} → ((reject_if test e >>= λ _. m) w).0 ≡ ok a → (test ≡ false) × ((m w).0 ≡ ok a)
  checked-eq_ok {a} h = go test h
    where
      go : (b : Bool) → ((reject_if b e >>= λ _. m) w).0 ≡ ok a → (b ≡ false) × ((m w).0 ≡ ok a)
      go true h = cc
      go false h = (refl, h)

-- A chain succeeds if its first call does, and the rest does from any world.
module _ {W A B : Type 0} (m : Effect W A) (f : A → Effect W B) (w : W) {a : A} {b : B} where
  pub bind_then : (m w).0 ≡ ok a → ((v : W) → (f a v).0 ≡ ok b) → ((m >>= f) w).0 ≡ ok b
  bind_then h k = go (m w) h
    where
      go : (r : Result A × W) → r.0 ≡ ok a → (bind_outcome r f).0 ≡ ok b
      go (ok c, v) e = rw (ok_injective e) (k v)
      go (err x, v) e = cc
