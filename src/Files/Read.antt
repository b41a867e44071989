-- ===== src/Files/Read.antt =====
-- ReadFully and ReadFile of src/util/file_io.cc. The memory that Reset allocates comes from the
-- services, which have their own half of the world.
pub mod Contents
pub mod Keeps
use model_crypt.Common.{
  ℕ, zero, suc, ◌+◌, ◌-◌, ◌^◌, ◌≡◌, Option, some, none, Bool, true, false, not, ◌&&◌, ◌||◌, [], ◌∷◌,
  ltb, leb, length, if◌then◌else◌,
}
use model_crypt.Common.Buffer.{Bytes, memcpy, zeros}
use model_crypt.Common.Result.{Error, Result, ok, err, invalid_arg, io, too_large, memory}
use model_crypt.Services.{Services}
use model_crypt.Encrypt.Options.{is_null}
use model_crypt.Files.Running.{Running, Loop, running, failed, finished}
use model_crypt.Files.Posix.{
  Posix, Transfer, interrupted, refused, moved, Offset, pos, negsuc, Stat, s_isreg,
}

module _ (P : Posix) where
  open P use {World, read}

  -- One round of the loop, given what read() did and the rounds that follow.
  abbrev pub after_arrival :
      (Bytes → ℕ → World → Loop Bytes × World)
      → Bytes
      → ℕ
      → Transfer Bytes × World
      → Loop Bytes × World
  after_arrival again out at (interrupted, w) = again out at w
  after_arrival again out at (refused, w) = (failed, w)
  after_arrival again out at (moved [], w) = (failed, w)
  after_arrival again out at (moved (b ∷ bs), w) =
      again (memcpy out at (b ∷ bs)) (at + length (b ∷ bs)) w

  -- `fuel` bounds the calls of read(); the result is the memory at `out`.
  unfoldable pub read_fully : ℕ → ℕ → ℕ → Bytes → ℕ → World → Loop Bytes × World
  read_fully zero fd size out at w = if ltb at size then (running, w) else (finished out, w)
  read_fully (suc fuel) fd size out at w =
      if ltb at size
      then after_arrival (read_fully fuel fd size) out at (read fd (size - at) w)
      else (finished out, w)

-- What the checks on st make of it: the size to read, or the error.
unfoldable pub check_stat : ℕ → Option Stat → Result ℕ
check_stat max_size none = err io
check_stat max_size (some st) = if not (s_isreg st.st_mode) then err io else elim st.st_size [
  | negsuc _ ↦ err io
  | pos size ↦ if ltb max_size size || leb (2 ^ 64) size then err too_large else ok size
]

module _ (S : Services) (P : Posix) where
  -- The state of the services, and that of the system.
  pub record Machine : Type 0 where
    pub services : S.World
    pub system : P.World

  -- The same machine, once a call has changed one half of it.
  abbrev pub on_system : {A : Type 0} → Machine → A × P.World → A × Machine
  on_system m (a, w) = (a, record m { system = w })

  abbrev pub on_services : {A : Type 0} → Machine → A × S.World → A × Machine
  on_services m (a, v) = (a, record m { services = v })

  -- `::close(fd); return result;`
  abbrev pub leave : Result (Bytes × ℕ) → ℕ → Running Machine (Bytes × ℕ)
  leave result fd m = let (_, m') = on_system m (P.close fd m.system) in (some result, m')

  abbrev pub after_read : ℕ → ℕ → Loop Bytes × Machine → Option (Result (Bytes × ℕ)) × Machine
  after_read fd size (running, m) = (none, m)
  after_read fd size (failed, m) = leave (err io) fd m
  after_read fd size (finished bytes, m) = leave (ok (bytes, size)) fd m

  unfoldable pub after_reset : ℕ → ℕ → ℕ → Bool × Machine → Option (Result (Bytes × ℕ)) × Machine
  unfolding read_fully
  after_reset fuel fd size (false, m) = leave (err memory) fd m
  after_reset fuel fd size (true, m) = after_read fd size (
      if ltb 0 size
      then on_system m (read_fully P fuel fd size (zeros size) 0 m.system)
      else (finished [], m))

  unfoldable pub after_checks : ℕ → ℕ → Result ℕ × Machine → Option (Result (Bytes × ℕ)) × Machine
  unfolding after_reset
  after_checks fuel fd (err error, m) = leave (err error) fd m
  after_checks fuel fd (ok size, m) =
      after_reset fuel fd size (on_services m (S.reset size m.services))

  unfoldable pub after_open : ℕ → ℕ → Option ℕ × Machine → Option (Result (Bytes × ℕ)) × Machine
  unfolding check_stat after_checks
  after_open fuel max_size (none, m) = (some (err io), m)
  after_open fuel max_size (some fd, m) =
      let (st, m') = on_system m (P.fstat fd m.system) in
      after_checks fuel fd (check_stat max_size st, m')

  -- The bytes and the count that are stored at `out` and `out_size`.
  unfoldable pub read_file :
      ℕ → Bytes → ℕ → (out out_size : Option (Unit {0})) → Running Machine (Bytes × ℕ)
  unfolding after_open
  read_file fuel path max_size out out_size m =
      if is_null out || is_null out_size
      then (some (err invalid_arg), m)
      else after_open fuel max_size (on_system m (P.open_file path m.system))
