-- ===== src/Files/Write.antt =====
-- WriteFully and WriteFileAtomically of src/util/file_io.cc.
pub mod Outcome
use model_crypt.Common.{
  ℕ, zero, suc, ◌+◌, ◌-◌, ◌≡◌, Option, some, none, Bool, true, false, ◌&&◌, [], ◌∷◌, ltb,
  if◌then◌else◌,
}
use model_crypt.Common.Buffer.{Bytes, slice}
use model_crypt.Common.Result.{Result, ok, err, invalid_arg, io}
use model_crypt.Encrypt.Options.{is_null, memory_at}
use model_crypt.Files.Running.{Running, Loop, running, failed, finished}
use model_crypt.Files.Posix.{Posix, Transfer, interrupted, refused, moved}
use model_crypt.Files.Paths.{template_for}

module _ (P : Posix) where
  open P use {World, write, mkstemp, fchmod, fsync, close, rename, unlink}

  -- One round of the loop, given what write() did and the rounds that follow.
  abbrev pub after_transfer :
      (ℕ → World → Loop (Unit {0}) × World) → ℕ → Transfer ℕ × World → Loop (Unit {0}) × World
  after_transfer again at (interrupted, w) = again at w
  after_transfer again at (refused, w) = (failed, w)
  after_transfer again at (moved n, w) = again (at + n) w

  -- `fuel` bounds the calls of write().
  unfoldable pub write_fully : ℕ → ℕ → Bytes → ℕ → ℕ → World → Loop (Unit {0}) × World
  write_fully zero fd input size at w = if ltb at size then (running, w) else (finished tt, w)
  write_fully (suc fuel) fd input size at w =
      if ltb at size
      then after_transfer (write_fully fuel fd input size) at
          (write fd (slice input at (size - at)) w)
      else (finished tt, w)

  -- The ways out, the last first: what follows each call, given what it returned.
  abbrev pub give_up : Bytes → Running World (Unit {0})
  give_up name w = let (_, w') = unlink name w in (some (err io), w')

  abbrev pub close_and_give_up : ℕ → Bytes → Running World (Unit {0})
  close_and_give_up fd name w = let (_, w') = close fd w in give_up name w'

  abbrev pub after_rename : Bytes → Bool × World → Option (Result (Unit {0})) × World
  after_rename name (false, w) = give_up name w
  after_rename name (true, w) = (some (ok tt), w)

  abbrev pub after_close : Bytes → Bytes → Bool × World → Option (Result (Unit {0})) × World
  after_close path name (false, w) = give_up name w
  after_close path name (true, w) = after_rename name (rename name path w)

  abbrev pub after_fsync : Bytes → ℕ → Bytes → Bool × World → Option (Result (Unit {0})) × World
  after_fsync path fd name (false, w) = close_and_give_up fd name w
  after_fsync path fd name (true, w) = after_close path name (close fd w)

  abbrev pub after_write :
      Bytes → ℕ → Bytes → Loop (Unit {0}) × World → Option (Result (Unit {0})) × World
  after_write path fd name (running, w) = (none, w)
  after_write path fd name (failed, w) = close_and_give_up fd name w
  after_write path fd name (finished u, w) = after_fsync path fd name (fsync fd w)

  unfoldable pub after_fchmod :
      ℕ → Bytes → Bytes → ℕ → ℕ → Bytes → Bool × World → Option (Result (Unit {0})) × World
  unfolding write_fully
  after_fchmod fuel path bytes size fd name (false, w) = close_and_give_up fd name w
  after_fchmod fuel path bytes size fd name (true, w) =
      after_write path fd name
        (if ltb 0 size then write_fully fuel fd bytes size 0 w else (finished tt, w))

  unfoldable pub after_mkstemp :
      ℕ → Bytes → Bytes → ℕ → ℕ → Option (ℕ × Bytes) × World → Option (Result (Unit {0})) × World
  unfolding after_fchmod
  after_mkstemp fuel path bytes size mode (none, w) = (some (err io), w)
  after_mkstemp fuel path bytes size mode (some (fd, name), w) =
      after_fchmod fuel path bytes size fd name (fchmod fd mode w)

  unfoldable pub write_file_atomically :
      ℕ → Bytes → Option Bytes → (size mode : ℕ) → Running World (Unit {0})
  unfolding after_mkstemp template_for
  write_file_atomically fuel path bytes size mode w =
      if ltb 0 size && is_null bytes
      then (some (err invalid_arg), w)
      else after_mkstemp fuel path (memory_at bytes) size mode (mkstemp (template_for path) w)
