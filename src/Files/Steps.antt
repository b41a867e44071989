-- ===== src/Files/Steps.antt =====
-- WriteFileAtomically of src/util/file_io.cc call by call, as the steps of a machine that may stop
-- between any two of them.
pub mod Atomic
pub mod Followed
use model_crypt.Common.{ℕ, ◌+◌, ◌-◌, ◌≡◌, Option, some, none, Bool, true, false, ltb}
use model_crypt.Common.Buffer.{Bytes, slice}
use model_crypt.Files.Posix.{Posix, Transfer, interrupted, refused, moved}
use model_crypt.Files.Paths.{template_for}

-- The call that comes next, or the status: `true` for MC_OK.
pub data Stage : Type 0 where
  creating : Stage
  setting_mode : ℕ → Bytes → Stage
  writing : ℕ → Bytes → ℕ → Stage
  flushing closing abandoning : ℕ → Bytes → Stage
  renaming removing : Bytes → Stage
  returned : Bool → Stage

module _ (P : Posix) (path bytes : Bytes) (size mode : ℕ) where
  pub data Step : Stage → P.World → Stage → P.World → Type 0 where
    created :
        {w w' : P.World} {fd : ℕ} {name : Bytes}
        → P.mkstemp (template_for path) w ≡ (some (fd, name), w')
        → Step creating w (setting_mode fd name) w'
    not_created :
        {w w' : P.World}
        → P.mkstemp (template_for path) w ≡ (none, w')
        → Step creating w (returned false) w'
    mode_set :
        {w w' : P.World} {fd : ℕ} {name : Bytes}
        → P.fchmod fd mode w ≡ (true, w')
        → Step (setting_mode fd name) w (writing fd name 0) w'
    mode_refused :
        {w w' : P.World} {fd : ℕ} {name : Bytes}
        → P.fchmod fd mode w ≡ (false, w')
        → Step (setting_mode fd name) w (abandoning fd name) w'
    wrote :
        {w w' : P.World} {fd at n : ℕ} {name : Bytes}
        → ltb at size ≡ true
        → P.write fd (slice bytes at (size - at)) w ≡ (moved n, w')
        → Step (writing fd name at) w (writing fd name (at + n)) w'
    write_interrupted :
        {w w' : P.World} {fd at : ℕ} {name : Bytes}
        → ltb at size ≡ true
        → P.write fd (slice bytes at (size - at)) w ≡ (interrupted, w')
        → Step (writing fd name at) w (writing fd name at) w'
    write_refused :
        {w w' : P.World} {fd at : ℕ} {name : Bytes}
        → ltb at size ≡ true
        → P.write fd (slice bytes at (size - at)) w ≡ (refused, w')
        → Step (writing fd name at) w (abandoning fd name) w'
    all_written :
        {w : P.World} {fd at : ℕ} {name : Bytes}
        → ltb at size ≡ false
        → Step (writing fd name at) w (flushing fd name) w
    flushed :
        {w w' : P.World} {fd : ℕ} {name : Bytes}
        → P.fsync fd w ≡ (true, w')
        → Step (flushing fd name) w (closing fd name) w'
    flush_refused :
        {w w' : P.World} {fd : ℕ} {name : Bytes}
        → P.fsync fd w ≡ (false, w')
        → Step (flushing fd name) w (abandoning fd name) w'
    closed :
        {w w' : P.World} {fd : ℕ} {name : Bytes}
        → P.close fd w ≡ (true, w')
        → Step (closing fd name) w (renaming name) w'
    close_refused :
        {w w' : P.World} {fd : ℕ} {name : Bytes}
        → P.close fd w ≡ (false, w')
        → Step (closing fd name) w (removing name) w'
    renamed :
        {w w' : P.World} {name : Bytes}
        → P.rename name path w ≡ (true, w')
        → Step (renaming name) w (returned true) w'
    rename_refused :
        {w w' : P.World} {name : Bytes}
        → P.rename name path w ≡ (false, w')
        → Step (renaming name) w (removing name) w'
    abandoned :
        {w w' : P.World} {fd : ℕ} {name : Bytes} {b : Bool}
        → P.close fd w ≡ (b, w')
        → Step (abandoning fd name) w (removing name) w'
    removed :
        {w w' : P.World} {name : Bytes} {b : Bool}
        → P.unlink name w ≡ (b, w')
        → Step (removing name) w (returned false) w'

  -- What a call that started in `s` and `v` may have come to.
  pub data Reach (s : Stage) (v : P.World) : Stage → P.World → Type 0 where
    here : Reach s v s v
    next : {t t' : Stage} {w w' : P.World} → Reach s v t w → Step t w t' w' → Reach s v t' w'
