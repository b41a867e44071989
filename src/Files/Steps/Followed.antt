-- ===== src/Files/Steps/Followed.antt =====
-- WriteFileAtomically as a function takes exactly the steps of the machine.
use model_crypt.Common.{
  ℕ, zero, suc, ◌+◌, ◌-◌, ◌≡◌, refl, Option, some, none, Bool, true, false, ◌&&◌, ltb,
  if◌then◌else◌, Bool-cases, inl, inr,
}
use model_crypt.Common.Buffer.{Bytes, slice}
use model_crypt.Common.Result.{Result, ok, err}
use model_crypt.Encrypt.Options.{is_null, memory_at}
use model_crypt.Files.Running.{Loop, running, failed, finished}
use model_crypt.Files.Posix.{Posix, Transfer, interrupted, refused, moved}
use model_crypt.Files.Paths.{template_for}
use model_crypt.Files.Write.{
  after_transfer, write_fully, give_up, close_and_give_up, after_rename, after_close, after_fsync,
  after_write, after_fchmod, after_mkstemp, write_file_atomically,
}
use model_crypt.Files.Steps.{
  Stage, creating, setting_mode, writing, flushing, closing, abandoning, renaming, removing,
  returned, created, not_created, mode_set, mode_refused, wrote, write_interrupted, write_refused,
  all_written, flushed, flush_refused, closed, close_refused, renamed, rename_refused, abandoned,
  removed, Reach, here, next,
}

module _ (P : Posix) (path bytes : Bytes) (size mode : ℕ) (s : Stage) (v : P.World) where
  abbrev Reached : Stage → P.World → Type 0
  Reached t w = Reach P path bytes size mode s v t w

  -- The stage that an outcome stands for; a loop that is still running is at some call.
  abbrev pub Came : Option (Result (Unit {0})) × P.World → Type 0
  Came (none, w) = (t : Stage) × Reached t w
  Came (some (ok u), w) = Reached (returned true) w
  Came (some (err e), w) = Reached (returned false) w

  give_up-Came : (name : Bytes) (w : P.World) → Reached (removing name) w → Came (give_up P name w)
  give_up-Came name w r = next r (removed refl)

  close-Came :
      (fd : ℕ) (name : Bytes) (w : P.World)
      → Reached (abandoning fd name) w
      → Came (close_and_give_up P fd name w)
  close-Came fd name w r = give_up-Came name _ (next r (abandoned refl))

  rename-Came :
      (name : Bytes) (w : P.World) (q : Bool × P.World)
      → P.rename name path w ≡ q
      → Reached (renaming name) w
      → Came (after_rename P name q)
  rename-Came name w (true, w') e r = next r (renamed e)
  rename-Came name w (false, w') e r = give_up-Came name w' (next r (rename_refused e))

  closed-Came :
      (fd : ℕ) (name : Bytes) (w : P.World) (q : Bool × P.World)
      → P.close fd w ≡ q
      → Reached (closing fd name) w
      → Came (after_close P path name q)
  closed-Came fd name w (true, w') e r = rename-Came name w' _ refl (next r (closed e))
  closed-Came fd name w (false, w') e r = give_up-Came name w' (next r (close_refused e))

  fsync-Came :
      (fd : ℕ) (name : Bytes) (w : P.World) (q : Bool × P.World)
      → P.fsync fd w ≡ q
      → Reached (flushing fd name) w
      → Came (after_fsync P path fd name q)
  fsync-Came fd name w (true, w') e r = closed-Came fd name w' _ refl (next r (flushed e))
  fsync-Came fd name w (false, w') e r = close-Came fd name w' (next r (flush_refused e))

  abbrev Wrote : ℕ → Bytes → Loop (Unit {0}) × P.World → Type 0
  Wrote fd name (running, w) = (at : ℕ) × Reached (writing fd name at) w
  Wrote fd name (failed, w) = Reached (abandoning fd name) w
  Wrote fd name (finished u, w) = Reached (flushing fd name) w

  round-Wrote :
      (fd : ℕ) (name : Bytes) (again : ℕ → P.World → Loop (Unit {0}) × P.World)
      → ((at : ℕ) (w : P.World) → Reached (writing fd name at) w → Wrote fd name (again at w))
      → (at : ℕ) (w : P.World) (q : Transfer ℕ × P.World) → ltb at size ≡ true
      → P.write fd (slice bytes at (size - at)) w ≡ q
      → Reached (writing fd name at) w
      → Wrote fd name (after_transfer P again at q)
  round-Wrote fd name again rest at w (interrupted, w') more e r =
      rest at w' (next r (write_interrupted more e))
  round-Wrote fd name again rest at w (refused, w') more e r = next r (write_refused more e)
  round-Wrote fd name again rest at w (moved n, w') more e r =
      rest (at + n) w' (next r (wrote more e))

  write_fully-Wrote :
      (fuel fd : ℕ) (name : Bytes) (at : ℕ) (w : P.World)
      → Reached (writing fd name at) w
      → Wrote fd name (write_fully P fuel fd bytes size at w)
  unfolding write_fully
  write_fully-Wrote zero fd name at w r = elim (Bool-cases (ltb at size)) [
    | inl more ↦ rw more (at, r)
    | inr through ↦ rw through (next r (all_written through))
  ]
  write_fully-Wrote (suc fuel) fd name at w r = elim (Bool-cases (ltb at size)) [
    | inr through ↦ rw through (next r (all_written through))
    | inl more ↦ rw more (
        round-Wrote fd name (write_fully P fuel fd bytes size)
          (λ at' w' r'. write_fully-Wrote fuel fd name at' w' r') at w _ more refl r)
  ]

  write-Came :
      (fd : ℕ) (name : Bytes) (q : Loop (Unit {0}) × P.World)
      → Wrote fd name q
      → Came (after_write P path fd name q)
  write-Came fd name (running, w) (at, r) = (writing fd name at, r)
  write-Came fd name (failed, w) r = close-Came fd name w r
  write-Came fd name (finished u, w) r = fsync-Came fd name w _ refl r

  fchmod-Came :
      (fuel fd : ℕ) (name : Bytes) (w : P.World) (q : Bool × P.World)
      → P.fchmod fd mode w ≡ q
      → Reached (setting_mode fd name) w
      → Came (after_fchmod P fuel path bytes size fd name q)
  unfolding after_fchmod
  fchmod-Came fuel fd name w (false, w') e r = close-Came fd name w' (next r (mode_refused e))
  fchmod-Came fuel fd name w (true, w') e r = write-Came fd name _ written
    where
      written :
          Wrote fd name
            (if ltb 0 size then write_fully P fuel fd bytes size 0 w' else (finished tt, w'))
      written = elim (Bool-cases (ltb 0 size)) [
        | inl some_bytes ↦ rw some_bytes (write_fully-Wrote fuel fd name 0 w' (next r (mode_set e)))
        | inr empty ↦ rw empty (next (next r (mode_set e)) (all_written empty))
      ]

  mkstemp-Came :
      (fuel : ℕ) (w : P.World) (q : Option (ℕ × Bytes) × P.World)
      → P.mkstemp (template_for path) w ≡ q
      → Reached creating w
      → Came (after_mkstemp P fuel path bytes size mode q)
  unfolding after_mkstemp
  mkstemp-Came fuel w (none, w') e r = next r (not_created e)
  mkstemp-Came fuel w (some (fd, name), w') e r =
      fchmod-Came fuel fd name w' _ refl (next r (created e))

-- Unless its data pointer is null for a size above 0, WriteFileAtomically takes steps of the machine
-- only: when it returns, with MC_OK or another status, the machine has returned the same in the same
-- state of the system, and a call whose loop is still running is at one of the machine's stages.
pub write_file_atomically-Came :
    (P : Posix) (fuel : ℕ) (path : Bytes) (bytes : Option Bytes) (size mode : ℕ) (w : P.World)
    → (ltb 0 size && is_null bytes) ≡ false
    → Came P path
        (memory_at bytes)
        size
        mode
        creating
        w
        (write_file_atomically P fuel path bytes size mode w)
unfolding write_file_atomically
write_file_atomically-Came P fuel path bytes size mode w there = rw there (
    mkstemp-Came P path (memory_at bytes) size mode creating w fuel w
      (P.mkstemp (template_for path) w) refl here)
