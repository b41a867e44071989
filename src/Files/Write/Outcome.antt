-- ===== src/Files/Write/Outcome.antt =====
-- What WriteFileAtomically of src/util/file_io.cc leaves at its path when it returns.
use model_crypt.Common.{ℕ, ◌≡◌, refl, Option, some, none, ◌&&◌, ltb, Bool-cases, inl, inr}
use model_crypt.Common.Buffer.{Bytes, slice}
use model_crypt.Common.Result.{Error, Result, ok, err}
use model_crypt.Encrypt.Options.{is_null, memory_at}
use model_crypt.Files.Posix.{Posix, FileSystem}
use model_crypt.Files.Write.{write_file_atomically}
use model_crypt.Files.Steps.{creating}
use model_crypt.Files.Steps.Atomic.{Apart, Reach-Holds}
use model_crypt.Files.Steps.Followed.{Came, write_file_atomically-Came}

module _ (P : Posix) (fs : FileSystem P) (path : Bytes) (apart : Apart P fs path) where
  open fs use {entry, file}

  Came-ok :
      (bytes : Bytes) (size mode : ℕ) (v : P.World) (q : Option (Result (Unit {0})) × P.World)
      → Came P path bytes size mode creating v q
      → q.0 ≡ some (ok tt)
      → file q.1 (entry path) ≡ some (record { mode = mode; contents = slice bytes 0 size })
  Came-ok bytes size mode v (none, w) r e = cc
  Came-ok bytes size mode v (some (err x), w) r e = cc
  Came-ok bytes size mode v (some (ok tt), w) r e =
      Reach-Holds P fs path bytes size mode (file v (entry path)) apart refl r

  Came-err :
      (bytes : Bytes) (size mode : ℕ) (v : P.World) (q : Option (Result (Unit {0})) × P.World)
      (error : Error)
      → Came P path bytes size mode creating v q
      → q.0 ≡ some (err error)
      → file q.1 (entry path) ≡ file v (entry path)
  Came-err bytes size mode v (none, w) error r e = cc
  Came-err bytes size mode v (some (ok u), w) error r e = cc
  Came-err bytes size mode v (some (err x), w) error r e =
      Reach-Holds P fs path bytes size mode (file v (entry path)) apart refl r

  -- When WriteFileAtomically returns MC_OK, the entry that its path leads to is a file of the requested
  -- mode that holds the `size` bytes. The path is not one that mkstemp makes of the template.
  pub write_file_atomically-ok :
      (fuel : ℕ) (bytes : Option Bytes) (size mode : ℕ) (v : P.World)
      → (write_file_atomically P fuel path bytes size mode v).0 ≡ some (ok tt)
      → file (write_file_atomically P fuel path bytes size mode v).1 (entry path)
        ≡ some (record { mode = mode; contents = slice (memory_at bytes) 0 size })
  write_file_atomically-ok fuel bytes size mode v e =
      elim (Bool-cases (ltb 0 size && is_null bytes)) [
        | inl null ↦ unfold write_file_atomically in let no_way = rw null at e in cc
        | inr there ↦
            Came-ok (memory_at bytes) size mode v _
              (write_file_atomically-Came P fuel path bytes size mode v there) e
      ]

  -- When WriteFileAtomically returns another status, the entry that its path leads to is as it was
  -- before the call, a file or none. The path is not one that mkstemp makes of the template.
  pub write_file_atomically-err :
      (fuel : ℕ) (bytes : Option Bytes) (size mode : ℕ) (v : P.World) (error : Error)
      → (write_file_atomically P fuel path bytes size mode v).0 ≡ some (err error)
      → file (write_file_atomically P fuel path bytes size mode v).1 (entry path)
        ≡ file v (entry path)
  write_file_atomically-err fuel bytes size mode v error e =
      elim (Bool-cases (ltb 0 size && is_null bytes)) [
        | inl null ↦ unfold write_file_atomically in rw null
        | inr there ↦
            Came-err (memory_at bytes) size mode v _ error
              (write_file_atomically-Came P fuel path bytes size mode v there) e
      ]
