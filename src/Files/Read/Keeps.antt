-- ===== src/Files/Read/Keeps.antt =====
-- ReadFile of src/util/file_io.cc changes no file.
use model_crypt.Common.{
  ℕ, zero, suc, ◌≡◌, ◌∙◌, Option, some, none, Bool, true, false, ◌||◌, [], ◌∷◌, ltb, Bool-cases,
  inl, inr,
}
use model_crypt.Common.Buffer.{Bytes, zeros}
use model_crypt.Common.Result.{Result, ok, err}
use model_crypt.Services.{Services}
use model_crypt.Encrypt.Options.{is_null}
use model_crypt.Files.Running.{Loop, running, failed, finished}
use model_crypt.Files.Posix.{Posix, File, FileSystem, Transfer, interrupted, refused, moved}
use model_crypt.Files.Read.{
  after_arrival, read_fully, Machine, on_system, on_services, leave, after_read, after_reset,
  after_checks, after_open, read_file,
}

module _ (S : Services) (P : Posix) (fs : FileSystem P) (e : fs.Entry) (was : Option File) where
  open fs use {file}

  round-keeps :
      (fd size : ℕ) (again : Bytes → ℕ → P.World → Loop Bytes × P.World)
      → ((out : Bytes) (at : ℕ) (w : P.World) → file w e ≡ was → file (again out at w).1 e ≡ was)
      → (out : Bytes) (at : ℕ) (q : Transfer Bytes × P.World) → file q.1 e ≡ was
      → file (after_arrival P again out at q).1 e ≡ was
  round-keeps fd size again ih out at (interrupted, w) h = ih out at w h
  round-keeps fd size again ih out at (refused, w) h = h
  round-keeps fd size again ih out at (moved [], w) h = h
  round-keeps fd size again ih out at (moved (b ∷ bs), w) h = ih _ _ w h

  read_fully-keeps :
      (fuel fd size : ℕ) (out : Bytes) (at : ℕ) (w : P.World)
      → file w e ≡ was
      → file (read_fully P fuel fd size out at w).1 e ≡ was
  unfolding read_fully
  read_fully-keeps zero fd size out at w h = elim (Bool-cases (ltb at size)) [
    | inl more ↦ rw more h
    | inr no_more ↦ rw no_more h
  ]
  read_fully-keeps (suc fuel) fd size out at w h = elim (Bool-cases (ltb at size)) [
    | inr no_more ↦ rw no_more h
    | inl more ↦ rw more (
        round-keeps fd size (read_fully P fuel fd size)
          (λ out' at' w' h'. read_fully-keeps fuel fd size out' at' w' h') out at _
          (fs.read_keeps _ _ _ _ ∙ h))
  ]

  leave-keeps :
      (result : Result (Bytes × ℕ)) (fd : ℕ) (m : Machine S P)
      → file m.system e ≡ was
      → file (leave S P result fd m).1.system e ≡ was
  leave-keeps result fd m h = fs.close_keeps _ _ _ ∙ h

  read-keeps :
      (fd size : ℕ) (q : Loop Bytes × P.World) (m : Machine S P)
      → file q.1 e ≡ was
      → file (after_read S P fd size (on_system S P m q)).1.system e ≡ was
  read-keeps fd size (running, w) m h = h
  read-keeps fd size (failed, w) m h = fs.close_keeps _ _ _ ∙ h
  read-keeps fd size (finished out, w) m h = fs.close_keeps _ _ _ ∙ h

  reset-keeps :
      (fuel fd size : ℕ) (q : Bool × S.World) (m : Machine S P)
      → file m.system e ≡ was
      → file (after_reset S P fuel fd size (on_services S P m q)).1.system e ≡ was
  unfolding after_reset
  reset-keeps fuel fd size (false, v) m h = fs.close_keeps _ _ _ ∙ h
  reset-keeps fuel fd size (true, v) m h = elim (Bool-cases (ltb 0 size)) [
    | inl some_bytes ↦ rw some_bytes (
        read-keeps fd size _ (record m { services = v })
          (read_fully-keeps fuel fd size (zeros size) 0 m.system h))
    | inr nothing ↦
        rw nothing (read-keeps fd size (finished [], m.system) (record m { services = v }) h)
  ]

  checks-keeps :
      (fuel fd : ℕ) (r : Result ℕ) (m : Machine S P)
      → file m.system e ≡ was
      → file (after_checks S P fuel fd (r, m)).1.system e ≡ was
  unfolding after_checks
  checks-keeps fuel fd (err x) m h = fs.close_keeps _ _ _ ∙ h
  checks-keeps fuel fd (ok size) m h = reset-keeps fuel fd size _ m h

  open-keeps :
      (fuel max_size : ℕ) (q : Option ℕ × P.World) (m : Machine S P)
      → file q.1 e ≡ was
      → file (after_open S P fuel max_size (on_system S P m q)).1.system e ≡ was
  unfolding after_open
  open-keeps fuel max_size (none, w) m h = h
  open-keeps fuel max_size (some fd, w) m h = checks-keeps fuel fd _ _ (fs.fstat_keeps _ _ _ ∙ h)

  pub read_file-keeps :
      (fuel : ℕ) (path : Bytes) (max_size : ℕ) (out out_size : Option (Unit {0})) (m : Machine S P)
      → file m.system e ≡ was
      → file (read_file S P fuel path max_size out out_size m).1.system e ≡ was
  unfolding read_file
  read_file-keeps fuel path max_size out out_size m h =
      elim (Bool-cases (is_null out || is_null out_size)) [
        | inl null ↦ rw null h
        | inr given ↦ rw given (open-keeps fuel max_size _ m (fs.open_keeps _ _ _ ∙ h))
      ]
