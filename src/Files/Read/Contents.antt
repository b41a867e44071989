-- ===== src/Files/Read/Contents.antt =====
-- What ReadFile of src/util/file_io.cc delivers, and that it changes no file.
use model_crypt.Common.{
  ℕ, zero, suc, ◌+◌, ◌-◌, ◌^◌, ◌≤◌, ◌≡◌, refl, sym, ◌∙◌, ap, Option, some, none, Bool, true, false,
  not, ◌||◌, [], ◌∷◌, ◌++◌, ltb, leb, arith, length, drop, length-append, append_assoc,
  if◌then◌else◌, Bool-cases, inl, inr, not-ltb→le,
}
use model_crypt.Common.Buffer.{Bytes, zeros, memcpy-zeros, empty_bytes}
use model_crypt.Common.Result.{Result, ok, err, io, too_large}
use model_crypt.Services.{Services}
use model_crypt.Files.Running.{Loop, running, failed, finished}
use model_crypt.Files.Posix.{
  Posix, File, FileSystem, Transfer, interrupted, refused, moved, Offset, pos, negsuc, Stat,
}
use model_crypt.Files.Read.{
  after_arrival, read_fully, check_stat, Machine, on_system, on_services, after_read, after_reset,
  after_checks, after_open, read_file,
}

module _ (P : Posix) (fs : FileSystem P) where
  open fs use {Entry, entry, file, Reads}

  abbrev Delivers : Bytes → Loop Bytes × P.World → Type 0
  Delivers whole (running, w) = Unit
  Delivers whole (failed, w) = Unit
  Delivers whole (finished out, w) = out ≡ whole

  through-Delivers :
      (got rest : Bytes) (size : ℕ)
      → length got + length rest ≡ size
      → ltb (length got) size ≡ false
      → got ++ zeros (length rest) ≡ got ++ rest
  through-Delivers got rest size total no_more =
      let nothing : length rest ≡ 0 = omega (arith, total, not-ltb→le (length got) size no_more) in
      ap (λ t. got ++ t)
        (empty_bytes (zeros (length rest)) (rw nothing refl) ∙ sym (empty_bytes rest nothing))

  round-Delivers :
      (whole : Bytes) (fd size : ℕ) (again : Bytes → ℕ → P.World → Loop Bytes × P.World)
      → ((got rest : Bytes) (w : P.World)
          → length got + length rest ≡ size
          → Reads w fd whole rest
          → Delivers (got ++ rest) (again (got ++ zeros (length rest)) (length got) w))
      → (got rest : Bytes) (w : P.World) (q : Transfer Bytes × P.World)
      → length got + length rest ≡ size
      → Reads w fd whole rest
      → P.read fd (size - length got) w ≡ q
      → Delivers (got ++ rest) (after_arrival P again (got ++ zeros (length rest)) (length got) q)
  round-Delivers whole fd size again ih got rest w (interrupted, w') total reads e =
      ih got rest w' total
        (rw (← ap (λ t. t.1) e) (fs.read_again _ _ _ _ _ reads (ap (λ t. t.0) e)))
  round-Delivers whole fd size again ih got rest w (refused, w') total reads e = tt
  round-Delivers whole fd size again ih got rest w (moved [], w') total reads e = tt
  round-Delivers whole fd size again ih got rest w (moved (b ∷ bs), w') total reads e =
      let new : Bytes = b ∷ bs in
      let (split, left) = fs.read_reads _ _ _ _ _ new reads (ap (λ t. t.0) e) in
      let rest' = drop (length new) rest in
      let long = length-append new rest' in
      let both = length-append got new in
      let counted : length new + length rest' ≡ length rest = sym long ∙ ap length split in
      let put = memcpy-zeros got new (length got) (length rest) (length rest') refl counted in
      let joined : (got ++ new) ++ rest' ≡ got ++ rest =
        append_assoc got new rest' ∙ ap (λ t. got ++ t) split in
      rw (put, ← both, ← joined)
        (ih (got ++ new) rest' w' (omega (arith, both, counted, total))
          (rw (← ap (λ t. t.1) e) left))

  read_fully-Delivers :
      (whole : Bytes) (fuel fd size : ℕ) (got rest : Bytes) (w : P.World)
      → length got + length rest ≡ size
      → Reads w fd whole rest
      → Delivers
          (got ++ rest)
          (read_fully P fuel fd size (got ++ zeros (length rest)) (length got) w)
  unfolding read_fully
  read_fully-Delivers whole zero fd size got rest w total reads =
      elim (Bool-cases (ltb (length got) size)) [
        | inl more ↦ rw more tt
        | inr no_more ↦ rw no_more (through-Delivers got rest size total no_more)
      ]
  read_fully-Delivers whole (suc fuel) fd size got rest w total reads =
      elim (Bool-cases (ltb (length got) size)) [
        | inr no_more ↦ rw no_more (through-Delivers got rest size total no_more)
        | inl more ↦ rw more (
            round-Delivers whole fd size (read_fully P fuel fd size)
              (λ got' rest' w' t r. read_fully-Delivers whole fuel fd size got' rest' w' t r) got
              rest w _ total reads refl)
      ]

pub check_stat-ok :
    (max_size : ℕ) (st : Option Stat) (size : ℕ)
    → check_stat max_size st ≡ ok size
    → (s : Stat) × (st ≡ some s) × (s.st_size ≡ pos size) × (size ≤ max_size)
unfolding check_stat
check_stat-ok max_size none size e = cc
check_stat-ok max_size (some st) size e =
    let (size_is, low) = sized st.st_size _ e in (st, refl, size_is, low)
  where
    sized :
        (offset : Offset) (regular : Bool)
        → (if not regular then err io else elim offset [
          | negsuc _ ↦ err io
          | pos n ↦ if ltb max_size n || leb (2 ^ 64) n then err too_large else ok n
        ])
          ≡ ok size
        → (offset ≡ pos size) × (size ≤ max_size)
    sized offset false e = cc
    sized (negsuc _) true e = cc
    sized (pos n) true e = ground arith

module _ (S : Services) (P : Posix) (fs : FileSystem P) where
  open fs use {Entry, entry, file, Reads}

  -- A result, if there is one, is the whole of the file.
  abbrev IsWhole : ℕ → Bytes → Option (Result (Bytes × ℕ)) × Machine S P → Type 0
  IsWhole max_size whole q =
      (bytes : Bytes) (n : ℕ)
      → q.0 ≡ some (ok (bytes, n))
      → (bytes ≡ whole) × (n ≡ length whole) × (n ≤ max_size)

  read-IsWhole :
      (max_size fd : ℕ) (whole : Bytes) (q : Loop Bytes × P.World) (m : Machine S P)
      → length whole ≤ max_size
      → Delivers P fs whole q
      → IsWhole max_size whole (after_read S P fd (length whole) (on_system S P m q))
  read-IsWhole max_size fd whole (running, w) m low d bytes n e = cc
  read-IsWhole max_size fd whole (failed, w) m low d bytes n e = cc
  read-IsWhole max_size fd whole (finished out, w) m low d bytes n e =
      let same : ◌≡◌ {A = Bytes × ℕ} (out, length whole) (bytes, n) = cc in
      let count : length whole ≡ n = ap (λ t. t.1) same in
      (sym (ap (λ t. t.0) same) ∙ d, sym count, rw (← count) low)

  reset-IsWhole :
      (max_size fuel fd : ℕ) (whole : Bytes) (q : Bool × S.World) (m : Machine S P)
      → length whole ≤ max_size
      → Reads m.system fd whole whole
      → IsWhole max_size whole (after_reset S P fuel fd (length whole) (on_services S P m q))
  unfolding after_reset
  reset-IsWhole max_size fuel fd whole (false, v) m low reads = λ bytes n e. cc
  reset-IsWhole max_size fuel fd whole (true, v) m low reads =
      elim (Bool-cases (ltb 0 (length whole))) [
        | inl some_bytes ↦ rw some_bytes (
            read-IsWhole max_size fd whole _ (record m { services = v }) low
              (read_fully-Delivers P fs whole fuel fd (length whole) [] whole m.system (omega arith)
                reads))
        | inr nothing ↦ rw nothing (
            read-IsWhole max_size fd whole (finished [], m.system) (record m { services = v }) low
              (sym (empty_bytes whole (omega (arith, not-ltb→le 0 (length whole) nothing)))))
      ]

  stat-IsWhole :
      (max_size fuel fd : ℕ) (whole : Bytes) (q : Option Stat × P.World) (m : Machine S P)
      → Reads m.system fd whole whole
      → P.fstat fd m.system ≡ q
      → IsWhole max_size whole
          (after_checks S P fuel fd (check_stat max_size q.0, record m { system = q.1 }))
  unfolding after_checks
  stat-IsWhole max_size fuel fd whole (st, w) m reads e = checked (check_stat max_size st) refl
    where
      checked :
          (r : Result ℕ)
          → check_stat max_size st ≡ r
          → IsWhole max_size whole (after_checks S P fuel fd (r, record m { system = w }))
      checked (err x) c = λ bytes n e. cc
      checked (ok size) c =
          let (s, got, sized, low) = check_stat-ok max_size st size c in
          let long = (fs.fstat_size _ _ _ _ s reads (ap (λ t. t.0) e ∙ got)).1 in
          let both : pos size ≡ pos (length whole) = sym sized ∙ long in
          let is : size ≡ length whole = cc in
          rw is (
            reset-IsWhole max_size fuel fd whole _ (record m { system = w }) (rw (← is) low)
              (rw (← ap (λ t. t.1) e) (fs.fstat_reads _ _ _ _ reads)))

  open-IsWhole :
      (max_size fuel : ℕ) (path : Bytes) (f : File) (q : Option ℕ × P.World) (m : Machine S P)
      → file m.system (entry path) ≡ some f
      → P.open_file path m.system ≡ q
      → IsWhole max_size f.contents (after_open S P fuel max_size (on_system S P m q))
  unfolding after_open
  open-IsWhole max_size fuel path f (none, w) m there e = λ bytes n e. cc
  open-IsWhole max_size fuel path f (some fd, w) m there e =
      stat-IsWhole max_size fuel fd f.contents _ (record m { system = w })
        (rw (← ap (λ t. t.1) e) (fs.open_reads _ _ _ _ there (ap (λ t. t.0) e))) refl

  -- When a path leads to a regular file and ReadFile returns MC_OK, it has read all of the file, however
  -- many calls of read() that took, and the file is not larger than the limit.
  pub read_file-contents :
      (fuel : ℕ) (path : Bytes) (max_size : ℕ) (m : Machine S P) (f : File) (bytes : Bytes) (n : ℕ)
      → file m.system (entry path) ≡ some f
      → (read_file S P fuel path max_size (some tt) (some tt) m).0 ≡ some (ok (bytes, n))
      → (bytes ≡ f.contents) × (n ≡ length f.contents) × (n ≤ max_size)
  unfolding read_file
  read_file-contents fuel path max_size m f bytes n there =
      open-IsWhole max_size fuel path f _ m there refl bytes n
