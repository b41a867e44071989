-- ===== src/Files/Posix.antt =====
-- The calls of POSIX that src/util/file_io.cc makes, over an unknown state of the system, and what
-- their manuals promise while no other process touches the files.
use model_crypt.Common.{
  ℕ, ◌≤◌, ◌≡◌, ◌≢◌, Option, some, none, Bool, true, false, ◌++◌, length, take, drop, ◌==◌, bit_and,
  [],
}
use model_crypt.Common.Buffer.{Bytes}

-- What read() or write() did: it returned -1 with errno EINTR or with another one, or it moved bytes.
pub data Transfer (A : Type 0) : Type 0 where
  interrupted refused : Transfer A
  moved : A → Transfer A

-- An off_t, which has a sign.
pub data Offset : Type 0 where
  pos : ℕ → Offset
  negsuc : ℕ → Offset

pub record Stat : Type 0 where
  pub st_mode : ℕ
  pub st_size : Offset

-- S_ISREG
unfoldable pub s_isreg : ℕ → Bool
s_isreg mode = bit_and mode 61440 == 32768

pub record Posix : Type 1 where
  pub World : Type 0
  -- open(path, O_RDONLY): the descriptor, or -1.
  pub open_file : Bytes → World → Option ℕ × World
  pub fstat : ℕ → World → Option Stat × World
  -- read(fd, _, n): the bytes that arrive.
  pub read : ℕ → ℕ → World → Transfer Bytes × World
  -- write(fd, bytes, length bytes): how many are taken.
  pub write : ℕ → Bytes → World → Transfer ℕ × World
  -- mkstemp(template): the descriptor and the name, or -1.
  pub mkstemp : Bytes → World → Option (ℕ × Bytes) × World
  -- These return whether the result is 0.
  pub fchmod : ℕ → ℕ → World → Bool × World
  pub fsync : ℕ → World → Bool × World
  pub close : ℕ → World → Bool × World
  pub rename : Bytes → Bytes → World → Bool × World
  pub unlink : Bytes → World → Bool × World

-- A regular file.
pub record File : Type 0 where
  pub mode : ℕ
  pub contents : Bytes

-- A view of the directory entries behind the calls. `entry` is the entry that a path leads to, and
-- `file` the regular file it is; `Reads w fd whole rest` says that a descriptor reads a regular
-- file whose contents are `whole`, of which `rest` remains to be read, and `Writes w fd e` that a descriptor writes at the end of the file of `e`.
pub record FileSystem (P : Posix) : Type 1 where
  pub Entry : Type 0
  pub entry : Bytes → Entry
  pub file : P.World → Entry → Option File
  pub Reads : P.World → ℕ → Bytes → Bytes → Type 0
  pub Writes : P.World → ℕ → Entry → Type 0
  -- Reading changes no file, and what it delivers is what is there.
  pub open_keeps :
      (path : Bytes) (w : P.World) (e : Entry) → file (P.open_file path w).1 e ≡ file w e
  pub open_reads :
      (path : Bytes) (w : P.World) (f : File) (fd : ℕ)
      → file w (entry path) ≡ some f
      → (P.open_file path w).0 ≡ some fd
      → Reads (P.open_file path w).1 fd f.contents f.contents
  pub fstat_keeps : (fd : ℕ) (w : P.World) (e : Entry) → file (P.fstat fd w).1 e ≡ file w e
  pub fstat_reads :
      (fd : ℕ) (w : P.World) (whole rest : Bytes)
      → Reads w fd whole rest
      → Reads (P.fstat fd w).1 fd whole rest
  -- The size of a regular file, wherever the descriptor stands in it.
  pub fstat_size :
      (fd : ℕ) (w : P.World) (whole rest : Bytes) (st : Stat)
      → Reads w fd whole rest
      → (P.fstat fd w).0 ≡ some st
      → (s_isreg st.st_mode ≡ true) × (st.st_size ≡ pos (length whole))
  pub read_keeps : (fd n : ℕ) (w : P.World) (e : Entry) → file (P.read fd n w).1 e ≡ file w e
  pub read_bounded :
      (fd n : ℕ) (w : P.World) (bs : Bytes) → (P.read fd n w).0 ≡ moved bs → length bs ≤ n
  pub read_reads :
      (fd n : ℕ) (w : P.World) (whole rest bs : Bytes)
      → Reads w fd whole rest
      → (P.read fd n w).0 ≡ moved bs
      → (bs ++ drop (length bs) rest ≡ rest)
        × Reads (P.read fd n w).1 fd whole (drop (length bs) rest)
  pub read_again :
      (fd n : ℕ) (w : P.World) (whole rest : Bytes)
      → Reads w fd whole rest
      → (P.read fd n w).0 ≡ interrupted
      → Reads (P.read fd n w).1 fd whole rest
  -- mkstemp makes an empty file with mode 0600, and opens it.
  pub mkstemp_makes :
      (template : Bytes) (w : P.World) (fd : ℕ) (name : Bytes)
      → (P.mkstemp template w).0 ≡ some (fd, name)
      → Writes (P.mkstemp template w).1 fd (entry name)
        × (file (P.mkstemp template w).1 (entry name) ≡ some (record { mode = 384; contents = [] }))
  pub mkstemp_keeps :
      (template : Bytes) (w : P.World) (fd : ℕ) (name : Bytes) (e : Entry)
      → (P.mkstemp template w).0 ≡ some (fd, name)
      → e ≢ entry name
      → file (P.mkstemp template w).1 e ≡ file w e
  pub mkstemp_refused :
      (template : Bytes) (w : P.World) (e : Entry)
      → (P.mkstemp template w).0 ≡ none
      → file (P.mkstemp template w).1 e ≡ file w e
  -- A descriptor changes its own file only.
  pub fchmod_sets :
      (fd mode : ℕ) (w : P.World) (e : Entry) (f : File)
      → Writes w fd e
      → file w e ≡ some f
      → (P.fchmod fd mode w).0 ≡ true
      → Writes (P.fchmod fd mode w).1 fd e
        × (file (P.fchmod fd mode w).1 e ≡ some (record f { mode = mode }))
  pub fchmod_keeps :
      (fd mode : ℕ) (w : P.World) (e other : Entry)
      → Writes w fd e
      → other ≢ e
      → file (P.fchmod fd mode w).1 other ≡ file w other
  pub write_adds :
      (fd : ℕ) (bs : Bytes) (w : P.World) (e : Entry) (f : File) (n : ℕ)
      → Writes w fd e
      → file w e ≡ some f
      → (P.write fd bs w).0 ≡ moved n
      → (n ≤ length bs)
        × Writes (P.write fd bs w).1 fd e
        × (file (P.write fd bs w).1 e ≡ some (record f { contents = f.contents ++ take n bs }))
  pub write_again :
      (fd : ℕ) (bs : Bytes) (w : P.World) (e : Entry)
      → Writes w fd e
      → (P.write fd bs w).0 ≡ interrupted
      → Writes (P.write fd bs w).1 fd e × (file (P.write fd bs w).1 e ≡ file w e)
  pub write_keeps :
      (fd : ℕ) (bs : Bytes) (w : P.World) (e other : Entry)
      → Writes w fd e
      → other ≢ e
      → file (P.write fd bs w).1 other ≡ file w other
  pub fsync_keeps : (fd : ℕ) (w : P.World) (e : Entry) → file (P.fsync fd w).1 e ≡ file w e
  pub close_keeps : (fd : ℕ) (w : P.World) (e : Entry) → file (P.close fd w).1 e ≡ file w e
  -- rename puts a file under another name, or has no effect.
  pub rename_moves :
      (old new : Bytes) (w : P.World)
      → (P.rename old new w).0 ≡ true
      → file (P.rename old new w).1 (entry new) ≡ file w (entry old)
  pub rename_refused :
      (old new : Bytes) (w : P.World) (e : Entry)
      → (P.rename old new w).0 ≡ false
      → file (P.rename old new w).1 e ≡ file w e
  pub unlink_keeps :
      (path : Bytes) (w : P.World) (e : Entry)
      → e ≢ entry path
      → file (P.unlink path w).1 e ≡ file w e
