-- ===== src/Examples/ToyPosix.antt =====
-- A system with one directory, in which mkstemp always makes the same name, every transfer moves two
-- bytes at most, and signals interrupt the first few of them.
pub mod Laws
pub mod Signals
use model_crypt.Common.{
  ℕ, zero, suc, ◌≤◌, ◌<◌, min, ◌≡◌, ◌≢◌, refl, sym, ◌∙◌, ap, Option, some, none, Bool, true, false,
  [], ◌∷◌, ◌++◌, arith, length, take, drop, length-take, take-append-drop,
}
use model_crypt.Common.Buffer.{Bytes}
use model_crypt.Common.Texts.{codes, same}
use model_crypt.Files.Posix.{
  Posix, File, FileSystem, Transfer, interrupted, refused, moved, pos, Stat, s_isreg,
}
use model_crypt.Files.Steps.Atomic.{Apart}
use model_crypt.Files.Patience.{Patience}

-- The temporary file, every other file, the contents of the file that was opened and what is left of
-- them to be read, and the signals to come.
pub record Disk : Type 0 where
  pub temporary : Option File
  pub target : Option File
  pub whole : Bytes
  pub rest : Bytes
  pub signals : ℕ

abbrev pub toy_name : Bytes
toy_name = codes "./.model-crypt-abcdef"

unfoldable pub toy_entry : Bytes → Bool
unfolding same
toy_entry path = same path toy_name

abbrev pub toy_file : Disk → Bool → Option File
toy_file w true = w.temporary
toy_file w false = w.target

abbrev pub put : Bool → Option File → Disk → Disk
put true f w = record w { temporary = f }
put false f w = record w { target = f }

abbrev pub toy_open : Option File → Disk → Option ℕ × Disk
toy_open none w = (none, w)
toy_open (some f) w = (some 3, record w { whole = f.contents; rest = f.contents })

abbrev pub toy_read : ℕ → ℕ → Disk → Transfer Bytes × Disk
toy_read (suc left) n w = (interrupted, record w { signals = left })
toy_read zero n w = (moved (take (min n 2) w.rest), record w { rest = drop (min n 2) w.rest })

abbrev pub toy_write : ℕ → Bytes → Option File → Disk → Transfer ℕ × Disk
toy_write (suc left) bs f w = (interrupted, record w { signals = left })
toy_write zero [] f w = (refused, w)
toy_write zero (b ∷ bs) none w = (refused, w)
toy_write zero (b ∷ bs) (some f) w = (
  moved (length (take 2 (b ∷ bs))),
  record w { temporary = some (record f { contents = f.contents ++ take 2 (b ∷ bs) }) },
)

abbrev pub toy_fchmod : ℕ → Option File → Disk → Bool × Disk
toy_fchmod mode none w = (false, w)
toy_fchmod mode (some f) w = (true, record w { temporary = some (record f { mode = mode }) })

abbrev pub toy_rename : Bool → Bool → Option File → Disk → Bool × Disk
toy_rename old new none w = (false, w)
toy_rename old new (some f) w = (true, put new (some f) (put old none w))

abbrev pub toy_posix : Posix
toy_posix = record {
  World = Disk;
  open_file = λ path w. toy_open (toy_file w (toy_entry path)) w;
  fstat = λ fd w. (some (record { st_mode = 33188; st_size = pos (length w.whole) }), w);
  read = λ fd n w. toy_read w.signals n w;
  write = λ fd bs w. toy_write w.signals bs w.temporary w;
  mkstemp = λ template w.
      (some (4, toy_name), record w { temporary = some (record { mode = 384; contents = [] }) });
  fchmod = λ fd mode w. toy_fchmod mode w.temporary w;
  fsync = λ fd w. (true, w);
  close = λ fd w. (true, w);
  rename = λ old new w. toy_rename (toy_entry old) (toy_entry new) (toy_file w (toy_entry old)) w;
  unlink = λ path w. (true, put (toy_entry path) none w);
}
