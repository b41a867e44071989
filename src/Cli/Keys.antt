-- ===== src/Cli/Keys.antt =====
-- Where src/cli/main.cc takes a key from.
pub mod Bounds
use model_crypt.Common.{
  ℕ, zero, suc, ◌+◌, ◌-◌, ◌≤◌, ◌≡◌, Option, some, none, Bool, true, false, ◌||◌, ◌&&◌, not, [], ◌∷◌,
  ltb, ◌==◌, ◌/=◌, length, take, if◌then◌else◌,
}
use model_crypt.Common.Buffer.{Bytes, byte_at}
use model_crypt.Format.Types.{min_key_size}
use model_crypt.Api.Files.{Host, State}
use model_crypt.Files.Read.{Machine, on_system}
use model_crypt.Cli.Args.{Args, empty}

abbrev pub max_key_file_size : ℕ
max_key_file_size = 4096

-- The calls of the C library and of POSIX, over a state of the terminal and the system's files.
pub record Console (H : Host) : Type 1 where
  pub Terminal : Type 0
  pub Termios : Type 0
  -- `c_lflag &= ~ECHO`
  pub without_echo : Termios → Termios
  -- fopen(path, "rb"), fread of n bytes at most, fclose: what was read, or `none` if fopen failed.
  pub read_front : Bytes → ℕ → H.posix.World → Option Bytes × H.posix.World
  -- open(path, O_WRONLY | O_CREAT | O_EXCL, mode)
  pub create_new : Bytes → ℕ → H.posix.World → Option ℕ × H.posix.World
  pub getenv : Bytes → Terminal → Option Bytes × Terminal
  pub isatty : Terminal → Bool × Terminal
  pub tcgetattr : Terminal → Option Termios × Terminal
  pub tcsetattr : Termios → Terminal → Bool × Terminal
  -- fgets(_, n, stdin): what it put into the buffer.
  pub fgets : ℕ → Terminal → Option Bytes × Terminal

-- pop_back, of a text that is not empty.
abbrev pub pop_back : Bytes → Bytes
pop_back bs = take (length bs - 1) bs

abbrev pub back_is : ℕ → Bytes → Bool
back_is c bs = not (empty bs) && (byte_at bs (length bs - 1) == c)

unfoldable pub strip_one_trailing_newline : Bytes → Bytes
strip_one_trailing_newline bs =
    if back_is 10 bs
    then (if back_is 13 (pop_back bs) then pop_back (pop_back bs) else pop_back bs)
    else bs

-- strlen of a buffer, as the text in front of its first NUL.
unfoldable pub c_string : Bytes → Bytes
c_string [] = []
c_string (b ∷ bs) = let rest = c_string bs in if b == 0 then [] else b ∷ rest

-- What the readers make of what they read.
unfoldable pub key_of_file : Option Bytes → Option Bytes
unfolding strip_one_trailing_newline
key_of_file none = none
key_of_file (some buffer) =
    if ltb max_key_file_size (length buffer) then none else some (strip_one_trailing_newline buffer)

unfoldable pub key_of_env : Option Bytes → Option Bytes
key_of_env none = none
key_of_env (some value) = if ltb max_key_file_size (length value) then none else some value

unfoldable pub key_of_line : Option Bytes → Option Bytes
unfolding strip_one_trailing_newline c_string
key_of_line none = none
key_of_line (some buffer) =
    let line = c_string buffer in
    if length line == max_key_file_size && byte_at line (length line - 1) /= 10
    then none
    else some (strip_one_trailing_newline line)

module _ (H : Host) (C : Console H) where
  open C use {Terminal, Termios}

  pub record Session : Type 0 where
    pub terminal : Terminal
    pub machine : State H

  unfoldable pub read_key_file : Bytes → Session → Option Bytes × Session
  unfolding key_of_file
  read_key_file path s =
      let (buffer, m) =
        on_system H.services H.posix s.machine
          (C.read_front path (max_key_file_size + 1) s.machine.system) in
      (key_of_file buffer, record s { machine = m })

  unfoldable pub read_key_env : Bytes → Session → Option Bytes × Session
  unfolding key_of_env
  read_key_env name s =
      let (value, t) = C.getenv name s.terminal in (key_of_env value, record s { terminal = t })

  -- The prompt, step by step: what follows each call, given what it returned.
  abbrev pub after_quiet : Termios → Bool × Terminal → Option Bytes × Terminal
  after_quiet original (false, t) = (none, t)
  after_quiet original (true, t) =
      let (line, t') = C.fgets (max_key_file_size + 1) t in
      let (_, t'') = C.tcsetattr original t' in (line, t'')

  abbrev pub after_tcgetattr : Option Termios × Terminal → Option Bytes × Terminal
  after_tcgetattr (none, t) = (none, t)
  after_tcgetattr (some original, t) =
      after_quiet original (C.tcsetattr (C.without_echo original) t)

  abbrev pub after_isatty : Bool × Terminal → Option Bytes × Terminal
  after_isatty (false, t) = (none, t)
  after_isatty (true, t) = after_tcgetattr (C.tcgetattr t)

  unfoldable pub read_key_prompt : Session → Option Bytes × Session
  unfolding key_of_line
  read_key_prompt s =
      let (line, t) = after_isatty (C.isatty s.terminal) in
      (key_of_line line, record s { terminal = t })

  -- `key->size() < MC_MIN_KEY_SIZE`
  abbrev pub long_enough : Option Bytes → Option Bytes
  long_enough none = none
  long_enough (some key) = if ltb (length key) min_key_size then none else some key

  -- The source that the options name.
  unfoldable pub read_key : Args → Session → Option Bytes × Session
  unfolding read_key_file read_key_env read_key_prompt
  read_key args s =
      if not (empty args.key_file)
      then read_key_file args.key_file s
      else if not (empty args.key_env)
      then read_key_env args.key_env s
      else read_key_prompt s

  unfoldable pub load_key : Args → Session → Option Bytes × Session
  unfolding read_key
  load_key args s =
      let (key, s') = read_key args s in
      if not (empty args.key_file) && not (empty args.key_env)
      then (none, s)
      else (long_enough key, s')
