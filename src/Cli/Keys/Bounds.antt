-- ===== src/Cli/Keys/Bounds.antt =====
-- The keys that LoadKey of src/cli/main.cc accepts.
use model_crypt.Common.{
  ℕ, ◌-◌, ◌≤◌, ◌≡◌, refl, ap, Option, some, none, Bool, true, false, ◌&&◌, not, [], ◌∷◌, ◌++◌, ltb,
  ◌==◌, ◌/=◌, arith, length, length-take, length-append, take-append, Bool-cases, inl, inr,
  not-ltb→le,
}
use model_crypt.Common.Buffer.{Bytes, byte_at}
use model_crypt.Common.Result.{some_injective}
use model_crypt.Api.Files.{Host}
use model_crypt.Files.Read.{on_system}
use model_crypt.Cli.Args.{Args, empty}
use model_crypt.Cli.Keys.{
  Console, Session, pop_back, back_is, strip_one_trailing_newline, c_string, key_of_file,
  key_of_env, key_of_line, read_key_file, read_key_env, read_key_prompt, after_quiet,
  after_tcgetattr, after_isatty, read_key, long_enough, load_key,
}

length-strip : (bs : Bytes) → length (strip_one_trailing_newline bs) ≤ length bs
unfolding strip_one_trailing_newline
length-strip bs =
    let once = length-take (length bs - 1) bs in
    let twice = length-take (length (pop_back bs) - 1) (pop_back bs) in
    elim (Bool-cases (back_is 10 bs)) [
      | inr plain ↦ rw plain (omega arith)
      | inl newline ↦ elim (Bool-cases (back_is 13 (pop_back bs))) [
        | inl carriage ↦ rw (newline, carriage) (omega (arith, once, twice))
        | inr plain ↦ rw (newline, plain) (omega (arith, once))
      ]
    ]

length-c_string : (bs : Bytes) → length (c_string bs) ≤ length bs
unfolding c_string
length-c_string [] = omega arith
length-c_string (b ∷ bs) = elim (Bool-cases (b == 0)) [
  | inl nul ↦ rw nul (omega arith)
  | inr other ↦ rw other (omega (arith, length-c_string bs))
]

key_of_file-length :
    (buffer : Option Bytes) (key : Bytes) → key_of_file buffer ≡ some key → length key ≤ 4096
unfolding key_of_file
key_of_file-length none key e = cc
key_of_file-length (some buffer) key e = elim (Bool-cases (ltb 4096 (length buffer))) [
  | inl large ↦ let no_way = rw large at e in cc
  | inr fits ↦
      rw (← some_injective (rw fits at e))
        (omega (arith, length-strip buffer, not-ltb→le 4096 (length buffer) fits))
]

key_of_env-length :
    (value : Option Bytes) (key : Bytes) → key_of_env value ≡ some key → length key ≤ 4096
unfolding key_of_env
key_of_env-length none key e = cc
key_of_env-length (some value) key e = elim (Bool-cases (ltb 4096 (length value))) [
  | inl large ↦ let no_way = rw large at e in cc
  | inr fits ↦ rw (← some_injective (rw fits at e)) (not-ltb→le 4096 (length value) fits)
]

key_of_line-length :
    (buffer : Bytes) (key : Bytes)
    → length buffer ≤ 4096
    → key_of_line (some buffer) ≡ some key
    → length key ≤ 4096
unfolding key_of_line
key_of_line-length buffer key low e =
    let line = c_string buffer in
    elim (Bool-cases (length line == 4096 && byte_at line (length line - 1) /= 10)) [
      | inl long ↦ let no_way = rw long at e in cc
      | inr fits ↦
          rw (← some_injective (rw fits at e))
            (omega (arith, length-strip line, length-c_string buffer, low))
    ]

module _ (H : Host) (C : Console H)
    (fgets_bounded : (n : ℕ) (t : C.Terminal) (line : Bytes)
      → (C.fgets n t).0 ≡ some line
      → length line ≤ n - 1) where
  -- A line of the prompt.
  prompted :
      (t : C.Terminal) (line : Bytes)
      → (after_isatty H C (C.isatty t)).0 ≡ some line
      → length line ≤ 4096
  prompted t line e = asked (C.isatty t) e
    where
      typed :
          (original : C.Termios) (q : Bool × C.Terminal)
          → (after_quiet H C original q).0 ≡ some line
          → length line ≤ 4096
      typed original (false, t') e = cc
      typed original (true, t') e = omega (arith, fgets_bounded 4097 t' line e)

      got :
          (q : Option C.Termios × C.Terminal)
          → (after_tcgetattr H C q).0 ≡ some line
          → length line ≤ 4096
      got (none, t') e = cc
      got (some original, t') e = typed original (C.tcsetattr (C.without_echo original) t') e

      asked : (q : Bool × C.Terminal) → (after_isatty H C q).0 ≡ some line → length line ≤ 4096
      asked (false, t') e = cc
      asked (true, t') e = got (C.tcgetattr t') e

  prompt-length :
      (s : Session H C) (key : Bytes) → (read_key_prompt H C s).0 ≡ some key → length key ≤ 4096
  unfolding read_key_prompt
  prompt-length s key =
      go (after_isatty H C (C.isatty s.terminal)).0 (λ line. prompted s.terminal line)
    where
      go :
          (line : Option Bytes)
          → ((bs : Bytes) → line ≡ some bs → length bs ≤ 4096)
          → key_of_line line ≡ some key
          → length key ≤ 4096
      go none h e = unfold key_of_line in cc
      go (some bs) h e = key_of_line-length bs key (h bs refl) e

  read_key-length :
      (args : Args) (s : Session H C) (key : Bytes)
      → (read_key H C args s).0 ≡ some key
      → length key ≤ 4096
  unfolding read_key read_key_file read_key_env
  read_key-length args s key e = elim (Bool-cases (not (empty args.key_file))) [
    | inl file ↦
        key_of_file-length
          (on_system H.services H.posix s.machine
            (C.read_front args.key_file 4097 s.machine.system)).0
          key (rw file at e)
    | inr no_file ↦ elim (Bool-cases (not (empty args.key_env))) [
      | inl env ↦
          key_of_env-length (C.getenv args.key_env s.terminal).0 key (rw (no_file, env) at e)
      | inr no_env ↦ prompt-length s key (rw (no_file, no_env) at e)
    ]
  ]

  long_enough-eq_some :
      (found : Option Bytes) (key : Bytes)
      → long_enough H C found ≡ some key
      → (found ≡ some key) × (12 ≤ length key)
  long_enough-eq_some none key e = cc
  long_enough-eq_some (some bs) key e = elim (Bool-cases (ltb (length bs) 12)) [
    | inl short ↦ let no_way = rw short at e in cc
    | inr fits ↦
        let is = some_injective (rw fits at e) in
        (ap some is, rw (← is) (not-ltb→le (length bs) 12 fits))
  ]

  -- A key that LoadKey accepts has 12 to 4096 bytes, and the options name at most one source for it.
  -- fgets stores fewer bytes than the size that it is given, as its manual says.
  pub load_key-bounds :
      (args : Args) (s : Session H C) (key : Bytes)
      → (load_key H C args s).0 ≡ some key
      → (12 ≤ length key)
        × (length key ≤ 4096)
        × ((not (empty args.key_file) && not (empty args.key_env)) ≡ false)
  unfolding load_key
  load_key-bounds args s key e =
      elim (Bool-cases (not (empty args.key_file) && not (empty args.key_env))) [
        | inl both ↦ let no_way = rw both at e in cc
        | inr one ↦
            let (found, long) = long_enough-eq_some (read_key H C args s).0 key (rw one at e) in
            (long, read_key-length args s key found, one)
      ]

byte_at-last : (xs : Bytes) (c : ℕ) → byte_at (xs ++ c ∷ []) (length xs) ≡ c
byte_at-last [] c = refl
byte_at-last (x ∷ xs) c = byte_at-last xs c

not_empty : (xs : Bytes) (c : ℕ) → empty (xs ++ c ∷ []) ≡ false
not_empty [] c = refl
not_empty (x ∷ xs) c = refl

-- StripOneTrailingNewline makes the same key of a text with and without one newline behind it, if the
-- text does not itself end in a newline or a carriage return.
pub strip_one_trailing_newline-appended :
    (key : Bytes)
    → back_is 10 key ≡ false
    → back_is 13 key ≡ false
    → (strip_one_trailing_newline (key ++ 10 ∷ []) ≡ key) × (strip_one_trailing_newline key ≡ key)
unfolding strip_one_trailing_newline
strip_one_trailing_newline-appended key newline carriage =
    let long = length-append key (10 ∷ []) in
    let last : length (key ++ 10 ∷ []) - 1 ≡ length key = omega (arith, long) in
    let at_end = byte_at-last key 10 in
    let full = not_empty key 10 in
    let front = take-append key (10 ∷ []) in
    (rw (last, at_end, full, front, carriage) refl, rw newline refl)
