-- ===== src/Examples/Commands.antt =====
-- Command lines and keys of the tool, on the toy host.
use model_crypt.Common.{
  ℕ, ◌+◌, ◌-◌, ◌^◌, ◌≤◌, ◌≡◌, refl, Option, some, none, Bool, true, false, not, ◌&&◌, List, [], ◌∷◌,
  ◌++◌, arith, length, take, length-take, if◌then◌else◌,
}
use model_crypt.Common.Buffer.{Bytes, memcpy}
use model_crypt.Common.Texts.{codes, same}
use model_crypt.Common.Result.{some_injective}
use model_crypt.Files.Posix.{s_isreg}
use model_crypt.Files.Read.{
  read_fully, check_stat, after_reset, after_checks, after_open, read_file,
}
use model_crypt.Decrypt.Buffer.{decrypt_buffer}
use model_crypt.Format.Header.{parse_file_header}
use model_crypt.Api.Files.{to_path, read_and_decrypt, mc_decrypt_file}
use model_crypt.Cli.Args.{Args, no_args, empty, kind_of, word, parse_args}
use model_crypt.Cli.Args.Printed.{printed, parse_args-printed}
use model_crypt.Cli.Numbers.{
  skip_spaces, scan_digits, strtoull_digits, strtoull_sign, strtoull, parse_u32,
}
use model_crypt.Cli.Numbers.Decimal.{decimal, parse_u32-decimal}
use model_crypt.Cli.Keys.{
  Console, Session, strip_one_trailing_newline, key_of_file, read_key_file, read_key, load_key,
}
use model_crypt.Cli.Keys.Bounds.{load_key-bounds}
use model_crypt.Cli.Commands.{require_paths, run_decrypt}
use model_crypt.Cli.Commands.Exits.{run_decrypt-unchanged}
use model_crypt.Examples.Files.{key}
use model_crypt.Examples.ToyPosix.{toy_entry}
use model_crypt.Examples.ToyPosix.Laws.{toy_system}
use model_crypt.Examples.System.{model_path, model_path-Apart}
use model_crypt.Examples.SealedFiles.{host, before}

abbrev typed : Bytes
typed = key ++ 10 ∷ []

-- Every key file and every line holds the same key, with a newline.
abbrev console : Console host
console = record {
  Terminal = Unit;
  Termios = Unit;
  without_echo = λ settings. settings;
  read_front = λ path n w. (some (take n typed), w);
  create_new = λ path mode w. (none, w);
  getenv = λ name t. (none, t);
  isatty = λ t. (true, t);
  tcgetattr = λ t. (some tt, t);
  tcsetattr = λ settings t. (true, t);
  fgets = λ n t. (some (take (n - 1) typed), t);
}

abbrev session : Session host console
session = record { terminal = tt; machine = before }

abbrev args : Args
args = record no_args {
  command = codes "decrypt";
  input = model_path;
  output = model_path;
  key_file = codes "key.bin";
}

is_word : kind_of args.command ≡ word
unfolding kind_of same
is_word = refl

parse_args-printed_example : parse_args (printed args) no_args ≡ some args
parse_args-printed_example = parse_args-printed args is_word

parse_u32-decimal_example : parse_u32 (codes "4096") (2 ^ 12) (2 ^ 26) ≡ (
    if model_crypt.Common.leb (2 ^ 12) (decimal 0 (codes "4096"))
      && model_crypt.Common.leb (decimal 0 (codes "4096")) (2 ^ 26)
    then some (decimal 0 (codes "4096"))
    else none)
parse_u32-decimal_example =
    parse_u32-decimal b'4' (codes "096") (2 ^ 12) (2 ^ 26) (refl, (refl, (refl, (refl, tt))))
      (omega arith)

-- A sign behind a space passes the test on the first character, and strtoull takes it.
space_and_sign : parse_u32 (codes " -18446744073709551612") 1 32 ≡ some 4
unfolding parse_u32 strtoull strtoull_sign strtoull_digits scan_digits skip_spaces
space_and_sign = refl

fgets_bounded :
    (n : ℕ) (t : console.Terminal) (line : Bytes)
    → (console.fgets n t).0 ≡ some line
    → length line ≤ n - 1
fgets_bounded n t line e =
    let is : take (n - 1) typed ≡ line = some_injective e in
    rw (← is) (omega (arith, length-take (n - 1) typed))

loaded : (load_key host console args session).0 ≡ some key
unfolding load_key read_key read_key_file key_of_file strip_one_trailing_newline
loaded = refl

load_key-bounds_example :
    (12 ≤ length key)
    × (length key ≤ 4096)
    × ((not (empty args.key_file) && not (empty args.key_env)) ≡ false)
load_key-bounds_example = load_key-bounds host console fgets_bounded args session key loaded

-- The input is no container.
failed : (run_decrypt host console 60 args session).0 ≡ some 1
unfolding run_decrypt require_paths load_key read_key read_key_file key_of_file
    strip_one_trailing_newline mc_decrypt_file read_and_decrypt to_path read_file after_open
    after_checks check_stat s_isreg after_reset read_fully toy_entry decrypt_buffer
    parse_file_header memcpy
failed = refl

run_decrypt-unchanged_example :
    toy_system.file
      (run_decrypt host console 60 args session).1.machine.system
      (toy_system.entry model_path)
    ≡ toy_system.file session.machine.system (toy_system.entry model_path)
run_decrypt-unchanged_example =
    run_decrypt-unchanged host console toy_system (λ path n w e. refl) 60 args session 0
      model_path-Apart failed
