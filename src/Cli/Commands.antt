-- ===== src/Cli/Commands.antt =====
-- RunKeygen, RunEncrypt, RunDecrypt, RunInspect and Run of src/cli/main.cc. The result is the exit code,
-- `none` while a loop of the library is still running.
pub mod Exits
use model_crypt.Common.{
  ℕ, ◌+◌, ◌-◌, ◌%◌, ◌^◌, ◌*◌, ◌≡◌, Option, some, none, Bool, true, false, ◌||◌, ◌&&◌, not, List, [],
  ◌∷◌, ltb, ◌==◌, length, if◌then◌else◌,
}
use model_crypt.Common.Buffer.{Bytes}
use model_crypt.Common.Texts.{codes, same}
use model_crypt.Common.Result.{Result, ok, err}
use model_crypt.Services.{Services}
use model_crypt.Format.Types.{header_size, compress_none, compress_zlib}
use model_crypt.Encrypt.Options.{EncryptOptions, default_options}
use model_crypt.Decrypt.Inspect.{FileInfo, inspect_buffer}
use model_crypt.Files.Posix.{Transfer, interrupted, refused, moved}
use model_crypt.Files.Read.{Machine, on_system, on_services}
use model_crypt.Api.{mc_inspect_buffer}
use model_crypt.Api.Files.{Host, State, mc_encrypt_file, mc_decrypt_file}
use model_crypt.Cli.Args.{Args, no_args, empty, parse_args}
use model_crypt.Cli.Numbers.{parse_u32}
use model_crypt.Cli.Keys.{Console, Session, load_key}

abbrev pub exit_ok : ℕ
exit_ok = 0

abbrev pub exit_usage : ℕ
exit_usage = 2

abbrev pub exit_failure : ℕ
exit_failure = 1

unfoldable pub require_paths : Args → Bool → Bool
require_paths args need_out = not (empty args.input) && not (need_out && empty args.output)

-- The option's text, if there is one, replaces a number.
unfoldable pub number_option : Bytes → ℕ → ℕ → ℕ → Option ℕ
number_option text low high kept = if empty text then some kept else parse_u32 text low high

unfoldable pub compression_option : Bytes → ℕ → Option ℕ
unfolding same
compression_option text kept =
    if empty text
    then some kept
    else if same text (codes "none")
    then some compress_none
    else if same text (codes "zlib")
    then some compress_zlib
    else none

infixl 5 ◌>>=◌
abbrev ◌>>=◌ : {A B : Type 0} → Option A → (A → Option B) → Option B
none >>= f = none
some a >>= f = f a

-- What RunEncrypt passes, or `none` where it returns kExitUsage.
unfoldable pub options_of : Args → Option EncryptOptions
unfolding default_options number_option compression_option
options_of args = do
  compression ← compression_option args.compression default_options.compression
  chunk_size ← number_option args.chunk_size (2 ^ 12) (2 ^ 26) default_options.chunk_size
  log_n ← number_option args.kdf_log_n 14 20 default_options.kdf_log_n
  r ← number_option args.kdf_r 1 32 default_options.kdf_r
  p ← number_option args.kdf_p 1 16 default_options.kdf_p
  some (record {
    compression = compression;
    chunk_size = chunk_size;
    kdf_log_n = log_n % 2 ^ 8;
    kdf_r = r;
    kdf_p = p;
  })

-- `mc_file_info info = {}`
abbrev pub no_info : FileInfo
no_info = record {
  format_version = 0;
  compression = 0;
  chunk_size = 0;
  plaintext_size = 0;
  chunk_count = 0;
  kdf_log_n = 0;
  kdf_r = 0;
  kdf_p = 0;
}

module _ (H : Host) (C : Console H) where
  abbrev pub Outcome : Type 0
  Outcome = Option ℕ × Session H C

  abbrev pub exit : ℕ → Session H C → Outcome
  exit code s = (some code, s)

  -- `if (rc != MC_OK) { ...; return kExitFailure; } ... return kExitOk;`
  abbrev pub status_exit : Session H C → Option (Result (Unit {0})) × State H → Outcome
  status_exit s (none, m) = (none, record s { machine = m })
  status_exit s (some (ok u), m) = exit exit_ok (record s { machine = m })
  status_exit s (some (err e), m) = exit exit_failure (record s { machine = m })

  -- What follows open() in RunKeygen: write the key, close, and compare the count.
  abbrev pub all_taken : Transfer ℕ → ℕ → Bool
  all_taken interrupted size = false
  all_taken refused size = false
  all_taken (moved n) size = n == size

  abbrev pub keygen_write : Bytes → Session H C → Option ℕ × State H → Outcome
  keygen_write raw s (none, m) = exit exit_failure (record s { machine = m })
  keygen_write raw s (some fd, m) =
      let (n, m') = on_system H.services H.posix m (H.posix.write fd raw m.system) in
      let (_, m'') = on_system H.services H.posix m' (H.posix.close fd m'.system) in
      exit (if all_taken n (length raw) then exit_ok else exit_failure) (record s { machine = m'' })

  abbrev pub keygen_create : Bytes → Session H C → Result Bytes × State H → Outcome
  keygen_create path s (err e, m) = exit exit_failure (record s { machine = m })
  keygen_create path s (ok raw, m) =
      keygen_write raw s (on_system H.services H.posix m (C.create_new path 384 m.system))

  -- mc_generate_key is Fill of the services.
  unfoldable pub run_keygen : Args → Session H C → Outcome
  run_keygen args s =
      if empty args.output
      then exit exit_usage s
      else keygen_create args.output s
          (on_services H.services H.posix s.machine (H.services.fill 32 s.machine.services))

  abbrev pub encrypt_with : ℕ → Args → EncryptOptions → Option Bytes × Session H C → Outcome
  encrypt_with fuel args opts (none, s) = exit exit_usage s
  encrypt_with fuel args opts (some key, s) = status_exit s (
      mc_encrypt_file H fuel (some key) (length key) (some opts) (some args.input)
        (some args.output) s.machine)

  abbrev pub encrypt_under : ℕ → Args → Option EncryptOptions → Session H C → Outcome
  unfolding load_key
  encrypt_under fuel args none s = exit exit_usage s
  encrypt_under fuel args (some opts) s = encrypt_with fuel args opts (load_key H C args s)

  unfoldable pub run_encrypt : ℕ → Args → Session H C → Outcome
  unfolding require_paths options_of encrypt_under
  run_encrypt fuel args s =
      if not (require_paths args true)
      then exit exit_usage s
      else encrypt_under fuel args (options_of args) s

  abbrev pub decrypt_with : ℕ → Args → Option Bytes × Session H C → Outcome
  decrypt_with fuel args (none, s) = exit exit_usage s
  decrypt_with fuel args (some key, s) = status_exit s (
      mc_decrypt_file H fuel (some key) (length key) (some args.input) (some args.output) s.machine)

  unfoldable pub run_decrypt : ℕ → Args → Session H C → Outcome
  unfolding require_paths
  run_decrypt fuel args s =
      if not (require_paths args true)
      then exit exit_usage s
      else decrypt_with fuel args (load_key H C args s)

  abbrev pub inspected : Session H C → Option Bytes × State H → Outcome
  inspected s (none, m) = exit exit_failure (record s { machine = m })
  inspected s (some header, m) =
      exit (inspected_code (mc_inspect_buffer (some header) (length header) (some no_info)))
        (record s { machine = m })
    where
      inspected_code : Result FileInfo → ℕ
      inspected_code (ok info) = exit_ok
      inspected_code (err e) = exit_failure

  unfoldable pub run_inspect : Args → Session H C → Outcome
  unfolding require_paths
  run_inspect args s =
      if not (require_paths args false)
      then exit exit_usage s
      else inspected s (
          on_system H.services H.posix s.machine
            (C.read_front args.input header_size s.machine.system))

  abbrev pub dispatch : ℕ → Option Args → Session H C → Outcome
  unfolding run_keygen run_encrypt run_decrypt run_inspect same
  dispatch fuel none s = exit exit_usage s
  dispatch fuel (some args) s =
      if args.version
      then exit exit_ok s
      else if args.help
      then exit exit_ok s
      else if empty args.command
      then exit exit_usage s
      else if same args.command (codes "keygen")
      then run_keygen args s
      else if same args.command (codes "encrypt")
      then run_encrypt fuel args s
      else if same args.command (codes "decrypt")
      then run_decrypt fuel args s
      else if same args.command (codes "inspect")
      then run_inspect args s
      else exit exit_usage s

  -- The arguments from argv[1] on.
  unfoldable pub run : ℕ → List Bytes → Session H C → Outcome
  unfolding dispatch parse_args
  run fuel argv s = dispatch fuel (parse_args argv no_args) s
