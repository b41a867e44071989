-- ===== src/Cli/Commands/Exits.antt =====
-- What the exit codes of src/cli/main.cc say.
use model_crypt.Common.{
  ℕ, suc, ◌^◌, ◌≤◌, ◌<◌, ◌≡◌, refl, ◌∙◌, Option, some, none, true, ◌&&◌, not, [], ◌∷◌, arith,
  length, Bool-cases, inl, inr,
}
use model_crypt.Common.Buffer.{Bytes}
use model_crypt.Common.Result.{Result, ok, err, some_injective}
use model_crypt.Encrypt.Options.{EncryptOptions}
use model_crypt.Files.Posix.{File, FileSystem}
use model_crypt.Files.Steps.Atomic.{Apart}
use model_crypt.Api.Files.{Host, State, mc_decrypt_file}
use model_crypt.Api.Files.Laws.{mc_decrypt_file-err}
use model_crypt.Cli.Args.{Args, empty}
use model_crypt.Cli.Numbers.Decimal.{parse_u32-range}
use model_crypt.Cli.Keys.{
  Console, Session, read_key_file, read_key_env, read_key_prompt, read_key, load_key,
}
use model_crypt.Cli.Commands.{
  ◌>>=◌, require_paths, number_option, compression_option, options_of, status_exit, decrypt_with,
  run_decrypt,
}

number_option-range :
    (text : Bytes) (low high kept n : ℕ)
    → low ≤ kept
    → kept ≤ high
    → high < 2 ^ 32
    → number_option text low high kept ≡ some n
    → (low ≤ n) × (n ≤ high)
unfolding number_option
number_option-range [] low high kept n l h small e = let is : kept ≡ n = cc in rw (← is) (l, h)
number_option-range (c ∷ text) low high kept n l h small e =
    parse_u32-range (c ∷ text) low high n small e

compression_option-range : (text : Bytes) (n : ℕ) → compression_option text 1 ≡ some n → n ≤ 1
unfolding compression_option
compression_option-range text n e = ground (arith, e)

-- One option after the other.
take_option :
    {A B : Type 0} (found : Option A) (rest : A → Option B) (b : B)
    → (found >>= rest) ≡ some b
    → (a : A) × (found ≡ some a) × (rest a ≡ some b)
take_option none rest b e = cc
take_option (some a) rest b e = (a, refl, e)

-- RunEncrypt passes only options in the ranges that its usage text gives, whatever the texts on the
-- command line are.
pub options_of-range :
    (args : Args) (opts : EncryptOptions)
    → options_of args ≡ some opts
    → (opts.compression ≤ 1)
      × (2 ^ 12 ≤ opts.chunk_size)
      × (opts.chunk_size ≤ 2 ^ 26)
      × (14 ≤ opts.kdf_log_n)
      × (opts.kdf_log_n ≤ 20)
      × (1 ≤ opts.kdf_r)
      × (opts.kdf_r ≤ 32)
      × (1 ≤ opts.kdf_p)
      × (opts.kdf_p ≤ 16)
unfolding options_of
options_of-range args opts e =
    let (compression, e1, r1) = take_option (compression_option args.compression 1) _ opts e in
    let (chunk, e2, r2) =
      take_option (number_option args.chunk_size (2 ^ 12) (2 ^ 26) (2 ^ 22)) _ opts r1 in
    let (log_n, e3, r3) = take_option (number_option args.kdf_log_n 14 20 15) _ opts r2 in
    let (r, e4, r4) = take_option (number_option args.kdf_r 1 32 8) _ opts r3 in
    let (p, e5, r5) = take_option (number_option args.kdf_p 1 16 1) _ opts r4 in
    let known = compression_option-range args.compression compression e1 in
    let (c1, c2) =
      number_option-range args.chunk_size (2 ^ 12) (2 ^ 26) (2 ^ 22) chunk (omega arith)
        (omega arith) (omega arith) e2 in
    let (n1, n2) =
      number_option-range args.kdf_log_n 14 20 15 log_n (omega arith) (omega arith) (omega arith)
        e3 in
    let (r1', r2') =
      number_option-range args.kdf_r 1 32 8 r (omega arith) (omega arith) (omega arith) e4 in
    let (p1, p2) =
      number_option-range args.kdf_p 1 16 1 p (omega arith) (omega arith) (omega arith) e5 in
    let is : _ ≡ opts = some_injective r5 in
    rw (← is) (known, c1, c2, omega (arith, n1, n2), omega (arith, n1, n2), r1', r2', p1, p2)

module _ (H : Host) (C : Console H) (fs : FileSystem H.posix)
    (read_keeps : (path : Bytes) (n : ℕ) (w : H.posix.World) (e : fs.Entry)
      → fs.file (C.read_front path n w).1 e ≡ fs.file w e) where
  open fs use {entry, file}

  load_key-keeps :
      (args : Args) (s : Session H C) (e : fs.Entry)
      → file (load_key H C args s).1.machine.system e ≡ file s.machine.system e
  unfolding load_key read_key read_key_file read_key_env read_key_prompt
  load_key-keeps args s e =
      elim (Bool-cases (not (empty args.key_file) && not (empty args.key_env))) [
        | inl both ↦ rw both
        | inr one ↦ elim (Bool-cases (not (empty args.key_file))) [
          | inl from_file ↦ rw (one, from_file) (read_keeps args.key_file 4097 s.machine.system e)
          | inr no_file ↦ elim (Bool-cases (not (empty args.key_env))) [
            | inl env ↦ rw (one, no_file, env)
            | inr prompt ↦ rw (one, no_file, prompt)
          ]
        ]
      ]

  status-unchanged :
      (s : Session H C) (q : Option (Result (Unit {0})) × State H) (e : fs.Entry)
      (was : Option File) (code : ℕ)
      → ((x : _) → q.0 ≡ some (err x) → file q.1.system e ≡ was)
      → (status_exit H C s q).0 ≡ some (suc code)
      → file (status_exit H C s q).1.machine.system e ≡ was
  status-unchanged s (none, m) e was code h failed = cc
  status-unchanged s (some (ok u), m) e was code h failed =
      let no_way : 0 ≡ suc code = cc in absurd (omega (arith, no_way))
  status-unchanged s (some (err x), m) e was code h failed = h x refl

  decrypt-unchanged :
      (fuel : ℕ) (args : Args) (q : Option Bytes × Session H C) (was : Option File) (code : ℕ)
      → Apart H.posix fs args.output
      → file q.1.machine.system (entry args.output) ≡ was
      → (decrypt_with H C fuel args q).0 ≡ some (suc code)
      → file (decrypt_with H C fuel args q).1.machine.system (entry args.output) ≡ was
  decrypt-unchanged fuel args (none, s) was code apart h failed = h
  decrypt-unchanged fuel args (some key, s) was code apart h failed =
      status-unchanged s
        (mc_decrypt_file H fuel (some key) (length key) (some args.input) (some args.output)
          s.machine)
        (entry args.output) was code
        (λ x e.
          mc_decrypt_file-err H fs args.output apart fuel (some key) (length key) (some args.input)
            s.machine x e
          ∙ h)
        failed

  -- When the decrypt command exits with a code other than 0, for whatever reason, the entry that its
  -- output path leads to is as it was before. The path is not one that mkstemp makes of its template,
  -- and reading a key file changes no file.
  pub run_decrypt-unchanged :
      (fuel : ℕ) (args : Args) (s : Session H C) (code : ℕ)
      → Apart H.posix fs args.output
      → (run_decrypt H C fuel args s).0 ≡ some (suc code)
      → file (run_decrypt H C fuel args s).1.machine.system (entry args.output)
        ≡ file s.machine.system (entry args.output)
  unfolding run_decrypt
  run_decrypt-unchanged fuel args s code apart failed =
      elim (Bool-cases (not (require_paths args true))) [
        | inl missing ↦ rw missing
        | inr given ↦ rw given (
            decrypt-unchanged fuel args (load_key H C args s)
              (file s.machine.system (entry args.output)) code apart
              (load_key-keeps args s (entry args.output)) (rw given at failed))
      ]
