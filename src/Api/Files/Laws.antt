-- ===== src/Api/Files/Laws.antt =====
-- What the file functions of src/api/c_api.cc leave on disk.
use model_crypt.Common.{
  ℕ, ◌≡◌, refl, ◌∙◌, ap, subst, Option, some, none, Bool, true, false, [], length, if◌then◌else◌,
}
use model_crypt.Common.Buffer.{Bytes}
use model_crypt.Common.Result.{Error, Result, ok, err, memory, ok_injective}
use model_crypt.Common.World.{Effect}
use model_crypt.Format.Types.{max_plaintext_size, max_file_size}
use model_crypt.Encrypt.Options.{EncryptOptions}
use model_crypt.Encrypt.Buffer.{encrypt_buffer}
use model_crypt.Decrypt.Buffer.{decrypt_buffer}
use model_crypt.Files.Posix.{File, FileSystem}
use model_crypt.Files.Running.{Running, ◌>>=◌, run_outcome}
use model_crypt.Files.Read.{read_file}
use model_crypt.Files.Read.Keeps.{read_file-keeps}
use model_crypt.Files.Write.{write_file_atomically}
use model_crypt.Files.Write.Outcome.{write_file_atomically-err}
use model_crypt.Files.Steps.Atomic.{Apart}
use model_crypt.Api.{effective}
use model_crypt.Api.Files.{
  Host, State, data_of, served, by_system, to_path, mc_encrypt_file, read_and_decrypt,
  mc_decrypt_file,
}

module _ (H : Host) where
  open H use {services, posix}

  pub to_path-eq_ok :
      (path : Bytes) (v : services.World) (found : Bytes)
      → (to_path H (some path) v).0 ≡ ok found
      → path ≡ found
  unfolding to_path
  to_path-eq_ok path v found e = made (H.new_string (length path) v).0 e
    where
      made : (b : Bool) → (if b then ok path else err memory) ≡ ok found → path ≡ found
      made true e = ok_injective e
      made false e = cc

  -- A path that a chain goes on with is the one it was given.
  pub path-eq_ok :
      (path : Bytes) (m : State H) (found : Bytes)
      → (served H (to_path H (some path)) m).0 ≡ some (ok found)
      → path ≡ found
  path-eq_ok path m found e = to_path-eq_ok path m.services found (cc)

module _ (H : Host) (fs : FileSystem H.posix) (e : fs.Entry) (was : Option File) where
  open H use {services, posix}
  open fs use {entry, file}

  -- A call that changes nothing about an entry, and one that changes nothing when it fails.
  abbrev Keeps : {A : Type 0} → Running (State H) A → Type 0
  Keeps call = (m : State H) → file m.system e ≡ was → file (call m).1.system e ≡ was

  abbrev Spares : {A : Type 0} → Running (State H) A → Type 0
  Spares call =
      (m : State H) (x : Error)
      → file m.system e ≡ was
      → (call m).0 ≡ some (err x)
      → file (call m).1.system e ≡ was

  Keeps-Spares :
      {A B : Type 0} (call : Running (State H) A) (rest : A → Running (State H) B)
      → Keeps call
      → ((a : A) (m : State H) → (call m).0 ≡ some (ok a) → Spares (rest a))
      → Spares (call >>= rest)
  Keeps-Spares {A} call rest keeps spares m x h failed =
      go (call m) (keeps m h) (λ a. spares a m) failed
    where
      go :
          (q : Option (Result A) × State H)
          → file q.1.system e ≡ was
          → ((a : A) → q.0 ≡ some (ok a) → Spares (rest a))
          → (run_outcome q rest).0 ≡ some (err x)
          → file (run_outcome q rest).1.system e ≡ was
      go (none, m') h s failed = cc
      go (some (err y), m') h s failed = h
      go (some (ok a), m') h s failed = s a refl m' x h failed

  served-Keeps : {A : Type 0} (call : Effect services.World A) → Keeps (served H call)
  served-Keeps call m h = h

  read-Keeps :
      (fuel : ℕ) (path : Bytes) (max_size : ℕ)
      → Keeps (read_file services posix fuel path max_size (some tt) (some tt))
  read-Keeps fuel path max_size m h =
      read_file-keeps services posix fs e was fuel path max_size (some tt) (some tt) m h

  read_and_decrypt-Keeps :
      (fuel : ℕ) (key : Option Bytes) (key_size : ℕ) (path : Bytes)
      → Keeps (read_and_decrypt H fuel key key_size path)
  unfolding read_and_decrypt
  read_and_decrypt-Keeps fuel key key_size path m h =
      go (read_file services posix fuel path max_file_size (some tt) (some tt) m)
        (read-Keeps fuel path max_file_size m h)
    where
      go :
          (q : Option (Result (Bytes × ℕ)) × State H)
          → file q.1.system e ≡ was
          → file
              (run_outcome q (λ (c, n).
                served H
                  (decrypt_buffer services key key_size (data_of c) n (some []) (some 0)))).1.system
              e
            ≡ was
      go (none, m') k = k
      go (some (err x), m') k = k
      go (some (ok (c, n)), m') k = k

  write-Spares :
      (fuel : ℕ) (path : Bytes) (bytes : Option Bytes) (size mode : ℕ)
      → Apart posix fs path
      → e ≡ entry path
      → Spares (by_system H (write_file_atomically posix fuel path bytes size mode))
  write-Spares fuel path bytes size mode apart is m x h failed = rw is (
      write_file_atomically-err posix fs path apart fuel bytes size mode m.system x failed
      ∙ (rw is at h))

module _ (H : Host) (fs : FileSystem H.posix) (out_path : Bytes)
    (apart : Apart H.posix fs out_path) where
  open H use {services, posix}
  open fs use {entry, file}

  -- When mc_encrypt_file returns anything but MC_OK, the entry that its output path leads to is as it
  -- was before the call, a file or none. The path is not one that mkstemp makes of its template.
  pub mc_encrypt_file-err :
      (fuel : ℕ) (key : Option Bytes) (key_size : ℕ) (opts : Option EncryptOptions)
      (in_path : Option Bytes) (m : State H) (x : Error)
      → (mc_encrypt_file H fuel key key_size opts in_path (some out_path) m).0 ≡ some (err x)
      → file
          (mc_encrypt_file H fuel key key_size opts in_path (some out_path) m).1.system
          (entry out_path)
        ≡ file m.system (entry out_path)
  unfolding mc_encrypt_file
  mc_encrypt_file-err fuel key key_size opts in_path m x =
      let e = entry out_path in
      let was = file m.system e in
      Keeps-Spares H fs e was (served H (to_path H in_path)) _
        (served-Keeps H fs e was (to_path H in_path))
        (λ input _ _.
          Keeps-Spares H fs e was (served H (to_path H (some out_path))) _
            (served-Keeps H fs e was (to_path H (some out_path)))
            (λ output m1 found.
              let is = path-eq_ok H out_path m1 output found in
              Keeps-Spares H fs e was
                (read_file services posix fuel input max_plaintext_size (some tt) (some tt)) _
                (read-Keeps H fs e was fuel input max_plaintext_size)
                (λ (p, n) _ _.
                  Keeps-Spares H fs e was
                    (served H (
                      encrypt_buffer services key key_size (effective opts) (data_of p) n (some [])
                        (some 0)))
                    _
                    (served-Keeps H fs e was (
                      encrypt_buffer services key key_size (effective opts) (data_of p) n (some [])
                        (some 0)))
                    (λ (c, k) _ _.
                      write-Spares H fs e was fuel output (data_of c) k 420
                        (subst (λ t. Apart posix fs t) is apart) (ap entry is)))))
        m x refl

  -- When mc_decrypt_file returns anything but MC_OK, the entry that its output path leads to is as it
  -- was before the call, a file or none. The path is not one that mkstemp makes of its template.
  pub mc_decrypt_file-err :
      (fuel : ℕ) (key : Option Bytes) (key_size : ℕ) (in_path : Option Bytes) (m : State H)
      (x : Error)
      → (mc_decrypt_file H fuel key key_size in_path (some out_path) m).0 ≡ some (err x)
      → file
          (mc_decrypt_file H fuel key key_size in_path (some out_path) m).1.system
          (entry out_path)
        ≡ file m.system (entry out_path)
  unfolding mc_decrypt_file
  mc_decrypt_file-err fuel key key_size in_path m x =
      let e = entry out_path in
      let was = file m.system e in
      Keeps-Spares H fs e was (served H (to_path H in_path)) _
        (served-Keeps H fs e was (to_path H in_path))
        (λ input _ _.
          Keeps-Spares H fs e was (served H (to_path H (some out_path))) _
            (served-Keeps H fs e was (to_path H (some out_path)))
            (λ output m1 found.
              let is = path-eq_ok H out_path m1 output found in
              Keeps-Spares H fs e was (read_and_decrypt H fuel key key_size input) _
                (read_and_decrypt-Keeps H fs e was fuel key key_size input)
                (λ (p, n) _ _.
                  write-Spares H fs e was fuel output (data_of p) n 384
                    (subst (λ t. Apart posix fs t) is apart) (ap entry is))))
        m x refl
