-- ===== src/Api/Files/Calls.antt =====
-- What a success of mc_encrypt_file and of mc_decrypt_file of src/api/c_api.cc has done.
use model_crypt.Common.{
  ℕ, ◌≤◌, ◌<◌, ◌≡◌, refl, ◌∙◌, ap, subst, Option, some, [], ◌∷◌, arith, length,
}
use model_crypt.Common.Buffer.{Bytes, slice}
use model_crypt.Common.Result.{Result, ok}
use model_crypt.Common.World.{Effect}
use model_crypt.Format.Types.{max_plaintext_size, max_file_size}
use model_crypt.Encrypt.Options.{EncryptOptions, memory_at}
use model_crypt.Encrypt.Buffer.{encrypt_buffer}
use model_crypt.Decrypt.Buffer.{decrypt_buffer}
use model_crypt.Files.Posix.{File, FileSystem}
use model_crypt.Files.Running.{run_through}
use model_crypt.Files.Read.{read_file}
use model_crypt.Files.Read.Contents.{read_file-contents}
use model_crypt.Files.Write.{write_file_atomically}
use model_crypt.Files.Write.Outcome.{write_file_atomically-ok}
use model_crypt.Files.Steps.Atomic.{Apart}
use model_crypt.Api.{effective}
use model_crypt.Api.Laws.{memory_at-release}
use model_crypt.Api.Files.{
  Host, State, data_of, served, by_system, to_path, mc_encrypt_file, read_and_decrypt,
  mc_decrypt_file,
}
use model_crypt.Api.Files.Laws.{path-eq_ok}

module _ (H : Host) (fs : FileSystem H.posix) where
  open H use {services, posix}
  open fs use {entry, file}

  read-whole :
      (fuel : ℕ) (path : Bytes) (max_size : ℕ) (m : State H) (f : File) (bytes : Bytes) (n : ℕ)
      → file m.system (entry path) ≡ some f
      → (read_file services posix fuel path max_size (some tt) (some tt) m).0 ≡ some (ok (bytes, n))
      → (bytes ≡ f.contents) × (n ≡ length f.contents) × (n ≤ max_size)
  read-whole = read_file-contents services posix fs

  -- A path that a chain goes on with is the one it was given, and the system has not changed.
  path-eq :
      (path : Bytes) (m : State H) (found : Bytes) (m' : State H)
      → served H (to_path H (some path)) m ≡ (some (ok found), m')
      → (path ≡ found) × (m.system ≡ m'.system)
  path-eq path m found m' e = (path-eq_ok H path m found (ap (λ t. t.0) e), ap (λ t. t.1.system) e)

  Apart-moved : (path path' : Bytes) → path ≡ path' → Apart posix fs path → Apart posix fs path'
  Apart-moved path path' is apart = subst (λ t. Apart posix fs t) is apart

  served-eq_ok :
      {A : Type 0} (call : Effect services.World A) (m : State H) (a : A)
      → (served H call m).0 ≡ some (ok a)
      → (call m.services).0 ≡ ok a
  served-eq_ok call m a e = cc

  written :
      (fuel : ℕ) (path path' : Bytes) (bytes : Option Bytes) (size mode : ℕ) (m : State H)
      → path ≡ path'
      → Apart posix fs path
      → (by_system H (write_file_atomically posix fuel path' bytes size mode) m).0 ≡ some (ok tt)
      → file
          (by_system H (write_file_atomically posix fuel path' bytes size mode) m).1.system
          (entry path)
        ≡ some (record { mode = mode; contents = slice (memory_at bytes) 0 size })
  written fuel path path' bytes size mode m is apart e =
      ap
        (λ t.
          file (by_system H (write_file_atomically posix fuel path' bytes size mode) m).1.system
            (entry t))
        is
      ∙ write_file_atomically-ok posix fs path' (Apart-moved path path' is apart) fuel bytes size
          mode m.system e

  -- What a successful mc_encrypt_file has done.
  abbrev pub Encrypts :
      Option Bytes
      → ℕ
      → Option EncryptOptions
      → Bytes
      → Bytes
      → Option (Result (Unit {0})) × State H
      → Type 0
  Encrypts key key_size opts plaintext out_path q =
      (ciphertext : Bytes) × (size : ℕ) × (v : services.World) × ((encrypt_buffer services key
          key_size (effective opts) (data_of plaintext) (length plaintext) (some []) (some 0) v).0
        ≡ ok (ciphertext, size))
      × (file q.1.system (entry out_path)
          ≡ some (record { mode = 420; contents = slice ciphertext 0 size }))

  pub mc_encrypt_file-Encrypts :
      (fuel : ℕ) (key : Option Bytes) (key_size : ℕ) (opts : Option EncryptOptions)
      (in_path out_path : Bytes) (m : State H) (f : File)
      → Apart posix fs out_path
      → file m.system (entry in_path) ≡ some f
      → (mc_encrypt_file H fuel key key_size opts (some in_path) (some out_path) m).0 ≡ some (ok tt)
      → Encrypts key key_size opts f.contents out_path
          (mc_encrypt_file H fuel key key_size opts (some in_path) (some out_path) m)
  unfolding mc_encrypt_file
  mc_encrypt_file-Encrypts fuel key key_size opts in_path out_path m f apart there =
      let Goal = Encrypts key key_size opts f.contents out_path in
      run_through Goal (served H (to_path H (some in_path))) _ m λ input m1 e1.
        run_through Goal (served H (to_path H (some out_path))) _ m1 λ output m2 e2.
          run_through Goal
            (read_file services posix fuel input max_plaintext_size (some tt) (some tt)) _ m2
            λ (p, n) m3 e3.
              run_through Goal
                (served H (
                  encrypt_buffer services key key_size (effective opts) (data_of p) n (some [])
                    (some 0)))
                _ m3
                λ (c, k) m4 e4 r4.
                  let (from, kept1) = path-eq in_path m input m1 e1 in
                  let (to, kept2) = path-eq out_path m1 output m2 e2 in
                  let (whole, count, _) =
                    read-whole fuel input max_plaintext_size m2 f p n
                      (rw (← from, ← kept2, ← kept1) there) (ap (λ t. t.0) e3) in
                  (
                    c,
                    k,
                    m3.services,
                    rw (← count, ← whole)
                        (served-eq_ok
                          (encrypt_buffer services key key_size (effective opts) (data_of p) n
                            (some []) (some 0))
                          m3 (c, k) (ap (λ t. t.0) e4)),
                    written fuel out_path output (data_of c) k 420 m4 to apart r4
                        ∙ ap (λ t. some (record { mode = 420; contents = slice t 0 k }))
                            (memory_at-release c),
                  )

  read_and_decrypt-eq_ok :
      (fuel : ℕ) (key : Option Bytes) (key_size : ℕ) (path : Bytes) (m : State H) (f : File)
      (plaintext : Bytes) (size : ℕ) (m' : State H)
      → file m.system (entry path) ≡ some f
      → read_and_decrypt H fuel key key_size path m ≡ (some (ok (plaintext, size)), m')
      → (v : services.World) × ((decrypt_buffer services key key_size
            (data_of f.contents)
            (length f.contents)
            (some [])
            (some 0)
            v).0
          ≡ ok (plaintext, size))
        × (length f.contents ≤ max_file_size)
  unfolding read_and_decrypt
  read_and_decrypt-eq_ok fuel key key_size path m f plaintext size m' there e =
      run_through
        (λ _.
          (v : services.World) × ((decrypt_buffer services key key_size (data_of f.contents)
              (length f.contents) (some []) (some 0) v).0
            ≡ ok (plaintext, size))
          × (length f.contents ≤ max_file_size))
        (read_file services posix fuel path max_file_size (some tt) (some tt)) _ m
        (λ (c, k) m1 e1 r1.
          let (whole, count, low) =
            read-whole fuel path max_file_size m f c k there (ap (λ t. t.0) e1) in
          (
            m1.services,
            rw (← count, ← whole)
                (served-eq_ok
                  (decrypt_buffer services key key_size (data_of c) k (some []) (some 0)) m1
                  (plaintext, size) r1),
            rw (← count) low,
          ))
        (ap (λ t. t.0) e)

  -- What a successful mc_decrypt_file has done.
  abbrev pub Decrypts :
      Option Bytes → ℕ → Bytes → Bytes → Option (Result (Unit {0})) × State H → Type 0
  Decrypts key key_size ciphertext out_path q =
      (plaintext : Bytes) × (size : ℕ) × (v : services.World) × ((decrypt_buffer services key
          key_size (data_of ciphertext) (length ciphertext) (some []) (some 0) v).0
        ≡ ok (plaintext, size))
      × (length ciphertext ≤ max_file_size)
      × (file q.1.system (entry out_path)
          ≡ some (record { mode = 384; contents = slice plaintext 0 size }))

  pub mc_decrypt_file-Decrypts :
      (fuel : ℕ) (key : Option Bytes) (key_size : ℕ) (in_path out_path : Bytes) (m : State H)
      (f : File)
      → Apart posix fs out_path
      → file m.system (entry in_path) ≡ some f
      → (mc_decrypt_file H fuel key key_size (some in_path) (some out_path) m).0 ≡ some (ok tt)
      → Decrypts key key_size f.contents out_path
          (mc_decrypt_file H fuel key key_size (some in_path) (some out_path) m)
  unfolding mc_decrypt_file
  mc_decrypt_file-Decrypts fuel key key_size in_path out_path m f apart there =
      let Goal = Decrypts key key_size f.contents out_path in
      run_through Goal (served H (to_path H (some in_path))) _ m λ input m1 e1.
        run_through Goal (served H (to_path H (some out_path))) _ m1 λ output m2 e2.
          run_through Goal (read_and_decrypt H fuel key key_size input) _ m2 λ (p, n) m4 e4 r4.
            let (from, kept1) = path-eq in_path m input m1 e1 in
            let (to, kept2) = path-eq out_path m1 output m2 e2 in
            let (v, ran, low) =
              read_and_decrypt-eq_ok fuel key key_size input m2 f p n m4
                (rw (← from, ← kept2, ← kept1) there) e4 in
            (
              p,
              n,
              v,
              ran,
              low,
              written fuel out_path output (data_of p) n 384 m4 to apart r4
                  ∙ ap (λ t. some (record { mode = 384; contents = slice t 0 n }))
                      (memory_at-release p),
            )

pub data_of-some : (bs : Bytes) → 0 < length bs → data_of bs ≡ some bs
data_of-some [] h = absurd (omega arith)
data_of-some (b ∷ bs) h = refl
