-- ===== src/Api/Files/RoundTrip.antt =====
-- Files that mc_encrypt_file and mc_decrypt_file of src/api/c_api.cc have written.
use model_crypt.Common.{ℕ, ◌≤◌, ◌≡◌, refl, sym, ◌∙◌, ap, Option, some, [], ◌∷◌, arith, length, All}
use model_crypt.Common.Buffer.{Bytes, IsByte, slice, slice_self, length-slice}
use model_crypt.Common.Result.{ok, ok_injective}
use model_crypt.Services.{Services, IsSound, Inverts}
use model_crypt.Encrypt.Options.{EncryptOptions, memory_at}
use model_crypt.Encrypt.Buffer.{encrypt_buffer}
use model_crypt.Decrypt.Buffer.{decrypt_buffer}
use model_crypt.Decrypt.Verified.{Verified, decrypt_buffer-Verified}
use model_crypt.Container.RoundTrip.{decrypt_buffer-encrypt_buffer}
use model_crypt.Container.Inspected.{encrypt_buffer-size}
use model_crypt.Files.Posix.{File, FileSystem}
use model_crypt.Files.Steps.Atomic.{Apart}
use model_crypt.Api.{effective}
use model_crypt.Api.Laws.{memory_at-release}
use model_crypt.Api.Files.{Host, State, data_of, mc_encrypt_file, mc_decrypt_file}
use model_crypt.Api.Files.Calls.{mc_encrypt_file-Encrypts, mc_decrypt_file-Decrypts, data_of-some}

-- DecryptBuffer does not accept an empty buffer, whose data pointer is null.
data_of-given :
    (S : Services) (key : Bytes) (key_size : ℕ) (bs : Bytes) (v : S.World) (plain : Bytes) (n : ℕ)
    → (decrypt_buffer S (some key) key_size (data_of bs) (length bs) (some []) (some 0) v).0
      ≡ ok (plain, n)
    → (decrypt_buffer S (some key) key_size (some bs) (length bs) (some []) (some 0) v).0
      ≡ ok (plain, n)
data_of-given S key key_size [] v plain n e = unfold decrypt_buffer in cc
data_of-given S key key_size (b ∷ bs) v plain n e = e

-- Decrypting the bytes of a whole file gives the contents that were encrypted.
reopened :
    (S : Services) (sound : IsSound S) (inverts : Inverts S) (key : Bytes) (key_size : ℕ)
    (opts : EncryptOptions) (contents file : Bytes) (size : ℕ) (v v' : S.World) (plain : Bytes)
    (n : ℕ)
    → (encrypt_buffer S
        (some key)
        key_size
        opts
        (data_of contents)
        (length contents)
        (some [])
        (some 0)
        v).0
      ≡ ok (file, size)
    → (decrypt_buffer S
        (some key)
        key_size
        (data_of (slice file 0 size))
        (length (slice file 0 size))
        (some [])
        (some 0)
        v').0
      ≡ ok (plain, n)
    → slice plain 0 n ≡ contents
reopened S sound inverts key key_size opts contents file size v v' plain n sealed opened =
    let held : memory_at (data_of contents) ≡ contents = memory_at-release contents in
    let inside : length contents ≤ length (memory_at (data_of contents)) =
      omega (arith, ap length held) in
    let read =
      decrypt_buffer-encrypt_buffer S sound inverts key key_size opts (data_of contents)
        (length contents) (some []) (some 0) v file size inside sealed [] 0 v' in
    let sizes =
      encrypt_buffer-size S sound inverts key key_size opts (data_of contents) (length contents)
        (some []) (some 0) v file size inside sealed in
    let long : length (slice file 0 size) ≡ size =
      length-slice file 0 size (omega (arith, sizes.2)) in
    let there = data_of-some (slice file 0 size) (omega (arith, sizes.0, long)) in
    let same = ok_injective (sym (rw (there, long) at opened) ∙ read) in
    let whole : slice contents 0 (length contents) ≡ contents =
      slice_self contents (length contents) refl in
    ap (λ t. slice t.0 0 t.1) same
    ∙ ap (λ t. slice (slice t 0 (length contents)) 0 (length contents)) held
    ∙ ap (λ t. slice t 0 (length contents)) whole
    ∙ whole

-- Let the services be sound and undo each other, and the system keep the promises of its manuals. If
-- mc_encrypt_file of a regular file returns MC_OK, and mc_decrypt_file, later and with the same key,
-- of the file it left at its output path, which has not changed since, returns MC_OK too, then the
-- path given to that is a file of mode 0600 with the contents that were encrypted. Neither output
-- path is one that mkstemp makes of its template.
pub mc_decrypt_file-mc_encrypt_file :
    (H : Host) (sound : IsSound H.services) (inverts : Inverts H.services) (fs : FileSystem H.posix)
    (fuel : ℕ) (key : Bytes) (key_size : ℕ) (opts : Option EncryptOptions)
    (plain_path sealed_path copy_path : Bytes) (m later : State H) (f : File)
    → Apart H.posix fs sealed_path
    → Apart H.posix fs copy_path
    → fs.file m.system (fs.entry plain_path) ≡ some f
    → (mc_encrypt_file H fuel (some key) key_size opts (some plain_path) (some sealed_path) m).0
      ≡ some (ok tt)
    → fs.file
        (mc_encrypt_file H fuel
          (some key)
          key_size
          opts
          (some plain_path)
          (some sealed_path)
          m).1.system
        (fs.entry sealed_path)
      ≡ fs.file later.system (fs.entry sealed_path)
    → (mc_decrypt_file H fuel (some key) key_size (some sealed_path) (some copy_path) later).0
      ≡ some (ok tt)
    → fs.file
        (mc_decrypt_file H fuel
          (some key)
          key_size
          (some sealed_path)
          (some copy_path)
          later).1.system
        (fs.entry copy_path)
      ≡ some (record { mode = 384; contents = f.contents })
mc_decrypt_file-mc_encrypt_file H sound inverts fs fuel key key_size opts plain_path sealed_path
      copy_path m later f apart apart' there e kept e' =
    let (file, size, v, ran, stored) =
      mc_encrypt_file-Encrypts H fs fuel (some key) key_size opts plain_path sealed_path m f apart
        there e in
    let (plain, n, v', ran', _, copied) =
      mc_decrypt_file-Decrypts H fs fuel (some key) key_size sealed_path copy_path later
        (record { mode = 420; contents = slice file 0 size }) apart' (sym kept ∙ stored) e' in
    copied
    ∙ ap (λ t. some (record { mode = 384; contents = t }))
        (reopened H.services sound inverts key key_size (effective opts) f.contents file size v v'
          plain n ran ran')

-- Let the services be sound, the system keep the promises of its manuals, and the input path lead to a
-- regular file, of bytes. If mc_decrypt_file returns MC_OK, then the output path is a file of mode 0600
-- that holds the plaintext of a verified container: the input's header and chunk table were checked,
-- every chunk's tag was accepted under the key, and the plaintext is their chunks in order. The
-- output path is not one that mkstemp makes of its template.
pub mc_decrypt_file-Verified :
    (H : Host) (sound : IsSound H.services) (fs : FileSystem H.posix) (fuel : ℕ) (key : Bytes)
    (key_size : ℕ) (in_path out_path : Bytes) (m : State H) (f : File)
    → Apart H.posix fs out_path
    → fs.file m.system (fs.entry in_path) ≡ some f
    → All IsByte f.contents
    → (mc_decrypt_file H fuel (some key) key_size (some in_path) (some out_path) m).0 ≡ some (ok tt)
    → (plain : Bytes) × (n : ℕ) × Verified H.services
        (slice key 0 key_size)
        f.contents
        (length f.contents)
        plain
        n
      × (fs.file
            (mc_decrypt_file H fuel (some key) key_size (some in_path) (some out_path) m).1.system
            (fs.entry out_path)
          ≡ some (record { mode = 384; contents = slice plain 0 n }))
mc_decrypt_file-Verified H sound fs fuel key key_size in_path out_path m f apart there bytes e =
    let (plain, n, v, ran, low, stored) =
      mc_decrypt_file-Decrypts H fs fuel (some key) key_size in_path out_path m f apart there e in
    let given = data_of-given H.services key key_size f.contents v plain n ran in
    (
      plain,
      n,
      decrypt_buffer-Verified H.services sound key key_size f.contents (length f.contents) [] 0 v
          plain n bytes (omega arith) (omega (arith, low)) given,
      stored,
    )
