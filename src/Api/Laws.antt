-- ===== src/Api/Laws.antt =====
-- What the out-cells hold after a call of src/api/c_api.cc.
use model_crypt.Common.{ℕ, ◌≤◌, ◌≡◌, refl, sym, ◌∙◌, ap, Option, some, [], ◌∷◌, length}
use model_crypt.Common.Buffer.{Bytes, slice}
use model_crypt.Common.Result.{Result, ok, err, ok_injective}
use model_crypt.Services.{Services, IsSound, Inverts}
use model_crypt.Encrypt.Options.{EncryptOptions, memory_at}
use model_crypt.Encrypt.Buffer.{encrypt_buffer}
use model_crypt.Decrypt.Buffer.{decrypt_buffer}
use model_crypt.Container.RoundTrip.{decrypt_buffer-encrypt_buffer}
use model_crypt.Container.Encrypted.{input_of}
use model_crypt.Api.{
  Cells, release, hand_off, finish, effective, mc_encrypt_buffer, mc_decrypt_buffer,
}

pub finish-ok :
    {W : Type 0} (cells : Cells) (r : Result (Bytes × ℕ) × W) (bs : Bytes) (n : ℕ)
    → r.0 ≡ ok (bs, n)
    → ((finish cells r).0 ≡ ok tt)
      × ((finish cells r).1 ≡ record { out = release bs; out_size = n })
unfolding finish hand_off
finish-ok cells (ok (bs', n'), w) bs n h =
    let same = ok_injective h in (refl, ap (λ q. record { out = release q.0; out_size = q.1 }) same)
finish-ok cells (err x, w) bs n h = cc

-- Where a call that succeeded found its buffer.
finish-eq_ok :
    {W : Type 0} (cells : Cells) (r : Result (Bytes × ℕ) × W)
    → (finish cells r).0 ≡ ok tt
    → (bs : Bytes) × (n : ℕ) × (r.0 ≡ ok (bs, n))
      × ((finish cells r).1 ≡ record { out = release bs; out_size = n })
unfolding finish hand_off
finish-eq_ok cells (ok (bs, n), w) h = (bs, n, refl, refl)
finish-eq_ok cells (err x, w) h = cc

pub memory_at-release : (bs : Bytes) → memory_at (release bs) ≡ bs
memory_at-release [] = refl
memory_at-release (b ∷ bs) = refl

-- Let the platform's calls be sound, and let the reading half of them undo the writing half and find
-- memory. If mc_encrypt_buffer returns MC_OK for `in_size` bytes, under options or their defaults,
-- then mc_decrypt_buffer of the bytes it left at `*out`, by the count it left at `*out_size`, with
-- the same key and whatever the platform has become since, returns MC_OK and leaves those `in_size`
-- bytes and their count in its out-cells; an empty plaintext is handed over as a null pointer.
pub mc_decrypt_buffer-mc_encrypt_buffer :
    (S : Services) (sound : IsSound S) (inverts : Inverts S) (key : Bytes) (key_size : ℕ)
    (opts : Option EncryptOptions) (input : Option Bytes) (in_size : ℕ) (before after : Cells)
    (w : S.World)
    → in_size ≤ length (memory_at input)
    → (mc_encrypt_buffer S (some key) key_size opts input in_size (some tt) (some tt) before w).0
      ≡ ok tt
    → (mc_encrypt_buffer S (some key) key_size opts input in_size (some tt) (some tt) before w).1
      ≡ after
    → (cells : Cells) (v : S.World)
    → ((mc_decrypt_buffer S
          (some key)
          key_size
          (some (slice (memory_at after.out) 0 after.out_size))
          after.out_size
          (some tt)
          (some tt)
          cells
          v).0
        ≡ ok tt)
      × ((mc_decrypt_buffer S
            (some key)
            key_size
            (some (slice (memory_at after.out) 0 after.out_size))
            after.out_size
            (some tt)
            (some tt)
            cells
            v).1
          ≡ record { out = release (input_of input in_size); out_size = in_size })
unfolding mc_encrypt_buffer mc_decrypt_buffer
mc_decrypt_buffer-mc_encrypt_buffer S sound inverts key key_size opts input in_size before after w
      there e left cells v =
    let (file, size, written, stored) =
      finish-eq_ok before
        (encrypt_buffer S (some key) key_size (effective opts) input in_size (some []) (some 0) w)
        e in
    let held : record { out = release file; out_size = size } ≡ after = sym stored ∙ left in
    let read =
      decrypt_buffer-encrypt_buffer S sound inverts key key_size (effective opts) input in_size
        (some []) (some 0) w file size there written [] 0 v in
    rw (← held, memory_at-release file)
      (finish-ok cells
        (decrypt_buffer S (some key) key_size (some (slice file 0 size)) size (some []) (some 0) v)
        (input_of input in_size) in_size read)
