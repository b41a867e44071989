-- ===== src/Platform/Implementation.antt =====
-- The operations that src/crypt/encrypt.cc and decrypt.cc call, as aead.cc, compress.cc, kdf.cc,
-- random.cc and secure_buffer.cc implement them. The callers pass no null pointer but for an empty
-- block, of which nothing is read.
use model_crypt.Common.{
  ◌≡◌, sym, ◌∙◌, ap, some, false, [], ltb, not-ltb→le, arith, length, All, Bool-cases, inl, inr,
}
use model_crypt.Common.Buffer.{Bytes, IsByte}
use model_crypt.Services.{Services, IsSound, Inverts}
use model_crypt.Platform.Libraries.{Libraries, IsDocumented, Reverses}
use model_crypt.Platform.RandomBytes.{fill, fill_shape}
use model_crypt.Platform.Kdf.{reset, reset_succeeds, derive_key, derive_again}
use model_crypt.Platform.Compression.{
  compress_chunk, decompress_chunk, compress_chunk-smaller, decompress_chunk-length,
  decompress-compress,
}
use model_crypt.Platform.Aead.{seal, open_sealed}
use model_crypt.Platform.Aead.Laws.{Sealed, Opened, seal-Sealed, open_sealed-Opened, open-seal}

abbrev pub platform : Libraries → Services
platform L = record {
  World = L.World;
  reset = reset L;
  fill = λ n. fill L (some []) n;
  derive_key = λ key salt log_n r p.
      derive_key L (some key) (length key) (some salt) (length salt) log_n r p (some tt);
  seal = λ key nonce aad plain.
      seal L (some key) (some nonce) (some aad) (length aad) (some plain) (length plain) (some tt)
        (some tt);
  open_sealed = λ key nonce aad ct tag.
      open_sealed L (some key) (some nonce) (some aad) (length aad) (some ct) (length ct) (some tag)
        (some tt);
  compress_chunk = λ plain capacity.
      compress_chunk L (some plain) (length plain) (some tt) capacity (some tt) (some tt);
  decompress_chunk = λ stream size. decompress_chunk L (some stream) (length stream) (some tt) size;
}

module _ (L : Libraries) (documented : IsDocumented L) where
  empty_length : (a : Bytes) → ltb 0 (length a) ≡ false → length a ≡ 0
  empty_length a e = omega (arith, not-ltb→le 0 (length a) e)

  text_shape :
      (key nonce aad plain text tag : Bytes)
      → Sealed L key nonce aad plain text tag
      → (length text ≡ length plain) × All IsByte text
  text_shape key nonce aad plain text tag s = elim (Bool-cases (ltb 0 (length plain))) [
    | inl some_bytes ↦
        documented.update_shape _ plain s.tagged.at_update text (s.tagged.encrypted some_bytes)
    | inr none_there ↦
        let same = s.empty none_there in rw (← same) (sym (empty_length plain none_there), tt)
  ]

  tag-shape :
      (key nonce aad plain text tag : Bytes)
      → Sealed L key nonce aad plain text tag
      → (length tag ≡ 16) × All IsByte tag
  tag-shape key nonce aad plain text tag s =
      documented.tag_shape _ 16 s.tagged.at_tag tag s.tagged.tagged

  Opened-length :
      (key nonce aad text tag plain : Bytes)
      → Opened L key nonce aad text tag plain
      → length plain ≡ length text
  Opened-length key nonce aad text tag plain o = elim (Bool-cases (ltb 0 (length text))) [
    | inl some_bytes ↦ (documented.update_shape _ text o.at_update plain (o.decrypted some_bytes)).0
    | inr none_there ↦ ap length (sym (o.empty none_there)) ∙ sym (empty_length text none_there)
  ]

  -- Over libraries that write what their manuals say, the repository's own sources have the shapes
  -- that EncryptBuffer and DecryptBuffer rely on: random draws and tags of the size asked for,
  -- ciphertext and plaintext of equal length, a kept stream that is smaller than its chunk and not
  -- empty, and an inflated chunk of exactly the size expected.
  pub platform-IsSound : IsSound (platform L)
  platform-IsSound = record {
    fill_bytes = λ n w bs e. fill_shape L documented (some []) n w bs e;
    seal_shape = λ key nonce aad plain w ct tag e.
        let s = seal-Sealed L key nonce aad plain w ct tag e in
        let t = text_shape key nonce aad plain ct tag s in
        let g = tag-shape key nonce aad plain ct tag s in (t.0, t.1, g.0, g.1);
    compress_shape = λ plain capacity w stream e.
        let (v, same, smaller, _) = compress_chunk-smaller L plain capacity w stream e in
        (smaller, documented.deflate_shape plain capacity v stream same);
    open_length = λ key nonce aad ct tag w plain e.
        Opened-length key nonce aad ct _ plain
          (open_sealed-Opened L key nonce aad ct tag w plain e);
    decompress_length = λ stream size w plain e. decompress_chunk-length L stream size w plain e;
  }

  -- Over libraries that moreover find their resources and undo what they did, the reading half of
  -- the repository's own sources undoes the writing half: the key is derived again, what was sealed
  -- opens to its plaintext, and a kept stream inflates to its chunk.
  pub platform-Inverts : Reverses L → Inverts (platform L)
  platform-Inverts r = record {
    reset_succeeds = λ n w. reset_succeeds L r n w;
    derive_again = λ key salt log_n rounds p w derived e v.
        derive_again L r (some key) (some salt) (length key) (length salt) log_n rounds p (some tt)
          w derived e v;
    open-seal = λ key nonce aad plain w ct tag e v.
        let s = seal-Sealed L key nonce aad plain w ct tag e in
        open-seal L key nonce aad r plain w ct tag (tag-shape key nonce aad plain ct tag s).0
          (text_shape key nonce aad plain ct tag s).0 s v;
    decompress-compress =
        λ plain capacity w stream e v. decompress-compress L r plain capacity w stream e v;
  }
