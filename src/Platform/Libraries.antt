-- ===== src/Platform/Libraries.antt =====
-- The calls of OpenSSL, zlib and the allocator that src/crypt/aead.cc, compress.cc, kdf.cc and
-- random.cc make, over an unknown state of the process, and what their manuals promise of them.
use model_crypt.Common.{
  ℕ, ◌<◌, ◌^◌, ◌≡◌, Option, some, Bool, true, false, List, [], ◌∷◌, length, All, ltb, if◌then◌else◌,
}
use model_crypt.Common.Buffer.{Bytes, IsByte}

-- A call on an EVP_CIPHER_CTX of EVP_aes_256_gcm(): EVP_CipherInit_ex with the cipher, or with key
-- and nonce; EVP_CIPHER_CTX_ctrl for the nonce's length, to read the tag, or to install it;
-- EVP_CipherUpdate on associated data or on text; EVP_CipherFinal_ex. A `Bool` says encrypt.
pub data Call : Type 0 where
  init_cipher : Bool → Call
  set_iv_length : ℕ → Call
  init_key : Bytes → Bytes → Bool → Call
  update_aad : Bytes → Call
  update : Bytes → Call
  final : Call
  get_tag : ℕ → Call
  set_tag : Bytes → Call

-- Z_OK, Z_STREAM_END, Z_BUF_ERROR, and the other return codes.
pub data ZlibCode : Type 0 where
  z_ok z_stream_end z_buf_error z_other : ZlibCode

pub record Libraries : Type 1 where
  pub World : Type 0
  -- new (std::nothrow) uint8_t[n](): whether it returned a block.
  pub new_block : ℕ → World → Bool × World
  -- EVP_CIPHER_CTX_new: whether it returned a context.
  pub ctx_new : World → Bool × World
  -- A call on a context, after the calls that it has had, the latest first: `none` unless it returns
  -- 1, and else the bytes that it writes.
  pub evp : List Call → Call → World → Option Bytes × World
  -- RAND_bytes, of n bytes: `none` unless it returns 1.
  pub rand_bytes : ℕ → World → Option Bytes × World
  -- EVP_PBE_scrypt(pass, salt, N, r, p, maxmem, keylen): `none` unless it returns 1.
  pub pbe_scrypt : (pass salt : Bytes) (n r p max_mem key_size : ℕ) → World → Option Bytes × World
  -- deflateInit and inflateInit: whether they return Z_OK.
  pub deflate_init : World → Bool × World
  pub inflate_init : World → Bool × World
  -- deflate(Z_FINISH), once, of an input into so much room: the code and what it produced.
  pub deflate : Bytes → ℕ → World → (ZlibCode × Bytes) × World
  -- inflate(Z_FINISH), once: the code, what it produced, and how much input is left over.
  pub inflate : Bytes → ℕ → World → (ZlibCode × Bytes × ℕ) × World

-- The context of a message, once its key, nonce and associated data are in.
abbrev pub prepared : Bool → Bytes → Bytes → Bytes → List Call
prepared encrypt key nonce aad =
    let keyed = init_key key nonce encrypt ∷ set_iv_length 12 ∷ init_cipher encrypt ∷ [] in
    if ltb 0 (length aad) then update_aad aad ∷ keyed else keyed

-- The same, once its text is in.
abbrev pub processed : Bool → Bytes → Bytes → Bytes → Bytes → List Call
processed encrypt key nonce aad text =
    if ltb 0 (length text)
    then update text ∷ prepared encrypt key nonce aad
    else prepared encrypt key nonce aad

-- The shape of what a successful call writes.
pub record IsDocumented (L : Libraries) : Type 0 where
  -- GCM is a stream mode.
  pub update_shape :
      (history : List Call) (text : Bytes) (w : L.World) (out : Bytes)
      → (L.evp history (update text) w).0 ≡ some out
      → (length out ≡ length text) × All IsByte out
  pub tag_shape :
      (history : List Call) (n : ℕ) (w : L.World) (out : Bytes)
      → (L.evp history (get_tag n) w).0 ≡ some out
      → (length out ≡ n) × All IsByte out
  pub rand_shape :
      (n : ℕ) (w : L.World) (out : Bytes)
      → (L.rand_bytes n w).0 ≡ some out
      → (length out ≡ n) × All IsByte out
  -- A zlib stream has a header.
  pub deflate_shape :
      (plain : Bytes) (room : ℕ) (w : L.World) (out : Bytes)
      → (L.deflate plain room w).0 ≡ (z_stream_end, out)
      → 0 < length out

-- The call returns 1, whatever the state of the process.
abbrev pub Accepts : (L : Libraries) → List Call → Call → Type 0
Accepts L history c = (v : L.World) → (out : Bytes) × ((L.evp history c v).0 ≡ some out)

-- An encryption of `plain` that produced `text` and `tag`.
pub record Tagged (L : Libraries) (key nonce aad plain text tag : Bytes) : Type 0 where
  pub at_update : L.World
  pub at_tag : L.World
  pub encrypted :
      ltb 0 (length plain) ≡ true
      → (L.evp (prepared true key nonce aad) (update plain) at_update).0 ≡ some text
  pub tagged : (L.evp (final ∷ processed true key nonce aad plain) (get_tag 16) at_tag).0 ≡ some tag

-- A process that does not run out of resources, and libraries that undo what they did.
pub record Reverses (L : Libraries) : Type 0 where
  pub new_block_succeeds : (n : ℕ) (v : L.World) → (L.new_block n v).0 ≡ true
  pub ctx_new_succeeds : (v : L.World) → (L.ctx_new v).0 ≡ true
  pub inflate_init_succeeds : (v : L.World) → (L.inflate_init v).0 ≡ true
  pub scrypt_again :
      (pass salt : Bytes) (n r p max_mem key_size : ℕ) (w : L.World) (out : Bytes)
      → (L.pbe_scrypt pass salt n r p max_mem key_size w).0 ≡ some out
      → (v : L.World) → (L.pbe_scrypt pass salt n r p max_mem key_size v).0 ≡ some out
  -- Setting up a decryption succeeds.
  pub accepts_cipher : Accepts L [] (init_cipher false)
  pub accepts_iv_length : Accepts L (init_cipher false ∷ []) (set_iv_length 12)
  pub accepts_key :
      (key nonce : Bytes)
      → Accepts L (set_iv_length 12 ∷ init_cipher false ∷ []) (init_key key nonce false)
  pub accepts_aad :
      (key nonce aad : Bytes)
      → length aad < 2 ^ 31
      → Accepts L
          (init_key key nonce false ∷ set_iv_length 12 ∷ init_cipher false ∷ [])
          (update_aad aad)
  -- A tag of 16 bytes, for a decryption that has had its text.
  pub accepts_tag :
      (key nonce aad text tag : Bytes)
      → length tag ≡ 16
      → Accepts L (processed false key nonce aad text) (set_tag tag)
  -- GCM under the same key, nonce and associated data gives the text back, and finds its tag right.
  pub decrypts :
      (key nonce aad plain text tag : Bytes)
      → Tagged L key nonce aad plain text tag
      → length plain ≡ length text
      → ltb 0 (length text) ≡ true
      → (v : L.World) → (L.evp (prepared false key nonce aad) (update text) v).0 ≡ some plain
  pub authenticates :
      (key nonce aad plain text tag : Bytes)
      → Tagged L key nonce aad plain text tag
      → length plain ≡ length text
      → Accepts L (set_tag tag ∷ processed false key nonce aad text) final
  -- A complete stream inflates into exactly the room that its input took.
  pub inflates :
      (plain : Bytes) (room : ℕ) (w : L.World) (stream : Bytes)
      → (L.deflate plain room w).0 ≡ (z_stream_end, stream)
      → (v : L.World) → (L.inflate stream (length plain) v).0 ≡ (z_stream_end, plain, 0)
