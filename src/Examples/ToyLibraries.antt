-- ===== src/Examples/ToyLibraries.antt =====
-- Libraries that the examples run on: nothing fails, the cipher hides nothing, every tag is zeros and
-- accepted, and deflate keeps a block of zeros as one byte.
use model_crypt.Common.{
  ℕ, ◌≡◌, refl, sym, ◌∙◌, ap, Option, some, none, true, [], ◌∷◌, arith, length, length-replicate,
  All, ltb, if◌then◌else◌, Bool-cases, inl, inr,
}
use model_crypt.Common.Buffer.{Bytes, IsByte, zeros}
use model_crypt.Platform.Libraries.{
  Call, init_cipher, set_iv_length, init_key, update_aad, update, final, get_tag, set_tag, ZlibCode,
  z_ok, z_stream_end, Libraries, IsDocumented, Reverses, Tagged,
}
use model_crypt.Examples.Platform.{
  all_bytes, all_bytes-IsByte, all_zeros, all_zeros-zeros, zeros-IsByte,
}

-- What a call on a context writes.
unfoldable pub toy_evp : Call → Option Bytes
toy_evp (init_cipher encrypt) = some []
toy_evp (set_iv_length n) = some []
toy_evp (init_key key nonce encrypt) = some []
toy_evp (update_aad aad) = some []
toy_evp (update text) = if all_bytes text then some text else none
toy_evp final = some []
toy_evp (get_tag n) = some (zeros n)
toy_evp (set_tag tag) = some []

unfoldable pub toy_deflate : Bytes → ZlibCode × Bytes
toy_deflate plain = if all_zeros plain then (z_stream_end, 0 ∷ []) else (z_ok, [])

abbrev pub toy_libraries : Libraries
toy_libraries = record {
  World = Unit;
  new_block = λ n w. (true, w);
  ctx_new = λ w. (true, w);
  evp = λ history c w. (toy_evp c, w);
  rand_bytes = λ n w. (some (zeros n), w);
  pbe_scrypt = λ pass salt n r p max_mem key_size w. (some (zeros key_size), w);
  deflate_init = λ w. (true, w);
  inflate_init = λ w. (true, w);
  deflate = λ plain room w. (toy_deflate plain, w);
  inflate = λ stream room w. ((z_stream_end, zeros room, 0), w);
}

toy_update :
    (text out : Bytes) → toy_evp (update text) ≡ some out → (text ≡ out) × (all_bytes text ≡ true)
unfolding toy_evp
toy_update text out e = elim (Bool-cases (all_bytes text)) [
  | inl fine ↦ let same = rw fine at e in ((cc), fine)
  | inr bad ↦ let no_way = rw bad at e in cc
]

zeros-shape :
    (n : ℕ) (out : Bytes)
    → ◌≡◌ {A = Option Bytes} (some (zeros n)) (some out)
    → (length out ≡ n) × All IsByte out
zeros-shape n out e =
    let same : zeros n ≡ out = cc in rw (← same) (length-replicate n 0, zeros-IsByte n)

toy_deflate-end :
    (plain out : Bytes)
    → toy_deflate plain ≡ (z_stream_end, out)
    → (0 ∷ [] ≡ out) × (zeros (length plain) ≡ plain)
unfolding toy_deflate
toy_deflate-end plain out e = elim (Bool-cases (all_zeros plain)) [
  | inl blank ↦ let same = rw blank at e in (ap (λ t. t.1) same, all_zeros-zeros plain blank)
  | inr other ↦ let no_way = rw other at e in cc
]

pub toy-IsDocumented : IsDocumented toy_libraries
unfolding toy_evp
toy-IsDocumented = record {
  update_shape = λ history text w out e.
      let (same, fine) = toy_update text out e in rw (← same) (refl, all_bytes-IsByte text fine);
  tag_shape = λ history n w out e. zeros-shape n out e;
  rand_shape = λ n w out e. zeros-shape n out e;
  deflate_shape =
      λ plain room w out e. let (one, _) = toy_deflate-end plain out e in rw (← one) (omega arith);
}

toy_decrypts :
    (key nonce aad plain text tag : Bytes)
    → Tagged toy_libraries key nonce aad plain text tag
    → length plain ≡ length text
    → ltb 0 (length text) ≡ true
    → toy_evp (update text) ≡ some plain
toy_decrypts key nonce aad plain text tag t long some_bytes =
    let ran = t.encrypted (rw long some_bytes) in
    let (same, _) = toy_update plain text ran in
    ap (λ t. toy_evp (update t)) (sym same) ∙ ran ∙ ap some (sym same)

pub toy-Reverses : Reverses toy_libraries
unfolding toy_evp
toy-Reverses = record {
  new_block_succeeds = λ n v. refl;
  ctx_new_succeeds = λ v. refl;
  inflate_init_succeeds = λ v. refl;
  scrypt_again = λ pass salt n r p max_mem key_size w out e v. e;
  accepts_cipher = λ v. ([], refl);
  accepts_iv_length = λ v. ([], refl);
  accepts_key = λ key nonce v. ([], refl);
  accepts_aad = λ key nonce aad short v. ([], refl);
  accepts_tag = λ key nonce aad text tag long v. ([], refl);
  decrypts = λ key nonce aad plain text tag t long some_bytes v.
      toy_decrypts key nonce aad plain text tag t long some_bytes;
  authenticates = λ key nonce aad plain text tag t long v. ([], refl);
  inflates = λ plain room w stream e v.
      let (_, blank) = toy_deflate-end plain stream e in ap (λ t. (z_stream_end, t, 0)) blank;
}
