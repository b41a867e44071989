-- ===== src/Examples/Platform.antt =====
-- A platform that the examples run on: it always finds memory, draws zeros, derives a key of zeros,
-- seals without hiding anything, and compresses a block of zeros to one byte.
use model_crypt.Common.{
  ℕ, zero, suc, ◌<◌, ◌≡◌, refl, sym, ap, Bool, true, false, ◌&&◌, [], ◌∷◌, arith, length,
  length-replicate, All, ltb, ◌==◌, if◌then◌else◌, Bool-cases, inl, inr, ltb→lt, ==_iff,
}
use model_crypt.Common.Buffer.{Bytes, IsByte, zeros}
use model_crypt.Common.Result.{Result, ok, err, crypto, ok_injective}
use model_crypt.Services.{Services, IsSound, Inverts}
use model_crypt.Container.Returns.{Provides}

unfoldable pub all_bytes : Bytes → Bool
all_bytes [] = true
all_bytes (b ∷ bs) = ltb b 256 && all_bytes bs

unfoldable pub all_zeros : Bytes → Bool
all_zeros [] = true
all_zeros (b ∷ bs) = b == 0 && all_zeros bs

unfoldable pub toy_seal : Bytes → Result (Bytes × Bytes)
toy_seal plain = if all_bytes plain then ok (plain, zeros 16) else err crypto

unfoldable pub toy_compress : Bytes → Bytes × Bool
toy_compress plain =
    if ltb 1 (length plain) && all_zeros plain then (0 ∷ [], true) else (plain, false)

abbrev pub toy : Services
toy = record {
  World = Unit;
  reset = λ n w. (true, w);
  fill = λ n w. (ok (zeros n), w);
  derive_key = λ key salt log_n r p w. (ok (zeros 32), w);
  seal = λ key nonce aad plain w. (toy_seal plain, w);
  open_sealed = λ key nonce aad ct tag w. (ok ct, w);
  compress_chunk = λ plain capacity w. (ok (toy_compress plain), w);
  decompress_chunk = λ stream size w. (ok (zeros size), w);
}

pub zeros-IsByte : (n : ℕ) → All IsByte (zeros n)
zeros-IsByte zero = tt
zeros-IsByte (suc n) = (omega arith, zeros-IsByte n)

pub all_bytes-IsByte : (bs : Bytes) → all_bytes bs ≡ true → All IsByte bs
unfolding all_bytes
all_bytes-IsByte [] e = tt
all_bytes-IsByte (b ∷ bs) e = elim (Bool-cases (ltb b 256)) [
  | inl small ↦ (ltb→lt b 256 small, all_bytes-IsByte bs (rw small at e))
  | inr big ↦ let bad = rw big at e in cc
]

pub all_zeros-zeros : (bs : Bytes) → all_zeros bs ≡ true → zeros (length bs) ≡ bs
unfolding all_zeros
all_zeros-zeros [] e = refl
all_zeros-zeros (b ∷ bs) e = elim (Bool-cases (b == 0)) [
  | inl blank ↦
      rw (all_zeros-zeros bs (rw blank at e)) (ap (λ t. t ∷ bs) (sym ((==_iff b 0).0 blank)))
  | inr other ↦ let no = rw other at e in cc
]

toy_seal-ok :
    (plain ct tag : Bytes)
    → toy_seal plain ≡ ok (ct, tag)
    → (all_bytes plain ≡ true) × (plain ≡ ct) × (zeros 16 ≡ tag)
unfolding toy_seal
toy_seal-ok plain ct tag e = elim (Bool-cases (all_bytes plain)) [
  | inl fine ↦
      let same = ok_injective (rw fine at e) in (fine, ap (λ t. t.0) same, ap (λ t. t.1) same)
  | inr bad ↦ let no = rw bad at e in cc
]

toy_compress-ok :
    (plain stream : Bytes)
    → toy_compress plain ≡ (stream, true)
    → (1 < length plain) × (0 ∷ [] ≡ stream) × (zeros (length plain) ≡ plain)
unfolding toy_compress
toy_compress-ok plain stream e = elim (Bool-cases (ltb 1 (length plain))) [
  | inr short ↦ let no = rw short at e in cc
  | inl long ↦ elim (Bool-cases (all_zeros plain)) [
    | inr other ↦ let no = rw (long, other) at e in cc
    | inl blank ↦
        let same = rw (long, blank) at e in
        (ltb→lt 1 (length plain) long, ap (λ t. t.0) same, all_zeros-zeros plain blank)
  ]
]

pub toy-IsSound : IsSound toy
toy-IsSound = record {
  fill_bytes = λ n w bs e. rw (← ok_injective e) (length-replicate n 0, zeros-IsByte n);
  seal_shape = λ key nonce aad plain w ct tag e.
      let (fine, same, blank) = toy_seal-ok plain ct tag e in
      rw (← same, ← blank) (refl, all_bytes-IsByte plain fine, refl, zeros-IsByte 16);
  compress_shape = λ plain capacity w stream e.
      let (long, one, _) = toy_compress-ok plain stream (ok_injective e) in
      rw (← one) (long, omega arith);
  open_length = λ key nonce aad ct tag w plain e. ap length (sym (ok_injective e));
  decompress_length = λ stream size w plain e. rw (← ok_injective e) (length-replicate size 0);
}

pub toy-Inverts : Inverts toy
toy-Inverts = record {
  reset_succeeds = λ n w. refl;
  derive_again = λ key salt log_n r p w derived e v. e;
  open-seal = λ key nonce aad plain w ct tag e v. ap ok (sym (toy_seal-ok plain ct tag e).1);
  decompress-compress =
      λ plain capacity w stream e v. ap ok (toy_compress-ok plain stream (ok_injective e)).2;
}

IsByte-all_bytes : (bs : Bytes) → All IsByte bs → all_bytes bs ≡ true
unfolding all_bytes
IsByte-all_bytes [] h = refl
IsByte-all_bytes (b ∷ bs) (small, h) =
    let one : ltb b 256 ≡ true = ground arith in rw (one, IsByte-all_bytes bs h) refl

toy_compress-IsByte : (plain : Bytes) → All IsByte plain → All IsByte (toy_compress plain).0
unfolding toy_compress
toy_compress-IsByte plain h = elim (Bool-cases (ltb 1 (length plain) && all_zeros plain)) [
  | inl blank ↦ rw blank (omega arith, tt)
  | inr other ↦ rw other h
]

pub toy-Provides : Provides toy
unfolding toy_seal
toy-Provides = record {
  fills = λ n w. (zeros n, refl);
  derives = λ key salt opts w long salted permitted. (zeros 32, refl);
  seals =
      λ key nonce aad plain w short low h. ((plain, zeros 16), rw (IsByte-all_bytes plain h) refl);
  compresses = λ plain capacity w some_bytes low short h.
      ((toy_compress plain).0, (toy_compress plain).1, refl, toy_compress-IsByte plain h);
}
