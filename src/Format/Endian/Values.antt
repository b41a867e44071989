-- ===== src/Format/Endian/Values.antt =====
-- What the readers return, in plain arithmetic, and that readers and writers invert one another.
use model_crypt.Common.{
  ℕ, ◌+◌, ◌*◌, ◌^◌, ◌≤◌, ◌<◌, ◌≡◌, refl, sym, ap, ◌∙◌, [], ◌∷◌, bit_or, arith, All, length,
}
use model_crypt.Common.Bits.{bit_or_disjoint}
use model_crypt.Common.Buffer.{
  Bytes, IsByte, byte_at, slice, byte_at-IsByte, bytes_at, slice-bytes_at,
}
use model_crypt.Format.Endian.{
  u16_bytes, u32_bytes, u64_bytes, read_u8, read_u16, read_u32, read_u64, shl,
}
use mathlib.Core.Path.{ap₂}
use native.Mathlib.Nat.{mod-eq_of_lt}

-- The number that little-endian bytes stand for.
abbrev pub le_value : Bytes → ℕ
le_value [] = 0
le_value (b ∷ bs) = b + 256 * le_value bs

-- `x | b << k` on w bits, where nothing overlaps and nothing is lost.
or_byte : (k w x b : ℕ) → x < 2 ^ k → b * 2 ^ k < 2 ^ w → bit_or x (shl w b k) ≡ x + b * 2 ^ k
or_byte k w x b hx hb = rw (mod-eq_of_lt hb) (bit_or_disjoint k x b hx)

u16_value : (a b : ℕ) → a < 256 → b < 256 → bit_or a (shl 16 b 8) ≡ a + b * 2 ^ 8
u16_value a b ha hb = or_byte 8 16 a b (omega arith) (omega arith)

u32_value :
    (a b c d : ℕ)
    → a < 256
    → b < 256
    → c < 256
    → d < 256
    → bit_or (bit_or (bit_or a (shl 32 b 8)) (shl 32 c 16)) (shl 32 d 24)
      ≡ a + b * 2 ^ 8 + c * 2 ^ 16 + d * 2 ^ 24
u32_value a b c d ha hb hc hd = rw (or_byte 8 32 a b (omega arith) (omega arith)) (
    rw (or_byte 16 32 (a + b * 2 ^ 8) c (omega arith) (omega arith))
      (or_byte 24 32 (a + b * 2 ^ 8 + c * 2 ^ 16) d (omega arith) (omega arith)))

-- The eight rounds of ReadU64.
u64_value :
    (a b c d e f g h : ℕ)
    → All IsByte (a ∷ b ∷ c ∷ d ∷ e ∷ f ∷ g ∷ h ∷ [])
    → bit_or
        (bit_or
          (bit_or
            (bit_or
              (bit_or
                (bit_or (bit_or (bit_or 0 (shl 64 a 0)) (shl 64 b 8)) (shl 64 c 16))
                (shl 64 d 24))
              (shl 64 e 32))
            (shl 64 f 40))
          (shl 64 g 48))
        (shl 64 h 56)
      ≡ a + b * 2 ^ 8 + c * 2 ^ 16 + d * 2 ^ 24 + e * 2 ^ 32 + f * 2 ^ 40 + g * 2 ^ 48 + h * 2 ^ 56
u64_value a b c d e f g h bytes =
    let s0 : bit_or 0 (shl 64 a 0) ≡ a =
      or_byte 0 64 0 a (omega arith) (omega arith) ∙ omega arith in
    let s1 = or_byte 8 64 (a) b (omega arith) (omega arith) in
    let s2 = or_byte 16 64 (a + b * 2 ^ 8) c (omega arith) (omega arith) in
    let s3 = or_byte 24 64 (a + b * 2 ^ 8 + c * 2 ^ 16) d (omega arith) (omega arith) in
    let s4 =
      or_byte 32 64 (a + b * 2 ^ 8 + c * 2 ^ 16 + d * 2 ^ 24) e (omega arith) (omega arith) in
    let s5 =
      or_byte 40 64 (a + b * 2 ^ 8 + c * 2 ^ 16 + d * 2 ^ 24 + e * 2 ^ 32) f (omega arith)
        (omega arith) in
    let s6 =
      or_byte 48 64 (a + b * 2 ^ 8 + c * 2 ^ 16 + d * 2 ^ 24 + e * 2 ^ 32 + f * 2 ^ 40) g
        (omega arith) (omega arith) in
    let s7 =
      or_byte 56 64 (a + b * 2 ^ 8 + c * 2 ^ 16 + d * 2 ^ 24 + e * 2 ^ 32 + f * 2 ^ 40 + g * 2 ^ 48)
        h (omega arith) (omega arith) in
    rw (s0, s1, s2, s3, s4, s5, s6) s7

cons_eq : {a b : ℕ} {xs ys : Bytes} → a ≡ b → xs ≡ ys → a ∷ xs ≡ b ∷ ys
cons_eq p q = ap₂ ◌∷◌ p q

module _ (bs : Bytes) (bytes : All IsByte bs) (offset : ℕ) where
  byte : (i : ℕ) → byte_at bs (offset + i) < 256
  byte i = byte_at-IsByte bs (offset + i) bytes

  pub read_u8_value : read_u8 bs offset ≡ le_value (bytes_at bs offset 0 1)
  unfolding read_u8
  read_u8_value = let e : offset + 0 ≡ offset = omega arith in rw e (omega arith)

  pub read_u16_value : read_u16 bs offset ≡ le_value (bytes_at bs offset 0 2)
  unfolding read_u16
  read_u16_value =
      let e : offset + 0 ≡ offset = omega arith in
      let first : byte_at bs offset < 256 = byte_at-IsByte bs offset bytes in
      rw e (u16_value _ _ first (byte 1) ∙ omega arith)

  pub read_u32_value : read_u32 bs offset ≡ le_value (bytes_at bs offset 0 4)
  unfolding read_u32
  read_u32_value =
      let e : offset + 0 ≡ offset = omega arith in
      let first : byte_at bs offset < 256 = byte_at-IsByte bs offset bytes in
      rw e (u32_value _ _ _ _ first (byte 1) (byte 2) (byte 3) ∙ omega arith)

  pub read_u64_value : read_u64 bs offset ≡ le_value (bytes_at bs offset 0 8)
  unfolding read_u64
  read_u64_value =
      u64_value _ _ _ _ _ _ _ _
        (byte 0, (byte 1, (byte 2, (byte 3, (byte 4, (byte 5, (byte 6, (byte 7, tt))))))))
      ∙ omega arith

  slice-bytes : (n : ℕ) → offset + n ≤ length bs → slice bs offset n ≡ bytes_at bs offset 0 n
  slice-bytes n h =
      let e : offset + 0 ≡ offset = omega arith in rw e at (slice-bytes_at bs offset 0 n (rw e h))

  -- Reading back what a writer stored, and writing back what was read.
  pub read_u8-slice :
      (v : ℕ)
      → v < 2 ^ 8
      → offset + 1 ≤ length bs
      → slice bs offset 1 ≡ v ∷ []
      → read_u8 bs offset ≡ v
  read_u8-slice v small fits e =
      read_u8_value ∙ ap le_value (sym (slice-bytes 1 fits) ∙ e) ∙ omega arith

  pub bytes-read_u8 : offset + 1 ≤ length bs → read_u8 bs offset ∷ [] ≡ slice bs offset 1
  bytes-read_u8 fits = rw (read_u8_value, slice-bytes 1 fits) (ground (arith, byte 0))

  pub read_u8-lt : read_u8 bs offset < 2 ^ 8
  read_u8-lt = rw read_u8_value (omega (arith, byte 0))

  -- Reading back what a writer stored, and writing back what was read.
  pub read_u16-slice :
      (v : ℕ)
      → v < 2 ^ 16
      → offset + 2 ≤ length bs
      → slice bs offset 2 ≡ u16_bytes v
      → read_u16 bs offset ≡ v
  read_u16-slice v small fits e =
      read_u16_value ∙ ap le_value (sym (slice-bytes 2 fits) ∙ e) ∙ omega arith

  pub bytes-read_u16 : offset + 2 ≤ length bs → u16_bytes (read_u16 bs offset) ≡ slice bs offset 2
  bytes-read_u16 fits =
      rw (read_u16_value, slice-bytes 2 fits)
        (cons_eq (omega (arith, byte 0, byte 1)) (cons_eq (omega (arith, byte 0, byte 1)) refl))

  pub read_u16-lt : read_u16 bs offset < 2 ^ 16
  read_u16-lt = rw read_u16_value (omega (arith, byte 0, byte 1))

  -- Reading back what a writer stored, and writing back what was read.
  pub read_u32-slice :
      (v : ℕ)
      → v < 2 ^ 32
      → offset + 4 ≤ length bs
      → slice bs offset 4 ≡ u32_bytes v
      → read_u32 bs offset ≡ v
  read_u32-slice v small fits e =
      read_u32_value ∙ ap le_value (sym (slice-bytes 4 fits) ∙ e) ∙ omega arith

  pub bytes-read_u32 : offset + 4 ≤ length bs → u32_bytes (read_u32 bs offset) ≡ slice bs offset 4
  bytes-read_u32 fits =
      rw (read_u32_value, slice-bytes 4 fits)
        (cons_eq (omega (arith, byte 0, byte 1, byte 2, byte 3)) (
          cons_eq (omega (arith, byte 0, byte 1, byte 2, byte 3)) (
            cons_eq (omega (arith, byte 0, byte 1, byte 2, byte 3))
              (cons_eq (omega (arith, byte 0, byte 1, byte 2, byte 3)) refl))))

  pub read_u32-lt : read_u32 bs offset < 2 ^ 32
  read_u32-lt = rw read_u32_value (omega (arith, byte 0, byte 1, byte 2, byte 3))

  -- Reading back what a writer stored, and writing back what was read.
  pub read_u64-slice :
      (v : ℕ)
      → v < 2 ^ 64
      → offset + 8 ≤ length bs
      → slice bs offset 8 ≡ u64_bytes v
      → read_u64 bs offset ≡ v
  read_u64-slice v small fits e =
      read_u64_value ∙ ap le_value (sym (slice-bytes 8 fits) ∙ e) ∙ omega arith

  pub bytes-read_u64 : offset + 8 ≤ length bs → u64_bytes (read_u64 bs offset) ≡ slice bs offset 8
  bytes-read_u64 fits =
      rw (read_u64_value, slice-bytes 8 fits)
        (cons_eq (omega (arith, byte 0, byte 1, byte 2, byte 3, byte 4, byte 5, byte 6, byte 7)) (
          cons_eq (omega (arith, byte 0, byte 1, byte 2, byte 3, byte 4, byte 5, byte 6, byte 7)) (
            cons_eq (omega (arith, byte 0, byte 1, byte 2, byte 3, byte 4, byte 5, byte 6, byte 7))
              (cons_eq
                (omega (arith, byte 0, byte 1, byte 2, byte 3, byte 4, byte 5, byte 6, byte 7))
                (cons_eq
                  (omega (arith, byte 0, byte 1, byte 2, byte 3, byte 4, byte 5, byte 6, byte 7))
                  (cons_eq
                    (omega (arith, byte 0, byte 1, byte 2, byte 3, byte 4, byte 5, byte 6, byte 7))
                    (cons_eq
                      (omega
                        (arith, byte 0, byte 1, byte 2, byte 3, byte 4, byte 5, byte 6, byte 7))
                      (cons_eq
                        (omega
                          (arith, byte 0, byte 1, byte 2, byte 3, byte 4, byte 5, byte 6, byte 7))
                        refl))))))))

  pub read_u64-lt : read_u64 bs offset < 2 ^ 64
  read_u64-lt =
      rw read_u64_value
        (omega (arith, byte 0, byte 1, byte 2, byte 3, byte 4, byte 5, byte 6, byte 7))
