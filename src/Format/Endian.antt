-- ===== src/Format/Endian.antt =====
-- WriteU8 .. WriteU64 and ReadU8 .. ReadU64 of src/crypt/format.cc.
pub mod Values
use model_crypt.Common.{ℕ, zero, suc, ◌+◌, ◌*◌, ◌/◌, ◌%◌, ◌^◌, List, [], ◌∷◌, bit_or}
use model_crypt.Common.Buffer.{Bytes, byte_at, memcpy}

-- `(value >> k) & 0xFF`
abbrev pub byte_of : ℕ → ℕ → ℕ
byte_of value k = value / 2 ^ k % 256

-- `x << k` on w bits.
abbrev pub shl : ℕ → ℕ → ℕ → ℕ
shl w x k = x * 2 ^ k % 2 ^ w

-- The bytes that each writer stores, from the lowest address up.
abbrev pub u16_bytes : ℕ → Bytes
u16_bytes value = byte_of value 0 ∷ byte_of value 8 ∷ []

abbrev pub u32_bytes : ℕ → Bytes
u32_bytes value = byte_of value 0 ∷ byte_of value 8 ∷ byte_of value 16 ∷ byte_of value 24 ∷ []

-- `for (i = 0; i < 8; ++i)`, by the rounds left.
abbrev pub u64_bytes_loop : ℕ → ℕ → ℕ → Bytes
u64_bytes_loop zero i value = []
u64_bytes_loop (suc rounds) i value = byte_of value (8 * i) ∷ u64_bytes_loop rounds (i + 1) value

abbrev pub u64_bytes : ℕ → Bytes
u64_bytes value = u64_bytes_loop 8 0 value

unfoldable pub write_u8 : Bytes → ℕ → ℕ → Bytes
write_u8 out offset value = memcpy out offset (value ∷ [])

unfoldable pub write_u16 : Bytes → ℕ → ℕ → Bytes
write_u16 out offset value = memcpy out offset (u16_bytes value)

unfoldable pub write_u32 : Bytes → ℕ → ℕ → Bytes
write_u32 out offset value = memcpy out offset (u32_bytes value)

unfoldable pub write_u64 : Bytes → ℕ → ℕ → Bytes
write_u64 out offset value = memcpy out offset (u64_bytes value)

unfoldable pub read_u8 : Bytes → ℕ → ℕ
read_u8 bs offset = byte_at bs offset

unfoldable pub read_u16 : Bytes → ℕ → ℕ
read_u16 bs offset = bit_or (byte_at bs offset) (shl 16 (byte_at bs (offset + 1)) 8)

unfoldable pub read_u32 : Bytes → ℕ → ℕ
read_u32 bs offset =
    bit_or
      (bit_or (bit_or (byte_at bs offset) (shl 32 (byte_at bs (offset + 1)) 8))
        (shl 32 (byte_at bs (offset + 2)) 16))
      (shl 32 (byte_at bs (offset + 3)) 24)

read_u64_loop : ℕ → ℕ → Bytes → ℕ → ℕ → ℕ
read_u64_loop zero i bs offset value = value
read_u64_loop (suc rounds) i bs offset value =
    read_u64_loop rounds (i + 1) bs offset (bit_or value (shl 64 (byte_at bs (offset + i)) (8 * i)))

unfoldable pub read_u64 : Bytes → ℕ → ℕ
unfolding read_u64_loop
read_u64 bs offset = read_u64_loop 8 0 bs offset 0
