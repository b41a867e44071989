-- ===== src/Format/Record/Binding.antt =====
-- Nonces and associated data determine what they are built from.
use model_crypt.Common.{ℕ, ◌^◌, ◌≤◌, ◌<◌, ◌≡◌, refl, ap, [], ◌∷◌, ◌++◌, arith, length}
use mathlib.Core.Path.{ap₂}
use model_crypt.Common.Buffer.{Bytes, slice, length-slice}
use model_crypt.Common.Segments.{concat}
use model_crypt.Format.Types.{ChunkHeader}
use model_crypt.Format.Endian.{u32_bytes}
use model_crypt.Format.Endian.Values.{le_value}
use model_crypt.Format.Layout.{build_aad-segments, u32_big_endian, build_nonce-segments}
use model_crypt.Format.Record.{build_aad, build_nonce}

u32_bytes_injective : (v w : ℕ) → v < 2 ^ 32 → w < 2 ^ 32 → u32_bytes v ≡ u32_bytes w → v ≡ w
u32_bytes_injective v w hv hw e = omega (arith, ap le_value e)

u32_big_endian_injective :
    (v w : ℕ) → v < 2 ^ 32 → w < 2 ^ 32 → u32_big_endian v ≡ u32_big_endian w → v ≡ w
u32_big_endian_injective v w hv hw e = omega (arith, ap le_value e)

append_injective : (a b s t : Bytes) → length a ≡ length b → a ++ s ≡ b ++ t → (a ≡ b) × (s ≡ t)
append_injective [] [] s t h e = (refl, e)
append_injective [] (y ∷ b) s t h e = absurd (omega arith)
append_injective (x ∷ a) [] s t h e = absurd (omega arith)
append_injective (x ∷ a) (y ∷ b) s t h e =
    let tails : a ++ s ≡ b ++ t = cc in
    let (p, q) = append_injective a b s t (omega arith) tails in
    let heads : x ≡ y = cc in (ap₂ ◌∷◌ heads p, q)

-- Nonces of 8-byte prefixes and 32-bit indices are equal only for equal prefixes and equal indices.
pub build_nonce_injective :
    (p q : Bytes) (i j : ℕ)
    → length p ≡ 8
    → length q ≡ 8
    → i < 2 ^ 32
    → j < 2 ^ 32
    → build_nonce p i ≡ build_nonce q j
    → (p ≡ q) × (i ≡ j)
build_nonce_injective p q i j hp hq hi hj e =
    let (same, counters) =
      append_injective p q (u32_big_endian i) (u32_big_endian j) (omega arith)
        (rw (build_nonce-segments p i hp, build_nonce-segments q j hq) at e) in
    (same, u32_big_endian_injective i j hi hj counters)

-- Associated data of files of at least 64 bytes, 32-bit indices and 32-bit stored sizes is equal only
-- if the 64 bytes of the file header, the index and the whole chunk header are.
pub build_aad_injective :
    (file file' : Bytes) (i j : ℕ) (chunk chunk' : ChunkHeader)
    → 64 ≤ length file
    → 64 ≤ length file'
    → i < 2 ^ 32
    → j < 2 ^ 32
    → chunk.stored_size < 2 ^ 32
    → chunk'.stored_size < 2 ^ 32
    → build_aad file i chunk ≡ build_aad file' j chunk'
    → (slice file 0 64 ≡ slice file' 0 64) × (i ≡ j) × (chunk ≡ chunk')
build_aad_injective file file' i j chunk chunk' h h' hi hj hs hs' e =
    let whole : length (slice file 0 64) ≡ 64 = length-slice file 0 64 (omega arith) in
    let whole' : length (slice file' 0 64) ≡ 64 = length-slice file' 0 64 (omega arith) in
    let (same, tails) =
      append_injective (slice file 0 64) (slice file' 0 64)
        (concat (u32_bytes i ∷ u32_bytes chunk.stored_size ∷ (chunk.flags ∷ []) ∷ []))
        (concat (u32_bytes j ∷ u32_bytes chunk'.stored_size ∷ (chunk'.flags ∷ []) ∷ []))
        (omega arith)
        (rw (build_aad-segments file i chunk h, build_aad-segments file' j chunk' h') at e) in
    let (counters, rest) =
      append_injective (u32_bytes i) (u32_bytes j)
        (concat (u32_bytes chunk.stored_size ∷ (chunk.flags ∷ []) ∷ []))
        (concat (u32_bytes chunk'.stored_size ∷ (chunk'.flags ∷ []) ∷ [])) refl tails in
    let (sizes, flags) =
      append_injective (u32_bytes chunk.stored_size) (u32_bytes chunk'.stored_size)
        (chunk.flags ∷ []) (chunk'.flags ∷ []) refl rest in
    let size_eq = u32_bytes_injective chunk.stored_size chunk'.stored_size hs hs' sizes in
    let flag_eq : chunk.flags ≡ chunk'.flags = cc in
    (same, u32_bytes_injective i j hi hj counters, ground arith)
