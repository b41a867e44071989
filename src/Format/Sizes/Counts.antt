-- ===== src/Format/Sizes/Counts.antt =====
-- The chunks of a file cover its plaintext, and nothing overflows inside the permitted ranges.
use model_crypt.Common.{
  ℕ, zero, suc, ◌+◌, ◌-◌, ◌*◌, ◌/◌, ◌%◌, ◌^◌, ◌≤◌, ◌<◌, ◌≡◌, min, arith, ◌⊎◌, inl, inr,
}
use model_crypt.Format.Sizes.{chunk_count_for, max_stored_size_for, chunk_plain_size}
use native.Mathlib.Nat.{div-add-mod, mod-lt, mul-le-mul_left, mul-le-mul_right}

-- The ranges that ParseFileHeader and ValidateOptions establish.
pub record InRange (p c : ℕ) : Type 0 where
  pub low : 2 ^ 12 ≤ c
  pub high : c ≤ 2 ^ 26
  pub plain : p ≤ 2 ^ 36

quotient_bounds : (x c : ℕ) → 0 < c → (x / c * c ≤ x) × (x < (x / c + 1) * c)
quotient_bounds x c h = omega (arith, div-add-mod x c, mod-lt x h)

-- Inside the ranges the count is the plain quotient, rounded up.
chunk_count_for_lem : (p c : ℕ) → InRange p c → 0 < p → chunk_count_for p c ≡ (p + c - 1) / c
unfolding chunk_count_for
chunk_count_for_lem p c r positive =
    let sum : (p + c + 2 ^ 64 - 1) % 2 ^ 64 ≡ p + c - 1 = omega (arith, r.high, r.plain, r.low) in
    let x = p + c - 1 in
    let q = quotient_bounds x c (omega (arith, r.low)) in
    let small : x / c * 2 ^ 12 ≤ x / c * c = mul-le-mul_left (x / c) r.low in
    let fits : x / c % 2 ^ 32 ≡ x / c = omega (arith, q.0, small, r.high, r.plain) in
    rw sum (ground (arith, fits))

-- The bounds of a quotient that is rounded up, of a positive `p`.
quotient_covers :
    (p c q : ℕ)
    → InRange (suc p) c
    → q * c ≤ p + c
    → p + c < (q + 1) * c
    → (1 ≤ q) × (q ≤ 2 ^ 24) × (suc p ≤ q * c) × ((q - 1) * c < suc p)
quotient_covers p c zero r low high = absurd (omega (arith, r.low))
quotient_covers p c (suc k) r low high =
    let small : k * 2 ^ 12 ≤ k * c = mul-le-mul_left k r.low in
    let e : suc k - 1 ≡ k = omega arith in rw e (omega (arith, r.plain, r.low))

-- For a chunk size of 4 KiB to 64 MiB and at most 64 GiB of plaintext, ChunkCountFor returns at least
-- one chunk and at most 2^24, enough chunks to hold the plaintext, and no more than needed: one for
-- an empty plaintext, and else one fewer would be too few.
pub chunk_count_for_covers :
    (p c : ℕ)
    → InRange p c
    → (1 ≤ chunk_count_for p c)
      × (chunk_count_for p c ≤ 2 ^ 24)
      × (p ≤ chunk_count_for p c * c)
      × ((p ≡ 0) × (chunk_count_for p c ≡ 1) ⊎ ((chunk_count_for p c - 1) * c < p))
chunk_count_for_covers zero c r = unfold chunk_count_for in omega arith
chunk_count_for_covers (suc p) c r =
    let x : suc p + c - 1 ≡ p + c = omega arith in
    let (low, high) = quotient_bounds (p + c) c (omega (arith, r.low)) in
    let (one, many, all, last) = quotient_covers p c ((p + c) / c) r low high in
    rw (chunk_count_for_lem (suc p) c r (omega arith), x) (one, many, all, inr last)

pub offset_fits : (p c i : ℕ) → InRange p c → i < 2 ^ 32 → i * c < 2 ^ 58
offset_fits p c i r h = let le : i * c ≤ i * 2 ^ 26 = mul-le-mul_left i r.high in omega arith

-- The plaintext behind the chunks before `index`, up to a full chunk of it.
pub chunk_plain_size_lem :
    (p c i : ℕ) → InRange p c → i < 2 ^ 32 → chunk_plain_size p c i ≡ min c (p - i * c)
unfolding chunk_plain_size
chunk_plain_size_lem p c i r h =
    let fits : i * c % 2 ^ 64 ≡ i * c = omega (arith, offset_fits p c i r h) in
    rw fits (ground arith)

-- For a chunk size of 4 KiB to 64 MiB, at most 64 GiB of plaintext and a 32-bit index, ChunkPlainSize
-- makes the chunks consecutive: what the chunks before `i`
-- cover and the plaintext size of chunk `i` make up what the chunks up to `i` cover.
pub chunk_plain_size_step :
    (p c i : ℕ)
    → InRange p c
    → i < 2 ^ 32
    → min (i * c) p + chunk_plain_size p c i ≡ min ((i + 1) * c) p
chunk_plain_size_step p c i r h = rw (chunk_plain_size_lem p c i r h) (omega arith)

-- Room for a stored chunk: no wrap-around, and no less than the chunk itself.
pub max_stored_size_for_lem :
    (c : ℕ) → c ≤ 2 ^ 26 → (max_stored_size_for c ≡ c + c / 1000 + 64) × (c ≤ max_stored_size_for c)
unfolding max_stored_size_for
max_stored_size_for_lem c h = omega arith

-- Every chunk starts inside the plaintext, or at the end of an empty one.
pub offset_of_chunk : (p c i : ℕ) → InRange p c → i < chunk_count_for p c → i * c ≤ p
offset_of_chunk p c i r h =
    let (_, _, _, last) = chunk_count_for_covers p c r in
    elim last [
      | inl (_, one) ↦ let e : i ≡ 0 = omega arith in rw e (omega arith)
      | inr before ↦
          let le : i * c ≤ (chunk_count_for p c - 1) * c = mul-le-mul_right c (omega arith) in
          omega arith
    ]
