-- ===== src/Common/Buffer.antt =====
-- Memory blocks as lists of bytes: what `memcpy` and pointer arithmetic do to them.
use Prim.Native.Nat.{ℕ, zero, suc, ◌+◌, ◌-◌, min, ◌≤◌, ◌<◌}
use mathlib.Core.Path.{◌≡◌, refl, sym, ap, ◌∙◌}
use mathlib.Core.List.{List, [], ◌∷◌, ◌++◌, append_assoc}
use native.Mathlib.Omega.{arith}
use model_crypt.Common.Lists.{
  length, get_or, take, drop, replicate, All, take-append, drop-append, drop-drop, length-append,
  replicate-append, length-replicate, take_all, length-take, length-drop, All-take, All-drop,
  All-get_or,
}

abbrev pub Bytes : Type 0
Bytes = List ℕ

abbrev pub IsByte : ℕ → Type 0
IsByte b = b < 256

-- `bs[i]`
abbrev pub byte_at : Bytes → ℕ → ℕ
byte_at bs i = get_or bs i 0

-- The `n` bytes at `bs + offset`.
unfoldable pub slice : Bytes → ℕ → ℕ → Bytes
slice bs offset n = take n (drop offset bs)

-- `memcpy(out + offset, src, length src)`
unfoldable pub memcpy : Bytes → ℕ → Bytes → Bytes
memcpy out offset src = take offset out ++ src ++ drop (offset + length src) out

-- `memset(out, 0, n)`, and a fresh zeroed block.
abbrev pub zeros : ℕ → Bytes
zeros n = replicate n 0

pub slice-append :
    (a b c : Bytes) (i n : ℕ) → length a ≡ i → length b ≡ n → slice (a ++ b ++ c) i n ≡ b
unfolding slice
slice-append a b c i n p q =
    rw (← p, ← q, append_assoc a b c, drop-append a (b ++ c)) (take-append b c)

-- Writing over the middle of a block.
pub memcpy-append :
    (a b c src : Bytes) (i : ℕ)
    → length a ≡ i
    → length b ≡ length src
    → memcpy (a ++ b ++ c) i src ≡ a ++ src ++ c
unfolding memcpy
memcpy-append a b c src i p q = rw (
  ← p,
  ← q,
  ← drop-drop (length a) (length b) (a ++ b ++ c),
  append_assoc a b c,
  drop-append a (b ++ c),
  drop-append b c,
  take-append a (b ++ c),
)

-- Writing at the front of what is still zero.
pub memcpy-zeros :
    (a src : Bytes) (i room left : ℕ)
    → length a ≡ i
    → length src + left ≡ room
    → memcpy (a ++ zeros room) i src ≡ (a ++ src) ++ zeros left
memcpy-zeros a src i room left p q =
    rw
      (
        ← q,
        replicate-append {A = ℕ} (length src) left 0,
        ← append_assoc a (zeros (length src)) (zeros left),
      )
      (memcpy-append a (zeros (length src)) (zeros left) src i p (length-replicate (length src) 0))

pub slice_self : (bs : Bytes) (n : ℕ) → length bs ≡ n → slice bs 0 n ≡ bs
unfolding slice
slice_self bs n p = rw (← p) (take_all bs)

pub length-slice : (bs : Bytes) (i n : ℕ) → i + n ≤ length bs → length (slice bs i n) ≡ n
unfolding slice
length-slice bs i n h = omega (arith, length-take n (drop i bs), length-drop i bs)

pub length-slice-min : (bs : Bytes) (i n : ℕ) → length (slice bs i n) ≡ min n (length bs - i)
unfolding slice
length-slice-min bs i n = omega (arith, length-take n (drop i bs), length-drop i bs)

pub All-slice : (bs : Bytes) (i n : ℕ) → All IsByte bs → All IsByte (slice bs i n)
unfolding slice
All-slice bs i n h = All-take IsByte n (drop i bs) (All-drop IsByte i bs h)

pub length-memcpy :
    (out src : Bytes) (i : ℕ) → i + length src ≤ length out → length (memcpy out i src) ≡ length out
unfolding memcpy
length-memcpy out src i h = omega (
  arith,
  length-append (take i out ++ src) (drop (i + length src) out),
  length-append (take i out) src,
  length-take i out,
  length-drop (i + length src) out,
)

take_split : (m n : ℕ) (bs : Bytes) → take (m + n) bs ≡ take m bs ++ take n (drop m bs)
take_split zero n bs = let e : 0 + n ≡ n = omega arith in rw e
take_split (suc m) zero [] = let e : suc m + 0 ≡ suc m = omega arith in rw e
take_split (suc m) (suc n) [] = let e : suc m + suc n ≡ suc (m + suc n) = omega arith in rw e
take_split (suc m) n (b ∷ bs) =
    let e : suc m + n ≡ suc (m + n) = omega arith in rw e (ap (λ t. b ∷ t) (take_split m n bs))

pub byte_at-IsByte : (bs : Bytes) (i : ℕ) → All IsByte bs → IsByte (byte_at bs i)
byte_at-IsByte bs i h = All-get_or IsByte bs i 0 h (omega arith)

get_or-drop : (m i : ℕ) (bs : Bytes) → byte_at (drop m bs) i ≡ byte_at bs (m + i)
get_or-drop zero i bs = let e : 0 + i ≡ i = omega arith in rw e
get_or-drop (suc m) i [] = refl
get_or-drop (suc m) i (b ∷ bs) =
    let e : suc m + i ≡ suc (m + i) = omega arith in rw e (get_or-drop m i bs)

get_or-take : (n i : ℕ) (bs : Bytes) → i < n → byte_at (take n bs) i ≡ byte_at bs i
get_or-take zero i bs h = absurd (omega arith)
get_or-take (suc n) i [] h = refl
get_or-take (suc n) zero (b ∷ bs) h = refl
get_or-take (suc n) (suc i) (b ∷ bs) h = get_or-take n i bs (omega arith)

pub byte_at-slice :
    (bs : Bytes) (offset n i : ℕ) → i < n → byte_at (slice bs offset n) i ≡ byte_at bs (offset + i)
unfolding slice
byte_at-slice bs offset n i h = get_or-take n i (drop offset bs) h ∙ get_or-drop offset i bs

-- Two neighbouring slices.
pub slice_split :
    (bs : Bytes) (i m n j : ℕ) → i + m ≡ j → slice bs i (m + n) ≡ slice bs i m ++ slice bs j n
unfolding slice
slice_split bs i m n j e = rw (← e, ← drop-drop i m bs) (take_split m n (drop i bs))

-- `n` bytes read one by one, from `bs[offset + i]` on.
abbrev pub bytes_at : Bytes → ℕ → ℕ → ℕ → Bytes
bytes_at bs offset i zero = []
bytes_at bs offset i (suc n) = byte_at bs (offset + i) ∷ bytes_at bs offset (i + 1) n

drop_byte : (i : ℕ) (bs : Bytes) → i < length bs → drop i bs ≡ byte_at bs i ∷ drop (i + 1) bs
drop_byte i [] h = absurd (omega arith)
drop_byte zero (b ∷ bs) h = refl
drop_byte (suc i) (b ∷ bs) h =
    let e : suc i + 1 ≡ suc (i + 1) = omega arith in rw e (drop_byte i bs (omega arith))

pub slice-bytes_at :
    (bs : Bytes) (offset i n : ℕ)
    → offset + i + n ≤ length bs
    → slice bs (offset + i) n ≡ bytes_at bs offset i n
unfolding slice
slice-bytes_at bs offset i zero h = refl
slice-bytes_at bs offset i (suc n) h =
    let e : offset + i + 1 ≡ offset + (i + 1) = omega arith in
    rw (drop_byte (offset + i) bs (omega arith), e)
      (ap (λ t. byte_at bs (offset + i) ∷ t) (slice-bytes_at bs offset (i + 1) n (omega arith)))

-- Two pieces that are neighbouring slices are one slice together.
pub slice_glue :
    (bs s t : Bytes) (i m n j : ℕ)
    → i + m ≡ j
    → s ≡ slice bs i m
    → t ≡ slice bs j n
    → s ++ t ≡ slice bs i (m + n)
slice_glue bs s t i m n j e p q = rw (p, q) (sym (slice_split bs i m n j e))

pub empty_bytes : (bs : Bytes) → length bs ≡ 0 → bs ≡ []
empty_bytes [] e = refl
empty_bytes (b ∷ bs) e = absurd (omega arith)
