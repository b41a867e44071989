-- ===== src/Common/Segments.antt =====
-- A block that is filled from the front, and a block read as consecutive segments.
use model_crypt.Common.Lists.{
  take, get_or, drop-drop, drop-append, length, length-replicate, length-append, All, All-append,
}
use model_crypt.Common.Buffer.{Bytes, IsByte, slice, memcpy, zeros, memcpy-zeros, slice-append}
use Prim.Native.Nat.{ℕ, zero, suc, ◌+◌}
use mathlib.Core.Path.{◌≡◌, refl, sym, ◌∙◌, ap}
use mathlib.Core.List.{List, [], ◌∷◌, ◌++◌, append_assoc}
use native.Mathlib.Omega.{arith}

-- A block of which the first `i` bytes are `a` and the other `room` bytes are zero.
pub record IsFilled (out a : Bytes) (i room : ℕ) : Type 0 where
  pub content : out ≡ a ++ zeros room
  pub filled : length a ≡ i

pub length-IsFilled : {out a : Bytes} {i room : ℕ} → IsFilled out a i room → length out ≡ i + room
length-IsFilled {a} {i} {room} f =
    rw f.content
      (omega (arith, length-append a (zeros room), length-replicate {A = ℕ} room 0, f.filled))

pub memcpy-IsFilled :
    {out a : Bytes} {i room : ℕ} (src : Bytes) (j left : ℕ)
    → IsFilled out a i room
    → i + length src ≡ j
    → length src + left ≡ room
    → IsFilled (memcpy out i src) (a ++ src) j left
memcpy-IsFilled {out} {a} {i} {room} src j left f p q = record {
  content = rw f.content (memcpy-zeros a src i room left f.filled q);
  filled = omega (arith, length-append a src, f.filled);
}

abbrev pub concat : List Bytes → Bytes
concat [] = []
concat (s ∷ ss) = s ++ concat ss

pub concat-append : (ss ts : List Bytes) → concat (ss ++ ts) ≡ concat ss ++ concat ts
concat-append [] ts = refl
concat-append (s ∷ ss) ts =
    ap (λ t. s ++ t) (concat-append ss ts) ∙ sym (append_assoc s (concat ss) (concat ts))

slice-append_right : (s bs : Bytes) (j n : ℕ) → slice (s ++ bs) (length s + j) n ≡ slice bs j n
unfolding slice
slice-append_right s bs j n = rw (← drop-drop (length s) j (s ++ bs), drop-append s bs)

-- The k-th segment, by its place and its size.
pub slice-concat :
    (k : ℕ) (ss : List Bytes) (i n : ℕ)
    → length (concat (take k ss)) ≡ i
    → length (get_or ss k []) ≡ n
    → slice (concat ss) i n ≡ get_or ss k []
slice-concat zero [] i n p q = rw (← q) (unfold slice in refl)
slice-concat zero (s ∷ ss) i n p q = slice-append [] s (concat ss) i n p q
slice-concat (suc k) [] i n p q = rw (← q) (unfold slice in refl)
slice-concat (suc k) (s ∷ ss) i n p q =
    rw (← p, length-append s (concat (take k ss)), slice-append_right s (concat ss))
      (slice-concat k ss _ n refl q)

pub concat-IsByte : (ss : List Bytes) → All (All IsByte) ss → All IsByte (concat ss)
concat-IsByte [] h = tt
concat-IsByte (s ∷ ss) (hs, h) = All-append IsByte s (concat ss) hs (concat-IsByte ss h)
