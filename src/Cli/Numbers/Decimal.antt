-- ===== src/Cli/Numbers/Decimal.antt =====
-- The numbers that ParseU32 of src/cli/main.cc accepts.
use model_crypt.Common.{
  ℕ, ◌+◌, ◌-◌, ◌*◌, ◌^◌, ◌≤◌, ◌<◌, ◌≡◌, refl, Option, some, none, true, false, ◌||◌, ◌&&◌, [], ◌∷◌,
  leb, ◌==◌, arith, All, if◌then◌else◌, Bool-cases, inl, inr,
}
use model_crypt.Common.Buffer.{Bytes}
use model_crypt.Cli.Numbers.{
  is_digit, is_space, skip_spaces, scan_digits, strtoull_digits, strtoull_sign, strtoull, in_range,
  parse_u32,
}

-- What the text of a number means, behind digits of some value.
unfoldable pub decimal : ℕ → Bytes → ℕ
decimal value [] = value
decimal value (c ∷ text) = decimal (value * 10 + (c - b'0')) text

abbrev pub IsDigit : ℕ → Type 0
IsDigit c = is_digit c ≡ true

scan_digits-decimal :
    (value : ℕ) (text : Bytes)
    → All IsDigit text
    → scan_digits value text ≡ (decimal value text, [])
unfolding scan_digits decimal
scan_digits-decimal value [] h = refl
scan_digits-decimal value (c ∷ text) (d, h) =
    rw d (scan_digits-decimal (value * 10 + (c - b'0')) text h)

digit-no_sign :
    (c : ℕ) → IsDigit c → ((c == b'-') ≡ false) × ((c == b'+') ≡ false) × (is_space c ≡ false)
digit-no_sign c d = ground (arith, d)

-- On digits alone strtoull gives their value, unless it needs more than 64 bits.
strtoull-decimal :
    (c : ℕ) (text : Bytes)
    → All IsDigit (c ∷ text)
    → strtoull (c ∷ text) ≡ (
        if leb (2 ^ 64) (decimal 0 (c ∷ text))
        then (none, [])
        else (some (decimal 0 (c ∷ text)), []))
unfolding strtoull strtoull_sign strtoull_digits skip_spaces
strtoull-decimal c text (d, h) =
    let (minus, plus, space) = digit-no_sign c d in
    rw (space, minus, plus, d, scan_digits-decimal 0 (c ∷ text) (d, h)) refl

in_range-eq_some :
    (low high n : ℕ) (q : Option ℕ × Bytes)
    → high < 2 ^ 32
    → in_range low high q ≡ some n
    → (low ≤ n) × (n ≤ high)
in_range-eq_some low high n (none, rest) small e = cc
in_range-eq_some low high n (some value, c ∷ rest) small e = cc
in_range-eq_some low high n (some value, []) small e = ground (arith, small, e)

-- A number that ParseU32 accepts lies between the bounds it is given, which fit in 32 bits.
pub parse_u32-range :
    (text : Bytes) (low high n : ℕ)
    → high < 2 ^ 32
    → parse_u32 text low high ≡ some n
    → (low ≤ n) × (n ≤ high)
unfolding parse_u32
parse_u32-range [] low high n small e = cc
parse_u32-range (c ∷ text) low high n small e = elim (Bool-cases (c == b'-' || c == b'+')) [
  | inl sign ↦ let no_way = rw sign at e in cc
  | inr fine ↦ in_range-eq_some low high n (strtoull (c ∷ text)) small (rw fine at e)
]

-- Of a text of digits, at least one, ParseU32 accepts exactly the numbers between its bounds, which fit
-- in 32 bits, with their decimal value, however long the text is.
pub parse_u32-decimal :
    (c : ℕ) (text : Bytes) (low high : ℕ)
    → All IsDigit (c ∷ text)
    → high < 2 ^ 32
    → parse_u32 (c ∷ text) low high ≡ (
        if leb low (decimal 0 (c ∷ text)) && leb (decimal 0 (c ∷ text)) high
        then some (decimal 0 (c ∷ text))
        else none)
unfolding parse_u32
parse_u32-decimal c text low high h small =
    let (minus, plus, _) = digit-no_sign c h.0 in
    rw (minus, plus, strtoull-decimal c text h) (chosen (decimal 0 (c ∷ text)))
  where
    chosen :
        (n : ℕ)
        → in_range low high (if leb (2 ^ 64) n then (none, []) else (some n, []))
          ≡ (if leb low n && leb n high then some n else none)
    chosen n = ground (arith, small)
