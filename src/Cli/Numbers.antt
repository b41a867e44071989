-- ===== src/Cli/Numbers.antt =====
-- ParseU32 of src/cli/main.cc, with strtoull of the C library in base 10.
pub mod Decimal
use model_crypt.Common.{
  ℕ, zero, suc, ◌+◌, ◌-◌, ◌*◌, ◌%◌, ◌^◌, ◌≤◌, ◌<◌, ◌≡◌, ◌↔◌, refl, sym, ◌∙◌, ap, Option, some, none,
  Bool, true, false, ◌||◌, ◌&&◌, not, List, [], ◌∷◌, ltb, leb, ◌==◌, arith, All, if◌then◌else◌,
  Bool-cases, inl, inr,
}
use model_crypt.Common.Buffer.{Bytes}
use model_crypt.Common.Texts.{codes}

abbrev pub is_digit : ℕ → Bool
is_digit c = leb b'0' c && leb c b'9'

-- isspace in the C locale.
abbrev pub is_space : ℕ → Bool
is_space c = c == 32 || (leb 9 c && leb c 13)

unfoldable pub skip_spaces : Bytes → Bytes
skip_spaces [] = []
skip_spaces (c ∷ text) = let rest = skip_spaces text in if is_space c then rest else c ∷ text

-- The value of the digits in front, before it is put into 64 bits, and what follows them.
unfoldable pub scan_digits : ℕ → Bytes → ℕ × Bytes
scan_digits value [] = (value, [])
scan_digits value (c ∷ text) =
    let rest = scan_digits (value * 10 + (c - b'0')) text in
    if is_digit c then rest else (value, c ∷ text)

-- The value, or `none` for ERANGE, and the text at `end`.
unfoldable pub strtoull_digits : Bytes → Bool → Bytes → Option ℕ × Bytes
strtoull_digits whole negative [] = (some 0, whole)
strtoull_digits whole negative (c ∷ text) =
    let (value, rest) = scan_digits 0 (c ∷ text) in
    if not (is_digit c)
    then (some 0, whole)
    else if leb (2 ^ 64) value
    then (none, rest)
    else if negative
    then (some ((2 ^ 64 - value) % 2 ^ 64), rest)
    else (some value, rest)

unfoldable pub strtoull_sign : Bytes → Bytes → Option ℕ × Bytes
unfolding strtoull_digits
strtoull_sign whole [] = (some 0, whole)
strtoull_sign whole (c ∷ text) =
    if c == b'-'
    then strtoull_digits whole true text
    else if c == b'+'
    then strtoull_digits whole false text
    else strtoull_digits whole false (c ∷ text)

unfoldable pub strtoull : Bytes → Option ℕ × Bytes
unfolding strtoull_sign skip_spaces
strtoull text = strtoull_sign text (skip_spaces text)

-- `errno != 0 || *end != '\0'`, then the range.
abbrev pub in_range : ℕ → ℕ → Option ℕ × Bytes → Option ℕ
in_range low high (none, rest) = none
in_range low high (some value, c ∷ rest) = none
in_range low high (some value, []) =
    if ltb value low || ltb high value then none else some (value % 2 ^ 32)

unfoldable pub parse_u32 : Bytes → ℕ → ℕ → Option ℕ
unfolding strtoull
parse_u32 [] low high = none
parse_u32 (c ∷ text) low high =
    if c == b'-' || c == b'+' then none else in_range low high (strtoull (c ∷ text))
