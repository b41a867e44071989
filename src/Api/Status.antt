-- ===== src/Api/Status.antt =====
-- mc_status_string, mc_version_string and mc_generate_key of src/api/c_api.cc.
use model_crypt.Common.{
  ℕ, zero, suc, ◌≤◌, ◌≡◌, refl, sym, ◌∙◌, ap, Option, if◌then◌else◌, arith, ◌≢◌, ◌==◌,
}
use model_crypt.Common.Buffer.{Bytes}
use model_crypt.Common.Texts.{codes, same}
use model_crypt.Common.Result.{
  Result, ok, err, invalid_arg, format, unsupported, auth, compress, crypto, memory, io, too_large,
}
use model_crypt.Common.World.{Effect}
use model_crypt.Platform.Libraries.{Libraries}
use model_crypt.Platform.RandomBytes.{fill}

-- The enumerators' values, MC_OK first.
abbrev pub status_code : Result (Unit {0}) → ℕ
status_code (ok u) = 0
status_code (err invalid_arg) = 1
status_code (err format) = 2
status_code (err unsupported) = 3
status_code (err auth) = 4
status_code (err compress) = 5
status_code (err crypto) = 6
status_code (err memory) = 7
status_code (err io) = 8
status_code (err too_large) = 9

-- Of the int that the argument's object holds, as an unsigned number.
unfoldable pub mc_status_string : ℕ → Bytes
mc_status_string value =
    if value == 0
    then codes "ok"
    else if value == 1
    then codes "invalid argument"
    else if value == 2
    then codes "not a model-crypt file, or its header is inconsistent"
    else if value == 3
    then codes "unsupported format version or algorithm"
    else if value == 4
    then codes "authentication failed: wrong key, or the file was modified"
    else if value == 5
    then codes "decompression failed"
    else if value == 6
    then codes "cryptographic operation failed"
    else if value == 7
    then codes "out of memory"
    else if value == 8
    then codes "I/O error"
    else if value == 9
    then codes "input too large"
    else codes "unknown status"

-- The least status with a text.
status_named : ℕ → ℕ → Bytes → ℕ
unfolding mc_status_string same
status_named zero at text = at
status_named (suc left) at text =
    let rest = status_named left (suc at) text in
    if same (mc_status_string at) text then at else rest

status_named_lem :
    (s : Result (Unit {0})) → status_named 10 0 (mc_status_string (status_code s)) ≡ status_code s
unfolding status_named
status_named_lem (ok u) = refl
status_named_lem (err invalid_arg) = refl
status_named_lem (err format) = refl
status_named_lem (err unsupported) = refl
status_named_lem (err auth) = refl
status_named_lem (err compress) = refl
status_named_lem (err crypto) = refl
status_named_lem (err memory) = refl
status_named_lem (err io) = refl
status_named_lem (err too_large) = refl

status_named_unknown : status_named 10 0 (codes "unknown status") ≡ 10
unfolding status_named
status_named_unknown = refl

status_code-9 : (s : Result (Unit {0})) → status_code s ≤ 9
status_code-9 (ok u) = omega arith
status_code-9 (err invalid_arg) = omega arith
status_code-9 (err format) = omega arith
status_code-9 (err unsupported) = omega arith
status_code-9 (err auth) = omega arith
status_code-9 (err compress) = omega arith
status_code-9 (err crypto) = omega arith
status_code-9 (err memory) = omega arith
status_code-9 (err io) = omega arith
status_code-9 (err too_large) = omega arith

unknown-mc_status_string : (n : ℕ) → 10 ≤ n → mc_status_string n ≡ codes "unknown status"
unfolding mc_status_string
unknown-mc_status_string n high = ground (arith, high)

-- mc_status_string tells the statuses apart: two statuses with the same text have the same value, and
-- none has the text of a value outside the enumeration.
pub mc_status_string_injective :
    (s t : Result (Unit {0}))
    → (mc_status_string (status_code s) ≡ mc_status_string (status_code t)
        → status_code s ≡ status_code t)
      × ((n : ℕ) → 10 ≤ n → mc_status_string (status_code s) ≢ mc_status_string n)
mc_status_string_injective s t = (
  λ e. sym (status_named_lem s) ∙ ap (status_named 10 0) e ∙ status_named_lem t,
  λ n high e.
      let found =
        sym (status_named_lem s)
        ∙ ap (status_named 10 0) (e ∙ unknown-mc_status_string n high)
        ∙ status_named_unknown in
      absurd (omega (arith, found, status_code-9 s)),
)

-- The result is what is stored at `out`.
unfoldable pub mc_generate_key : (L : Libraries) → Option Bytes → ℕ → Effect L.World Bytes
mc_generate_key L out size = fill L out size
