-- ===== src/Platform/Aead.antt =====
-- Begin, Seal and Open of src/crypt/aead.cc.
pub mod History
pub mod Laws
use model_crypt.Common.{
  ℕ, ◌-◌, ◌^◌, ◌<◌, ◌≡◌, refl, sym, ◌∙◌, ap, subst, Option, some, none, Bool, true, false, not,
  ◌&&◌, ◌||◌, List, [], ◌∷◌, ltb, leb, le→not-ltb, arith, length, All, if◌then◌else◌, Bool-cases,
  inl, inr,
}
use model_crypt.Common.Buffer.{Bytes, IsByte, slice, slice_self}
use model_crypt.Common.Result.{Error, Result, ok, err, invalid_arg, crypto, auth, ok_injective}
use model_crypt.Common.World.{
  Effect, ◌>>=◌, ◌>>◌, done, lift, reject_if, bind-eq_ok, checked-eq_ok, bind_then,
}
use model_crypt.Format.Types.{nonce_size, tag_size}
use model_crypt.Encrypt.Options.{is_null, memory_at}
use model_crypt.Platform.Libraries.{
  Call, init_cipher, set_iv_length, init_key, update_aad, update, final, get_tag, set_tag,
  Libraries, prepared, processed, Tagged, IsDocumented, Reverses,
}

abbrev pub fits_in_int : ℕ → Bool
fits_in_int size = leb size (2 ^ 31 - 1)

-- A call that returned 1 becomes part of the context's history.
abbrev pub recorded :
    {W : Type 0} → List Call → Call → Error → Option Bytes × W → Result (List Call × Bytes) × W
recorded history c error (none, w) = (err error, w)
recorded history c error (some out, w) = (ok (c ∷ history, out), w)

module _ (L : Libraries) where
  open L use {World, ctx_new, evp}

  -- `if (EVP_...(ctx, ...) != 1) { return error; }`
  unfoldable pub perform : List Call → Call → Error → Effect World (List Call × Bytes)
  perform history c error w = recorded history c error (evp history c w)

  unfoldable pub new_context : Effect World (Unit {0})
  new_context w = let (there, w') = ctx_new w in reject_if (not there) crypto w'

  -- `if (aad != nullptr && aad_size > 0) { ... }`
  unfoldable pub add_aad : List Call → Option Bytes → ℕ → Effect World (List Call)
  unfolding perform
  add_aad history aad aad_size =
      let with_aad : Effect World (List Call) = do
        (history', _) ← perform history (update_aad (slice (memory_at aad) 0 aad_size)) crypto
        done history'
      in if not (is_null aad) && ltb 0 aad_size then with_aad else done history

  unfoldable pub begin : Bytes → Bytes → Option Bytes → ℕ → Bool → Effect World (List Call)
  unfolding perform
  begin key nonce aad aad_size encrypt = do
    (with_cipher, _) ← perform [] (init_cipher encrypt) crypto
    (with_length, _) ← perform with_cipher (set_iv_length nonce_size) crypto
    (with_key, _) ← perform with_length (init_key key nonce encrypt) crypto
    add_aad with_key aad aad_size

  -- The one call for the text, if there is any: the history, and what it wrote.
  unfoldable pub process : List Call → Bytes → ℕ → Effect World (List Call × Bytes)
  unfolding perform
  process history text size =
      if ltb 0 size then perform history (update (slice text 0 size)) crypto else done (history, [])

  -- `ct` and `tag` say whether those pointers are null; the result is what is written there.
  unfoldable pub seal :
      (key nonce aad : Option Bytes)
      → ℕ
      → (pt : Option Bytes) → ℕ
      → (ct tag : Option (Unit {0})) → Effect World (Bytes × Bytes)
  unfolding perform
  seal key nonce aad aad_size pt pt_size ct tag = do
    reject_if (is_null key || is_null nonce || is_null tag) invalid_arg
    reject_if (ltb 0 pt_size && (is_null pt || is_null ct)) invalid_arg
    reject_if (not (fits_in_int pt_size) || not (fits_in_int aad_size)) invalid_arg
    new_context
    begun ← begin (memory_at key) (memory_at nonce) aad aad_size true
    (history, text) ← process begun (memory_at pt) pt_size
    (finished, _) ← perform history final crypto
    (_, tag_bytes) ← perform finished (get_tag tag_size) crypto
    done (text, tag_bytes)

  unfoldable pub open_sealed :
      (key nonce aad : Option Bytes)
      → ℕ
      → (ct : Option Bytes) → ℕ
      → (tag : Option Bytes) → (pt : Option (Unit {0})) → Effect World Bytes
  unfolding perform
  open_sealed key nonce aad aad_size ct ct_size tag pt = do
    reject_if (is_null key || is_null nonce || is_null tag) invalid_arg
    reject_if (ltb 0 ct_size && (is_null ct || is_null pt)) invalid_arg
    reject_if (not (fits_in_int ct_size) || not (fits_in_int aad_size)) invalid_arg
    new_context
    begun ← begin (memory_at key) (memory_at nonce) aad aad_size false
    (history, text) ← process begun (memory_at ct) ct_size
    (installed, _) ← perform history (set_tag (slice (memory_at tag) 0 tag_size)) crypto
    (_, _) ← perform installed final auth
    done text
