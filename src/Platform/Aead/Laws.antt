-- ===== src/Platform/Aead/Laws.antt =====
-- What a successful Seal and a successful Open have done, in src/crypt/aead.cc.
use model_crypt.Common.{
  ◌≡◌, refl, sym, ◌∙◌, ap, subst, some, true, false, not, ◌&&◌, ◌||◌, [], ◌∷◌, ltb, not-ltb→le,
  arith, length, Bool-cases, inl, inr,
}
use model_crypt.Common.Buffer.{Bytes, slice, slice_self, empty_bytes}
use model_crypt.Common.Result.{ok, invalid_arg, crypto, auth, ok_injective}
use model_crypt.Common.World.{bind-eq_ok, checked-eq_ok, bind_then}
use model_crypt.Platform.Libraries.{
  update, final, get_tag, set_tag, Libraries, prepared, processed, Tagged, Reverses,
}
use model_crypt.Platform.Aead.{fits_in_int, perform, new_context, begin, process, seal, open_sealed}
use model_crypt.Platform.Aead.History.{
  perform-eq_ok, perform-some, begin-prepared, begin-ok, process-processed, evp_moved,
}

-- The text and the tag of a message, out of one context.
pub record Sealed (L : Libraries) (key nonce aad plain text tag : Bytes) : Type 0 where
  pub tagged : Tagged L key nonce aad plain text tag
  pub empty : ltb 0 (length plain) ≡ false → [] ≡ text
  pub plain_fits : fits_in_int (length plain) ≡ true
  pub aad_fits : fits_in_int (length aad) ≡ true

-- The text of a message of which OpenSSL has accepted the tag.
pub record Opened (L : Libraries) (key nonce aad text tag plain : Bytes) : Type 0 where
  pub at_update : L.World
  pub at_final : L.World
  pub decrypted :
      ltb 0 (length text) ≡ true
      → (L.evp (prepared false key nonce aad) (update text) at_update).0 ≡ some plain
  pub empty : ltb 0 (length text) ≡ false → [] ≡ plain
  pub written : Bytes
  pub accepted :
      (L.evp (set_tag tag ∷ processed false key nonce aad text) final at_final).0 ≡ some written

module _ (L : Libraries) (key nonce aad : Bytes) where
  pub seal-Sealed :
      (plain : Bytes) (w : L.World) (text tag : Bytes)
      → (seal L
          (some key)
          (some nonce)
          (some aad)
          (length aad)
          (some plain)
          (length plain)
          (some tt)
          (some tt)
          w).0
        ≡ ok (text, tag)
      → Sealed L key nonce aad plain text tag
  unfolding seal
  seal-Sealed plain w text tag e =
      let (_, e0) = checked-eq_ok (ltb 0 (length plain) && false) invalid_arg _ w e in
      let (fits, e1) =
        checked-eq_ok (not (fits_in_int (length plain)) || not (fits_in_int (length aad)))
          invalid_arg _ w e0 in
      let (_, _, e2) = bind-eq_ok (new_context L) _ w e1 in
      let (begun, b, e3) = bind-eq_ok (begin L key nonce (some aad) (length aad) true) _ _ e2 in
      let same = begin-prepared L key nonce aad true _ begun b in
      let ((history, out), t, e4) = bind-eq_ok (process L begun plain (length plain)) _ _ e3 in
      let (grown, ran, empty) =
        process-processed L true key nonce aad plain _ history out (rw (← same) at t) in
      let ((finished, _), f, e5) = bind-eq_ok (perform L history final crypto) _ _ e4 in
      let (ended, _) = perform-eq_ok L history final crypto _ finished _ f in
      let ((_, tag_bytes), g, e6) = bind-eq_ok (perform L finished (get_tag 16) crypto) _ _ e5 in
      let (_, read) = perform-eq_ok L finished (get_tag 16) crypto _ _ tag_bytes g in
      let result = ok_injective e6 in
      subst (λ q. Sealed L key nonce aad plain q.0 q.1) result
        record {
          tagged = record {
            at_update = _;
            at_tag = _;
            encrypted = ran;
            tagged =
                evp_moved L (final ∷ processed true key nonce aad plain) finished (get_tag 16) _
                  tag_bytes (ap (λ h. final ∷ h) grown ∙ ended) read;
          };
          empty = empty;
          plain_fits = ground (arith, fits);
          aad_fits = ground (arith, fits);
        }

  -- When Open of a message succeeds, OpenSSL decrypted its text under the key, the nonce and the
  -- associated data, and then accepted the expected tag in the same context; the plaintext is what
  -- the decryption wrote, nothing for an empty text.
  pub open_sealed-Opened :
      (text tag : Bytes) (w : L.World) (plain : Bytes)
      → (open_sealed L
          (some key)
          (some nonce)
          (some aad)
          (length aad)
          (some text)
          (length text)
          (some tag)
          (some tt)
          w).0
        ≡ ok plain
      → Opened L key nonce aad text (slice tag 0 16) plain
  unfolding open_sealed
  open_sealed-Opened text tag w plain e =
      let (_, e0) = checked-eq_ok (ltb 0 (length text) && false) invalid_arg _ w e in
      let (_, e1) =
        checked-eq_ok (not (fits_in_int (length text)) || not (fits_in_int (length aad)))
          invalid_arg _ w e0 in
      let (_, _, e2) = bind-eq_ok (new_context L) _ w e1 in
      let (begun, b, e3) = bind-eq_ok (begin L key nonce (some aad) (length aad) false) _ _ e2 in
      let same = begin-prepared L key nonce aad false _ begun b in
      let ((history, out), t, e4) = bind-eq_ok (process L begun text (length text)) _ _ e3 in
      let (grown, ran, empty) =
        process-processed L false key nonce aad text _ history out (rw (← same) at t) in
      let ((installed, _), f, e5) =
        bind-eq_ok (perform L history (set_tag (slice tag 0 16)) crypto) _ _ e4 in
      let (put, _) = perform-eq_ok L history (set_tag (slice tag 0 16)) crypto _ installed _ f in
      let ((_, last), g, e6) = bind-eq_ok (perform L installed final auth) _ _ e5 in
      let (_, accepted) = perform-eq_ok L installed final auth _ _ last g in
      subst (λ q. Opened L key nonce aad text (slice tag 0 16) q) (ok_injective e6)
        record {
          at_update = _;
          at_final = _;
          decrypted = ran;
          empty = empty;
          written = last;
          accepted =
              evp_moved L (set_tag (slice tag 0 16) ∷ processed false key nonce aad text) installed
                final _ last (ap (λ h. set_tag (slice tag 0 16) ∷ h) grown ∙ put) accepted;
        }

  process-ok :
      Reverses L
      → (plain text tag : Bytes) (v : L.World) → Sealed L key nonce aad plain text tag
      → length plain ≡ length text
      → (process L (prepared false key nonce aad) text (length text) v).0
        ≡ ok (processed false key nonce aad text, plain)
  unfolding process
  process-ok r plain text tag v s long =
      let whole : slice text 0 (length text) ≡ text = slice_self text (length text) refl in
      elim (Bool-cases (ltb 0 (length text))) [
        | inl some_bytes ↦
            rw (some_bytes, whole)
              (perform-some L (prepared false key nonce aad) (update text) crypto v plain
                (r.decrypts key nonce aad plain text tag s.tagged long some_bytes v))
        | inr nothing ↦ rw nothing (
            ap (λ t. ok (prepared false key nonce aad, t))
              (sym (empty_bytes plain (omega (arith, not-ltb→le 0 (length text) nothing, long)))))
      ]

  pub open-seal :
      Reverses L
      → (plain : Bytes) (w : L.World) (text tag : Bytes) → length tag ≡ 16
      → length text ≡ length plain
      → Sealed L key nonce aad plain text tag
      → (v : L.World)
      → (open_sealed L
          (some key)
          (some nonce)
          (some aad)
          (length aad)
          (some text)
          (length text)
          (some tag)
          (some tt)
          v).0
        ≡ ok plain
  unfolding open_sealed
  open-seal r plain w text tag tagged long s v =
      let no_null : (ltb 0 (length text) && false) ≡ false = ground arith in
      let sizes : (not (fits_in_int (length text)) || not (fits_in_int (length aad))) ≡ false =
        rw (long, s.plain_fits, s.aad_fits) in
      let whole : slice tag 0 16 ≡ tag = slice_self tag 16 tagged in
      let h = processed false key nonce aad text in
      rw (no_null, sizes, whole)
        (bind_then (new_context L) _ v (unfold new_context in rw (r.ctx_new_succeeds v)) (λ v1.
          bind_then (begin L key nonce (some aad) (length aad) false) _ v1
            (begin-ok L r key nonce aad v1 (ground (arith, s.aad_fits)))
            (λ v2.
              bind_then (process L (prepared false key nonce aad) text (length text)) _ v2
                (process-ok r plain text tag v2 s (sym long))
                (λ v3.
                  let (o4, k4) = r.accepts_tag key nonce aad text tag tagged v3 in
                  bind_then (perform L h (set_tag tag) crypto) _ v3
                    (perform-some L h (set_tag tag) crypto v3 o4 k4)
                    (λ v4.
                      let (o5, k5) =
                        r.authenticates key nonce aad plain text tag s.tagged (sym long) v4 in
                      bind_then (perform L (set_tag tag ∷ h) final auth) _ v4
                        (perform-some L (set_tag tag ∷ h) final auth v4 o5 k5) (λ v5. refl))))))
