-- ===== src/Platform/Aead/History.antt =====
-- The calls that a context has had when Begin and the text are through, in src/crypt/aead.cc.
use model_crypt.Common.{
  ◌<◌, ◌^◌, ◌≡◌, refl, sym, ◌∙◌, ap, Option, some, none, Bool, true, false, List, [], ◌∷◌, ltb,
  length, if◌then◌else◌, Bool-cases, inl, inr,
}
use model_crypt.Common.Buffer.{Bytes, slice, slice_self}
use model_crypt.Common.Result.{Error, ok, crypto, ok_injective}
use model_crypt.Common.World.{bind-eq_ok, bind_then}
use model_crypt.Platform.Libraries.{
  Call, init_cipher, set_iv_length, init_key, update_aad, update, Libraries, prepared, processed,
  Accepts, Reverses,
}
use model_crypt.Platform.Aead.{recorded, perform, add_aad, begin, process}

recorded-eq_ok :
    {W : Type 0} (history : List Call) (c : Call) (error : Error) (q : Option Bytes × W)
    (history' : List Call) (out : Bytes)
    → (recorded history c error q).0 ≡ ok (history', out)
    → (c ∷ history ≡ history') × (q.0 ≡ some out)
recorded-eq_ok history c error (none, w) history' out e = cc
recorded-eq_ok history c error (some x, w) history' out e =
    let same = ok_injective e in (ap (λ t. t.0) same, ap (λ t. some t.1) same)

recorded-some :
    {W : Type 0} (history : List Call) (c : Call) (error : Error) (q : Option Bytes × W)
    (out : Bytes)
    → q.0 ≡ some out
    → (recorded history c error q).0 ≡ ok (c ∷ history, out)
recorded-some history c error (none, w) out e = cc
recorded-some history c error (some x, w) out e = cc

module _ (L : Libraries) where
  pub perform-eq_ok :
      (history : List Call) (c : Call) (error : Error) (w : L.World) (history' : List Call)
      (out : Bytes)
      → (perform L history c error w).0 ≡ ok (history', out)
      → (c ∷ history ≡ history') × ((L.evp history c w).0 ≡ some out)
  unfolding perform
  perform-eq_ok history c error w history' out e =
      recorded-eq_ok history c error (L.evp history c w) history' out e

  pub perform-some :
      (history : List Call) (c : Call) (error : Error) (w : L.World) (out : Bytes)
      → (L.evp history c w).0 ≡ some out
      → (perform L history c error w).0 ≡ ok (c ∷ history, out)
  unfolding perform
  perform-some history c error w out e = recorded-some history c error (L.evp history c w) out e

  add_aad-added :
      (history : List Call) (aad : Bytes) (w : L.World) (history' : List Call)
      → (add_aad L history (some aad) (length aad) w).0 ≡ ok history'
      → (if ltb 0 (length aad) then update_aad aad ∷ history else history) ≡ history'
  unfolding add_aad
  add_aad-added history aad w history' e =
      let whole : slice aad 0 (length aad) ≡ aad = slice_self aad (length aad) refl in
      elim (Bool-cases (ltb 0 (length aad))) [
        | inl some_bytes ↦
            let ((h, o), ran, same) =
              bind-eq_ok (perform L history (update_aad aad) crypto) _ w
                (rw (some_bytes, whole) at e) in
            rw some_bytes
              ((perform-eq_ok history (update_aad aad) crypto w h o ran).0 ∙ ok_injective same)
        | inr empty ↦ rw empty (ok_injective (rw empty at e))
      ]

  -- A context that Begin has prepared has had exactly these calls.
  pub begin-prepared :
      (key nonce aad : Bytes) (encrypt : Bool) (w : L.World) (history : List Call)
      → (begin L key nonce (some aad) (length aad) encrypt w).0 ≡ ok history
      → prepared encrypt key nonce aad ≡ history
  unfolding begin
  begin-prepared key nonce aad encrypt w history e =
      let ((h1, o1), e1, r1) = bind-eq_ok (perform L [] (init_cipher encrypt) crypto) _ w e in
      let ((h2, o2), e2, r2) = bind-eq_ok (perform L h1 (set_iv_length 12) crypto) _ _ r1 in
      let ((h3, o3), e3, r3) =
        bind-eq_ok (perform L h2 (init_key key nonce encrypt) crypto) _ _ r2 in
      let s1 = (perform-eq_ok [] (init_cipher encrypt) crypto _ h1 o1 e1).0 in
      let s2 = (perform-eq_ok h1 (set_iv_length 12) crypto _ h2 o2 e2).0 in
      let s3 = (perform-eq_ok h2 (init_key key nonce encrypt) crypto _ h3 o3 e3).0 in
      let keyed : init_key key nonce encrypt ∷ set_iv_length 12 ∷ init_cipher encrypt ∷ [] ≡ h3 =
        cc in
      ap (λ h. if ltb 0 (length aad) then update_aad aad ∷ h else h) keyed
      ∙ add_aad-added h3 aad _ history r3

  -- Its text, if there is any, is one more call.
  pub process-processed :
      (encrypt : Bool) (key nonce aad text : Bytes) (w : L.World) (history : List Call)
      (out : Bytes)
      → (process L (prepared encrypt key nonce aad) text (length text) w).0 ≡ ok (history, out)
      → (processed encrypt key nonce aad text ≡ history)
        × (ltb 0 (length text) ≡ true
            → (L.evp (prepared encrypt key nonce aad) (update text) w).0 ≡ some out)
        × (ltb 0 (length text) ≡ false → [] ≡ out)
  unfolding process
  process-processed encrypt key nonce aad text w history out e =
      let whole : slice text 0 (length text) ≡ text = slice_self text (length text) refl in
      let h = prepared encrypt key nonce aad in
      elim (Bool-cases (ltb 0 (length text))) [
        | inl some_bytes ↦
            let (same, ran) =
              perform-eq_ok h (update text) crypto w history out (rw (some_bytes, whole) at e) in
            (rw some_bytes same, λ _. ran, λ no. let bad = sym some_bytes ∙ no in cc)
        | inr empty ↦
            let same = ok_injective (rw empty at e) in
            (
              rw empty (ap (λ t. t.0) same),
              λ yes_. let bad = sym empty ∙ yes_ in cc,
              λ _. ap (λ t. t.1) same,
            )
      ]

  add_aad-ok :
      (history : List Call) (aad : Bytes) (v : L.World)
      → Accepts L history (update_aad aad)
      → (add_aad L history (some aad) (length aad) v).0
        ≡ ok (if ltb 0 (length aad) then update_aad aad ∷ history else history)
  unfolding add_aad
  add_aad-ok history aad v accepts =
      let whole : slice aad 0 (length aad) ≡ aad = slice_self aad (length aad) refl in
      elim (Bool-cases (ltb 0 (length aad))) [
        | inl some_bytes ↦
            let (o, k) = accepts v in
            rw (some_bytes, whole)
              (bind_then (perform L history (update_aad aad) crypto) _ v
                (perform-some history (update_aad aad) crypto v o k) (λ v1. refl))
        | inr empty ↦ rw empty refl
      ]

  pub begin-ok :
      Reverses L
      → (key nonce aad : Bytes) (v : L.World) → length aad < 2 ^ 31
      → (begin L key nonce (some aad) (length aad) false v).0 ≡ ok (prepared false key nonce aad)
  unfolding begin
  begin-ok r key nonce aad v short =
      let h1 = init_cipher false ∷ [] in
      let h2 = set_iv_length 12 ∷ h1 in
      let h3 = init_key key nonce false ∷ h2 in
      let (o1, k1) = r.accepts_cipher v in
      bind_then (perform L [] (init_cipher false) crypto) _ v
        (perform-some [] (init_cipher false) crypto v o1 k1)
        (λ v1.
          let (o2, k2) = r.accepts_iv_length v1 in
          bind_then (perform L h1 (set_iv_length 12) crypto) _ v1
            (perform-some h1 (set_iv_length 12) crypto v1 o2 k2)
            (λ v2.
              let (o3, k3) = r.accepts_key key nonce v2 in
              bind_then (perform L h2 (init_key key nonce false) crypto) _ v2
                (perform-some h2 (init_key key nonce false) crypto v2 o3 k3)
                (λ v3. add_aad-ok h3 aad v3 (r.accepts_aad key nonce aad short))))

  -- The same call, after a history that is found to be equal.
  pub evp_moved :
      (h h' : List Call) (c : Call) (w : L.World) (out : Bytes)
      → h ≡ h'
      → (L.evp h' c w).0 ≡ some out
      → (L.evp h c w).0 ≡ some out
  evp_moved h h' c w out e ran = rw e ran
