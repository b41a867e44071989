-- ===== src/Secure/Runs.antt =====
-- Programs over src/crypt/secure_buffer.cc, as sequences of its operations.
use model_crypt.Common.{
  ℕ, ◌≤◌, ◌≡◌, ◌≢◌, refl, sym, ◌∙◌, ap, subst, Option, some, none, Bool, true, false, [], ◌∷◌, ◌++◌,
  ◌==◌, arith, length, drop, length-replicate, length-append, length-drop, append-nil, Bool-cases,
  inl, inr, ==_iff, le→not-ltb,
}
use model_crypt.Common.Buffer.{Bytes, zeros, empty_bytes}
use model_crypt.Common.Result.{some_injective}
use model_crypt.Secure.{
  empty_buffer, Store, initial_store, secure_wipe, wipe_and_free_block, wipe_and_free, reset,
  move_construct, move_assign, release, mc_free, write_block, write_data,
}
use model_crypt.Secure.Owned.{Wiped, Owned, initial_store-Owned, set_same, cleared, cleared-Owned}
use model_crypt.Secure.Moves.{filled, filled-Owned, moved, moved-Owned}
use model_crypt.Secure.Releases.{
  scrubbed, scrubbed-Owned, dropped, dropped-Owned, handed-Owned, write_block-Owned,
  write_pointer-Owned,
}

-- What the manual of OPENSSL_cleanse says.
abbrev pub Cleanses : (ℕ → Bytes → Bytes) → Type 0
Cleanses cleanse = (n : ℕ) (bs : Bytes) → n ≤ length bs → cleanse n bs ≡ zeros n ++ drop n bs

drop_all : (bs : Bytes) → drop (length bs) bs ≡ []
drop_all [] = refl
drop_all (b ∷ bs) = drop_all bs

module _ (cleanse : ℕ → Bytes → Bytes) (cleanses : Cleanses cleanse) where
  length-cleanse : (n : ℕ) (bs : Bytes) → n ≤ length bs → length (cleanse n bs) ≡ length bs
  length-cleanse n bs low = rw (cleanses n bs low) (
      omega (
        arith,
        length-append (zeros n) (drop n bs),
        length-replicate {A = ℕ} n 0,
        length-drop n bs,
        low,
      ))

  cleanse-Wiped : (bs : Bytes) → Wiped (cleanse (length bs) bs)
  cleanse-Wiped bs =
      let all : cleanse (length bs) bs ≡ zeros (length bs) =
        cleanses (length bs) bs (omega arith)
        ∙ (ap (λ t. zeros (length bs) ++ t) (drop_all bs) ∙ append-nil (zeros (length bs))) in
      rw all (ap zeros (length-replicate (length bs) 0))

  -- A store after SecureWipe of a block.
  record Scrubbed (p size : ℕ) (bs : Bytes) (s t : Store) : Type 0 where
    owned : Owned t
    contents : Bytes
    there : t.block p ≡ some contents
    objects : t.object ≡ s.object
    callers : t.released ≡ s.released
    clean : size ≡ length bs → Wiped contents

  wiping :
      (p size : ℕ) (bs : Bytes) (s : Store)
      → Owned s
      → s.block p ≡ some bs
      → size ≤ length bs
      → (t : Store) × (secure_wipe cleanse (some p) size s ≡ some t) × Scrubbed p size bs s t
  unfolding secure_wipe
  wiping p size bs s o here low = elim (Bool-cases (size == 0)) [
    | inl nothing ↦ (
      s,
      rw nothing,
      record {
        owned = o;
        contents = bs;
        there = here;
        objects = refl;
        callers = refl;
        clean = λ all.
            let zero_size : size ≡ 0 = (==_iff size 0).0 nothing in
            rw (empty_bytes bs (sym all ∙ zero_size)) refl;
      },
    )
    | inr some_bytes ↦ (
      scrubbed p (cleanse size bs) s,
      rw (some_bytes, here, le→not-ltb (length bs) size low),
      record {
        owned = scrubbed-Owned p bs (cleanse size bs) s o here (length-cleanse size bs low);
        contents = cleanse size bs;
        there = set_same s.block p (some (cleanse size bs));
        objects = refl;
        callers = refl;
        clean = λ all. rw all (cleanse-Wiped bs);
      },
    )
  ]

  -- WipeAndFree never touches memory that is not there, and leaves its buffer empty.
  freeing :
      (i : ℕ) (m : Option ℕ) (s : Store)
      → Owned s
      → (s.object i).pointer ≡ m
      → (t : Store) × (wipe_and_free_block cleanse i m (s.object i).size s ≡ some t)
        × Owned t
        × ((t.object i).pointer ≡ none)
  unfolding wipe_and_free_block
  freeing i none s o e = (s, refl, o, e)
  freeing i (some p) s o e =
      let (bs, here, long) = o.held i p e in
      let (t, ran, w) = wiping p (s.object i).size bs s o here (omega (arith, long)) in
      (
        cleared i p w.contents t,
        rw (ran, w.there) refl,
        cleared-Owned i p w.contents t w.owned (ap (λ o. (o i).pointer) w.objects ∙ e)
            (w.clean (sym long)),
        ap (λ t. t.pointer) (set_same t.object i empty_buffer),
      )

  freeing_all :
      (i : ℕ) (s : Store)
      → Owned s
      → (t : Store) × (wipe_and_free cleanse i s ≡ some t) × Owned t × ((t.object i).pointer ≡ none)
  unfolding wipe_and_free
  freeing_all i s o = freeing i (s.object i).pointer s o refl

  resetting :
      (i size : ℕ) (granted : Bool) (s : Store)
      → Owned s
      → (r : Bool) × (t : Store) × (reset cleanse i size granted s ≡ some (r, t)) × Owned t
  unfolding reset
  resetting i size granted s o =
      let (u, ran, owned, empty) = freeing_all i s o in
      elim (Bool-cases (size == 0)) [
        | inl nothing ↦ (true, u, rw (ran, nothing) refl, owned)
        | inr some_bytes ↦ elim (Bool-cases granted) [
          | inl yes_ ↦ (
            true,
            filled i size u,
            rw (ran, some_bytes, yes_) refl,
            filled-Owned i size u owned empty,
          )
          | inr refused ↦ (false, u, rw (ran, some_bytes, refused) refl, owned)
        ]
      ]

  moving :
      (i other : ℕ) (s : Store)
      → Owned s
      → (t : Store) × (move_assign cleanse i other s ≡ some t) × Owned t
  unfolding move_assign
  moving i other s o = elim (Bool-cases (i == other)) [
    | inl same ↦ (s, rw same, o)
    | inr differ ↦
        let (u, ran, owned, empty) = freeing_all i s o in
        (moved i other u, rw (differ, ran) refl, moved-Owned i other u owned empty)
  ]

  caller_frees :
      (p size : ℕ) (bs : Bytes) (s : Store)
      → Owned s
      → s.released p ≡ true
      → s.block p ≡ some bs
      → size ≤ length bs
      → (t : Store) × (mc_free cleanse (some p) size s ≡ some t) × Owned t
  unfolding mc_free
  caller_frees p size bs s o r here low =
      let (t, ran, w) = wiping p size bs s o here low in
      (dropped p t, rw (ran, w.there) refl, dropped-Owned p t w.owned (ap (λ f. f p) w.callers ∙ r))

  -- One statement of a program. A buffer is constructed where none is alive, any bytes may be written
  -- into its block through data(), and into one that the caller was given, and a caller frees an
  -- address that it was given, once, by the size of the block or by less.
  pub data Step (s t : Store) : Type 0 where
    constructs_or_resets :
        (i size : ℕ) (granted r : Bool) → reset cleanse i size granted s ≡ some (r, t) → Step s t
    destroys : (i : ℕ) → wipe_and_free cleanse i s ≡ some t → Step s t
    move_constructs :
        (i other : ℕ) → (s.object i).pointer ≡ none → move_construct i other s ≡ t → Step s t
    move_assigns : (i other : ℕ) → move_assign cleanse i other s ≡ some t → Step s t
    releases : (i : ℕ) (p : Option ℕ) → release i s ≡ (p, t) → Step s t
    writes_data : (i offset : ℕ) (bytes : Bytes) → write_data i offset bytes s ≡ some t → Step s t
    caller_writes :
        (p offset : ℕ) (bytes : Bytes)
        → s.released p ≡ true
        → write_block p offset bytes (s.block p) s ≡ some t
        → Step s t
    frees :
        (p size : ℕ) (bs : Bytes)
        → s.released p ≡ true
        → s.block p ≡ some bs
        → size ≤ length bs
        → mc_free cleanse (some p) size s ≡ some t
        → Step s t

  pub data Reach : Store → Type 0 where
    start : Reach initial_store
    next : {s t : Store} → Reach s → Step s t → Reach t

  Step-Owned : {s t : Store} → Step s t → Owned s → Owned t
  unfolding move_construct release write_data
  Step-Owned {s} {t} (constructs_or_resets i size granted r e) o =
      let (r', u, ran, owned) = resetting i size granted s o in
      let both : ◌≡◌ {A = Bool × Store} (r', u) (r, t) = some_injective (sym ran ∙ e) in
      subst Owned (ap (λ q. q.1) both) owned
  Step-Owned {s} {t} (destroys i e) o =
      let (u, ran, owned, _) = freeing_all i s o in subst Owned (some_injective (sym ran ∙ e)) owned
  Step-Owned {s} {t} (move_constructs i other empty e) o =
      subst Owned e (moved-Owned i other s o empty)
  Step-Owned {s} {t} (move_assigns i other e) o =
      let (u, ran, owned) = moving i other s o in subst Owned (some_injective (sym ran ∙ e)) owned
  Step-Owned {s} {t} (releases i p e) o = subst Owned (ap (λ q. q.1) e) (handed-Owned i s o)
  Step-Owned {s} {t} (writes_data i offset bytes e) o =
      write_pointer-Owned (s.object i).pointer offset bytes s t o e
  Step-Owned {s} {t} (caller_writes p offset bytes r e) o =
      write_block-Owned p offset bytes (s.block p) s t o refl e
  Step-Owned {s} {t} (frees p size bs r here low e) o =
      let (u, ran, owned) = caller_frees p size bs s o r here low in
      subst Owned (some_injective (sym ran ∙ e)) owned

  -- In every store that a program reaches, each live block belongs to exactly one SecureBuffer, of the
  -- block's size, or to the caller alone, and every block that a SecureBuffer has freed held zeros
  -- only when it was freed, whatever had been written into it. OPENSSL_cleanse does what its manual
  -- says.
  pub Reach-Owned : {s : Store} → Reach s → Owned s
  Reach-Owned start = initial_store-Owned
  Reach-Owned (next r step) = Step-Owned step (Reach-Owned r)

  -- From every store that a program reaches, no operation of a SecureBuffer frees or wipes memory that is
  -- not there, and neither does mc_free of an address that the caller was given and has not freed, by at
  -- most the size of its block. OPENSSL_cleanse does what its manual says.
  pub Reach-safe :
      {s : Store}
      → Reach s
      → ((i size : ℕ) (granted : Bool) → reset cleanse i size granted s ≢ none)
        × ((i : ℕ) → wipe_and_free cleanse i s ≢ none)
        × ((i other : ℕ) → move_assign cleanse i other s ≢ none)
        × ((p : ℕ)
            → s.released p ≡ true
            → (bs : Bytes) × (s.block p ≡ some bs)
              × ((size : ℕ) → size ≤ length bs → mc_free cleanse (some p) size s ≢ none))
  Reach-safe {s} reach =
      let o = Reach-Owned reach in
      (
        λ i size granted e.
            let (_, t, ran, _) = resetting i size granted s o in let no_way = sym ran ∙ e in cc,
        λ i e. let (t, ran, _, _) = freeing_all i s o in let no_way = sym ran ∙ e in cc,
        λ i other e. let (t, ran, _) = moving i other s o in let no_way = sym ran ∙ e in cc,
        λ p r.
            let (bs, here) = o.given p r in
            (
              bs,
              here,
              λ size low e.
                  let (t, ran, _) = caller_frees p size bs s o r here low in
                  let no_way = sym ran ∙ e in cc,
            ),
      )
