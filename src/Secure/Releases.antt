-- ===== src/Secure/Releases.antt =====
-- Blocks that are wiped, handed to the caller, and freed, in src/crypt/secure_buffer.cc and mc_free.
use model_crypt.Common.{
  ℕ, ◌≡◌, ◌≢◌, ◌⊎◌, refl, sym, ◌∙◌, ap, Option, some, none, Bool, true, false, length, inl, inr,
  ◌+◌, ltb, subst, Bool-cases, not-ltb→le,
}
use model_crypt.Common.Buffer.{Bytes, memcpy, length-memcpy}
use model_crypt.Common.Result.{some_injective}
use model_crypt.Secure.{empty_buffer, Store, set, marked, write_block, write_pointer}
use model_crypt.Secure.Owned.{Owned, set_same, set_other, set_cases, set-none, set-empty}

-- Other contents for a block.
abbrev pub scrubbed : ℕ → Bytes → Store → Store
scrubbed p z s = record s { block = set s.block p (some z) }

pub scrubbed-Owned :
    (p : ℕ) (bs z : Bytes) (s : Store)
    → Owned s
    → s.block p ≡ some bs
    → length z ≡ length bs
    → Owned (scrubbed p z s)
scrubbed-Owned p bs z s o here long = record {
  held = λ j q h.
      let (bs', there, long') = o.held j q h in
      elim (set_cases s.block p (some z) q) [
        | inl (equal, is) ↦
            let both : some bs ≡ some bs' = sym here ∙ (ap s.block equal ∙ there) in
            let one : bs ≡ bs' = cc in (z, is, long ∙ ap length one ∙ long')
        | inr (_, is) ↦ (bs', is ∙ there, long')
      ];
  kept = o.kept;
  sole = o.sole;
  given = λ q r. elim (set_cases s.block p (some z) q) [
    | inl (_, is) ↦ (z, is)
    | inr (_, is) ↦ let (bs', there) = o.given q r in (bs', is ∙ there)
  ];
  found = λ q bs' h. elim (set_cases s.block p (some z) q) [
    | inl (equal, _) ↦ o.found q bs (ap s.block (sym equal) ∙ here)
    | inr (_, is) ↦ o.found q bs' (sym is ∙ h)
  ];
  fresh = λ q low. elim (set_cases s.block p (some z) q) [
    | inl (equal, _) ↦
        let no_way : none ≡ some bs = sym (o.fresh q low) ∙ (ap s.block (sym equal) ∙ here) in cc
    | inr (_, is) ↦ is ∙ o.fresh q low
  ];
  wiped = o.wiped;
}

pub write_block-Owned :
    (p offset : ℕ) (bytes : Bytes) (m : Option Bytes) (s t : Store)
    → Owned s
    → s.block p ≡ m
    → write_block p offset bytes m s ≡ some t
    → Owned t
write_block-Owned p offset bytes none s t o here e = cc
write_block-Owned p offset bytes (some bs) s t o here e =
    elim (Bool-cases (ltb (length bs) (offset + length bytes))) [
      | inl outside ↦ let no_way = rw outside at e in cc
      | inr inside ↦
          let written = rw inside at e in
          subst Owned (some_injective written) (
            scrubbed-Owned p bs (memcpy bs offset bytes) s o here (
              length-memcpy bs bytes offset
                (not-ltb→le (length bs) (offset + length bytes) inside)))
    ]

pub write_pointer-Owned :
    (m : Option ℕ) (offset : ℕ) (bytes : Bytes) (s t : Store)
    → Owned s
    → write_pointer m offset bytes s ≡ some t
    → Owned t
write_pointer-Owned none offset bytes s t o e = cc
write_pointer-Owned (some p) offset bytes s t o e =
    write_block-Owned p offset bytes (s.block p) s t o refl e

-- A block of the caller that is gone.
abbrev pub dropped : ℕ → Store → Store
dropped p s = record s { block = set s.block p none; released = set s.released p false }

pub dropped-Owned : (p : ℕ) (s : Store) → Owned s → s.released p ≡ true → Owned (dropped p s)
dropped-Owned p s o r =
    let other_block : (j q : ℕ) → (s.object j).pointer ≡ some q → p ≢ q = λ j q h equal.
      let no_way : false ≡ true = sym (o.kept j q h) ∙ (ap s.released (sym equal) ∙ r) in cc in
    record {
      held = λ j q h.
          let (bs, there, long) = o.held j q h in
          (bs, set_other s.block p none q (other_block j q h) ∙ there, long);
      kept = λ j q h. set_other s.released p false q (other_block j q h) ∙ o.kept j q h;
      sole = o.sole;
      given = λ q r'. elim (set_cases s.released p false q) [
        | inl (_, is) ↦ let no_way : false ≡ true = sym is ∙ r' in cc
        | inr (differ, is) ↦
            let (bs, there) = o.given q (sym is ∙ r') in
            (bs, set_other s.block p none q differ ∙ there)
      ];
      found = λ q bs h.
          let (differ, there) = set-none s.block p q bs h in
          elim (o.found q bs there) [
            | inl r' ↦ inl (set_other s.released p false q differ ∙ r')
            | inr k ↦ inr k
          ];
      fresh = λ q low. elim (set_cases s.block p none q) [
        | inl (_, is) ↦ is
        | inr (_, is) ↦ is ∙ o.fresh q low
      ];
      wiped = o.wiped;
    }

-- A buffer that has given its block, if it had one, to the caller.
abbrev pub handed : ℕ → Store → Store
handed i s = record s {
  object = set s.object i empty_buffer;
  released = marked (s.object i).pointer s.released;
}

marked-other :
    (m : Option ℕ) (released : ℕ → Bool) (q : ℕ) → m ≢ some q → marked m released q ≡ released q
marked-other none released q differ = refl
marked-other (some p) released q differ =
    set_other released p true q (λ equal. differ (ap some equal))

marked-true :
    (m : Option ℕ) (released : ℕ → Bool) (q : ℕ) → released q ≡ true → marked m released q ≡ true
marked-true none released q r = r
marked-true (some p) released q r = elim (set_cases released p true q) [
  | inl (_, is) ↦ is
  | inr (_, is) ↦ is ∙ r
]

marked_inv :
    (m : Option ℕ) (released : ℕ → Bool) (q : ℕ)
    → marked m released q ≡ true
    → (m ≡ some q) ⊎ (released q ≡ true)
marked_inv none released q r = inr r
marked_inv (some p) released q r = elim (set_cases released p true q) [
  | inl (equal, _) ↦ inl (ap some equal)
  | inr (_, is) ↦ inr (sym is ∙ r)
]

pub handed-Owned : (i : ℕ) (s : Store) → Owned s → Owned (handed i s)
handed-Owned i s o = record {
  held = λ j q h.
      let (_, had, same) = set-empty s.object i j q h in
      let (bs, there, long) = o.held j q had in (bs, there, long ∙ ap (λ t. t.size) (sym same));
  kept = λ j q h.
      let (differ, had, _) = set-empty s.object i j q h in
      marked-other (s.object i).pointer s.released q (λ e. differ (o.sole i j q e had))
      ∙ o.kept j q had;
  sole = λ j k q h h'. o.sole j k q (set-empty s.object i j q h).1 (set-empty s.object i k q h').1;
  given = λ q r. elim (marked_inv (s.object i).pointer s.released q r) [
    | inl e ↦ let (bs, there, _) = o.held i q e in (bs, there)
    | inr r' ↦ o.given q r'
  ];
  found = λ q bs h. elim (o.found q bs h) [
    | inl r ↦ inl (marked-true (s.object i).pointer s.released q r)
    | inr (k, had) ↦ elim (set_cases s.object i empty_buffer k) [
      | inl (equal, _) ↦
          let mine : (s.object i).pointer ≡ some q = ap (λ t. (s.object t).pointer) equal ∙ had in
          inl (ap (λ t. marked t s.released q) mine ∙ set_same s.released q true)
      | inr (_, is) ↦ inr (k, ap (λ t. t.pointer) is ∙ had)
    ]
  ];
  fresh = o.fresh;
  wiped = o.wiped;
}
