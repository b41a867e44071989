-- ===== src/Secure/Owned.antt =====
-- Who owns the blocks of src/crypt/secure_buffer.cc: every block that is there belongs to one
-- SecureBuffer, or to the caller who was given it.
use model_crypt.Common.{
  ℕ, ◌≤◌, ◌≡◌, ◌≢◌, ◌⊎◌, refl, sym, ◌∙◌, ap, Option, some, none, true, false, ◌∷◌, ◌==◌, length,
  All, Bool-cases, inl, inr, ==_iff, ==_self,
}
use model_crypt.Common.Buffer.{Bytes, zeros}
use model_crypt.Secure.{SecureBuffer, empty_buffer, Store, initial_store, set}

abbrev pub Wiped : Bytes → Type 0
Wiped bs = zeros (length bs) ≡ bs

pub record Owned (s : Store) : Type 0 where
  -- A buffer with an address has a block of its size there, which the caller does not have.
  pub held :
      (i p : ℕ)
      → (s.object i).pointer ≡ some p
      → (bs : Bytes) × (s.block p ≡ some bs) × (length bs ≡ (s.object i).size)
  pub kept : (i p : ℕ) → (s.object i).pointer ≡ some p → s.released p ≡ false
  -- No two buffers have one block.
  pub sole : (i j p : ℕ) → (s.object i).pointer ≡ some p → (s.object j).pointer ≡ some p → i ≡ j
  -- What the caller was given is there, and there is nothing else.
  pub given : (p : ℕ) → s.released p ≡ true → (bs : Bytes) × (s.block p ≡ some bs)
  pub found :
      (p : ℕ) (bs : Bytes)
      → s.block p ≡ some bs
      → (s.released p ≡ true) ⊎ ((i : ℕ) × ((s.object i).pointer ≡ some p))
  pub fresh : (p : ℕ) → s.next ≤ p → s.block p ≡ none
  -- Every block that a buffer freed was wiped.
  pub wiped : All Wiped s.freed

pub initial_store-Owned : Owned initial_store
initial_store-Owned = record {
  held = λ i p e. cc;
  kept = λ i p e. refl;
  sole = λ i j p e e'. cc;
  given = λ p e. cc;
  found = λ p bs e. cc;
  fresh = λ p h. refl;
  wiped = tt;
}

pub set_same : {A : Type 0} (f : ℕ → A) (i : ℕ) (a : A) → set f i a i ≡ a
set_same f i a = rw (==_self i)

pub set_other : {A : Type 0} (f : ℕ → A) (i : ℕ) (a : A) (j : ℕ) → i ≢ j → set f i a j ≡ f j
set_other f i a j differ = elim (Bool-cases (i == j)) [
  | inl equal ↦ absurd (differ ((==_iff i j).0 equal))
  | inr other ↦ rw other
]

pub set_cases :
    {A : Type 0} (f : ℕ → A) (i : ℕ) (a : A) (j : ℕ)
    → ((i ≡ j) × (set f i a j ≡ a)) ⊎ ((i ≢ j) × (set f i a j ≡ f j))
set_cases f i a j = elim (Bool-cases (i == j)) [
  | inl equal ↦ inl ((==_iff i j).0 equal, rw equal refl)
  | inr other ↦
      inr
        (λ same. let no_way : true ≡ false = sym ((==_iff i j).1 same) ∙ other in cc, rw other refl)
]

-- An entry that has been set to nothing is not the one that has something.
pub set-none :
    {A : Type 0} (f : ℕ → Option A) (i j : ℕ) (a : A)
    → set f i none j ≡ some a
    → (i ≢ j) × (f j ≡ some a)
set-none f i j a e = elim (Bool-cases (i == j)) [
  | inl equal ↦ let no_way = rw equal at e in cc
  | inr other ↦
      (λ same. let no_way : true ≡ false = sym ((==_iff i j).1 same) ∙ other in cc, rw other at e)
]

pub set-empty :
    (object : ℕ → SecureBuffer) (i j q : ℕ)
    → (set object i empty_buffer j).pointer ≡ some q
    → (i ≢ j) × ((object j).pointer ≡ some q) × (set object i empty_buffer j ≡ object j)
set-empty object i j q e = elim (Bool-cases (i == j)) [
  | inl equal ↦ let no_way = rw equal at e in cc
  | inr other ↦ (
    λ same. let no_way : true ≡ false = sym ((==_iff i j).1 same) ∙ other in cc,
    rw other at e,
    rw other,
  )
]

-- A buffer that has been emptied, its block gone, its contents wiped.
abbrev pub cleared : ℕ → ℕ → Bytes → Store → Store
cleared i p bs s = record s {
  block = set s.block p none;
  object = set s.object i empty_buffer;
  freed = bs ∷ s.freed;
}

pub cleared-Owned :
    (i p : ℕ) (bs : Bytes) (s : Store)
    → Owned s
    → (s.object i).pointer ≡ some p
    → Wiped bs
    → Owned (cleared i p bs s)
cleared-Owned i p bs s o e clean = record {
  held = λ j q h.
      let (differ, had, same) = set-empty s.object i j q h in
      let (bs', there, long) = o.held j q had in
      let apart : p ≢ q = λ equal. differ (o.sole i j q (e ∙ ap some equal) had) in
      (bs', set_other s.block p none q apart ∙ there, long ∙ ap (λ t. t.size) (sym same));
  kept = λ j q h. o.kept j q (set-empty s.object i j q h).1;
  sole = λ j k q h h'. o.sole j k q (set-empty s.object i j q h).1 (set-empty s.object i k q h').1;
  given = λ q h.
      let (bs', there) = o.given q h in
      let apart : p ≢ q =
        λ equal. let no_way : false ≡ true = sym (o.kept i q (e ∙ ap some equal)) ∙ h in cc in
      (bs', set_other s.block p none q apart ∙ there);
  found = λ q bs' h.
      let (differ, there) = set-none s.block p q bs' h in
      elim (o.found q bs' there) [
        | inl r ↦ inl r
        | inr (j, h') ↦
            let other : i ≢ j = λ equal.
              let both : some p ≡ some q = sym e ∙ (ap (λ t. (s.object t).pointer) equal ∙ h') in
              differ (cc) in
            inr (j, ap (λ t. t.pointer) (set_other s.object i empty_buffer j other) ∙ h')
      ];
  fresh = λ q h. elim (Bool-cases (p == q)) [
    | inl equal ↦ rw equal
    | inr other ↦ rw other (o.fresh q h)
  ];
  wiped = (clean, o.wiped);
}
