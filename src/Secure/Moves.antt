-- ===== src/Secure/Moves.antt =====
-- Blocks that change hands in src/crypt/secure_buffer.cc: allocated, moved, released, freed by the caller.
use model_crypt.Common.{
  ℕ, ◌+◌, ◌≡◌, ◌≢◌, ◌⊎◌, refl, sym, ◌∙◌, ap, some, none, arith, length-replicate, Bool-cases, inl,
  inr,
}
use model_crypt.Common.Buffer.{Bytes, zeros}
use model_crypt.Secure.{SecureBuffer, empty_buffer, Store, set}
use model_crypt.Secure.Owned.{Owned, set_same, set_other, set_cases, set-empty}

-- A buffer with an address is not one without.
pub differ_in_pointer :
    (s : Store) (i j q : ℕ) → (s.object i).pointer ≡ none → (s.object j).pointer ≡ some q → i ≢ j
differ_in_pointer s i j q e h equal =
    let no_way : none ≡ some q = sym e ∙ (ap (λ t. (s.object t).pointer) equal ∙ h) in cc

-- A block that is there is not where the next one will be.
not_next : (s : Store) → Owned s → (q : ℕ) (bs : Bytes) → s.block q ≡ some bs → s.next ≢ q
not_next s o q bs there equal =
    let no_way : none ≡ some bs = sym (o.fresh q (omega (arith, equal))) ∙ there in cc

-- A buffer that was empty, and has a new block.
abbrev pub filled : ℕ → ℕ → Store → Store
filled i size s = record s {
  next = s.next + 1;
  block = set s.block s.next (some (zeros size));
  object = set s.object i (record { pointer = some s.next; size = size });
}

pub filled-Owned :
    (i size : ℕ) (s : Store) → Owned s → (s.object i).pointer ≡ none → Owned (filled i size s)
filled-Owned i size s o e =
    let new : SecureBuffer = record { pointer = some s.next; size = size } in
    record {
      held = λ j q h. elim (set_cases s.object i new j) [
        | inl (_, is) ↦
            let at_next : some s.next ≡ some q = ap (λ t. t.pointer) (sym is) ∙ h in
            let equal : s.next ≡ q = cc in
            (
              zeros size,
              ap (set s.block s.next (some (zeros size))) (sym equal)
                  ∙ set_same s.block s.next (some (zeros size)),
              length-replicate size 0 ∙ ap (λ t. t.size) (sym is),
            )
        | inr (_, is) ↦
            let (bs, there, long) = o.held j q (ap (λ t. t.pointer) (sym is) ∙ h) in
            (
              bs,
              set_other s.block s.next (some (zeros size)) q (not_next s o q bs there) ∙ there,
              long ∙ ap (λ t. t.size) (sym is),
            )
      ];
      kept = λ j q h. elim (set_cases s.object i new j) [
        | inl (_, is) ↦
            let at_next : some s.next ≡ some q = ap (λ t. t.pointer) (sym is) ∙ h in
            let equal : s.next ≡ q = cc in
            elim (Bool-cases (s.released q)) [
              | inl r ↦ let (bs, there) = o.given q r in absurd (not_next s o q bs there equal)
              | inr unreleased ↦ unreleased
            ]
        | inr (_, is) ↦ o.kept j q (ap (λ t. t.pointer) (sym is) ∙ h)
      ];
      sole = λ j k q h h'. elim (set_cases s.object i new j) [
        | inl (ij, is) ↦ elim (set_cases s.object i new k) [
          | inl (ik, _) ↦ sym ij ∙ ik
          | inr (_, is') ↦
              let (bs, there, _) = o.held k q (ap (λ t. t.pointer) (sym is') ∙ h') in
              let at_next : some s.next ≡ some q = ap (λ t. t.pointer) (sym is) ∙ h in
              absurd (not_next s o q bs there (cc))
        ]
        | inr (_, is) ↦ elim (set_cases s.object i new k) [
          | inl (_, is') ↦
              let (bs, there, _) = o.held j q (ap (λ t. t.pointer) (sym is) ∙ h) in
              let at_next : some s.next ≡ some q = ap (λ t. t.pointer) (sym is') ∙ h' in
              absurd (not_next s o q bs there (cc))
          | inr (_, is') ↦
              o.sole j k q (ap (λ t. t.pointer) (sym is) ∙ h) (ap (λ t. t.pointer) (sym is') ∙ h')
        ]
      ];
      given = λ q r.
          let (bs, there) = o.given q r in
          (bs, set_other s.block s.next (some (zeros size)) q (not_next s o q bs there) ∙ there);
      found = λ q bs h. elim (set_cases s.block s.next (some (zeros size)) q) [
        | inl (equal, _) ↦ inr (i, ap (λ t. t.pointer) (set_same s.object i new) ∙ ap some equal)
        | inr (_, is) ↦ elim (o.found q bs (sym is ∙ h)) [
          | inl r ↦ inl r
          | inr (j, h') ↦ inr (
            j,
            ap (λ t. t.pointer) (set_other s.object i new j (differ_in_pointer s i j q e h')) ∙ h',
          )
        ]
      ];
      fresh = λ q low.
          set_other s.block s.next (some (zeros size)) q
            (λ equal. absurd (omega (arith, equal, low)))
          ∙ o.fresh q (omega (arith, low));
      wiped = o.wiped;
    }

-- A buffer that was empty, and has taken another's block.
abbrev pub moved : ℕ → ℕ → Store → Store
moved i other s = record s { object = set (set s.object i (s.object other)) other empty_buffer }

-- Whose block a buffer has after the move.
mover :
    (i other : ℕ) (s : Store) (j q : ℕ)
    → ((moved i other s).object j).pointer ≡ some q
    → (k : ℕ) × ((s.object k).pointer ≡ some q)
      × ((moved i other s).object j ≡ s.object k)
      × (((k ≡ other) × (i ≡ j)) ⊎ ((k ≡ j) × (other ≢ j)))
mover i other s j q h =
    let (differ, had, same) = set-empty (set s.object i (s.object other)) other j q h in
    elim (set_cases s.object i (s.object other) j) [
      | inl (ij, is) ↦ (other, ap (λ t. t.pointer) (sym is) ∙ had, same ∙ is, inl (refl, ij))
      | inr (_, is) ↦ (j, ap (λ t. t.pointer) (sym is) ∙ had, same ∙ is, inr (refl, differ))
    ]

pub moved-Owned :
    (i other : ℕ) (s : Store) → Owned s → (s.object i).pointer ≡ none → Owned (moved i other s)
moved-Owned i other s o e = record {
  held = λ j q h.
      let (k, had, same, _) = mover i other s j q h in
      let (bs, there, long) = o.held k q had in (bs, there, long ∙ ap (λ t. t.size) (sym same));
  kept = λ j q h. let (k, had, _, _) = mover i other s j q h in o.kept k q had;
  sole = λ j j' q h h'.
      let (k, had, _, who) = mover i other s j q h in
      let (k', had', _, who') = mover i other s j' q h' in
      let one = o.sole k k' q had had' in
      elim who [
        | inl (is, ij) ↦ elim who' [
          | inl (is', ij') ↦ sym ij ∙ ij'
          | inr (is', differ') ↦ absurd (differ' (sym is ∙ one ∙ is'))
        ]
        | inr (is, differ) ↦ elim who' [
          | inl (is', ij') ↦ absurd (differ (sym is' ∙ sym one ∙ is))
          | inr (is', differ') ↦ sym is ∙ one ∙ is'
        ]
      ];
  given = o.given;
  found =
      λ q bs h. elim (o.found q bs h) [ inl r ↦ inl r | inr (k, had) ↦ inr (new_owner q k had) ];
  fresh = o.fresh;
  wiped = o.wiped;
}
  where
    new_owner :
        (q k : ℕ)
        → (s.object k).pointer ≡ some q
        → (j : ℕ) × (((moved i other s).object j).pointer ≡ some q)
    new_owner q k had =
        let apart = differ_in_pointer s i k q e had in
        let taken = set s.object i (s.object other) in
        elim (set_cases taken other empty_buffer k) [
          | inr (differ, is) ↦
              (k, ap (λ t. t.pointer) (is ∙ set_other s.object i (s.object other) k apart) ∙ had)
          | inl (equal, _) ↦
              let differ : other ≢ i = λ same. apart (sym same ∙ equal) in
              (
                i,
                ap (λ t. t.pointer)
                      (set_other taken other empty_buffer i differ
                        ∙ set_same s.object i (s.object other))
                    ∙ (ap (λ t. (s.object t).pointer) equal ∙ had),
              )
        ]
