-- ===== src/Common/Texts.antt =====
-- Texts as lists of bytes, compared and written as literals.
use Prim.Native.Char.{code}
use Prim.Native.String.{String}
use Prim.Native.Nat.{ℕ}
use mathlib.Core.Path.{◌≡◌, refl}
use mathlib.Core.Bool.{Bool, true, false, ◌&&◌}
use mathlib.Core.List.{List, [], ◌∷◌}
use mathlib.Core.Logic.{inl, inr}
use model_crypt.Common.Tests.{◌==◌, ==_iff, ==_self, Bool-cases}

-- The bytes of a text, which is ASCII.
abbrev pub codes : String → List ℕ
codes String.[] = []
codes (String.◌∷◌ c s) = code c ∷ codes s

unfoldable pub same : List ℕ → List ℕ → Bool
same [] [] = true
same [] (c ∷ t) = false
same (b ∷ s) [] = false
same (b ∷ s) (c ∷ t) = b == c && same s t

pub same_self : (s : List ℕ) → same s s ≡ true
unfolding same
same_self [] = refl
same_self (b ∷ s) = rw (==_self b) (same_self s)

pub same-≡ : (s t : List ℕ) → same s t ≡ true → s ≡ t
unfolding same
same-≡ [] [] e = refl
same-≡ [] (c ∷ t) e = cc
same-≡ (b ∷ s) [] e = cc
same-≡ (b ∷ s) (c ∷ t) e = elim (Bool-cases (b == c)) [
  | inl equal ↦
      let heads = (==_iff b c).0 equal in
      let tails = same-≡ s t (rw equal at e) in cc (heads, tails)
  | inr other ↦ let no_way = rw other at e in cc
]
