-- ===== src/Files/Paths.antt =====
-- DirectoryOf of src/util/file_io.cc, and the template of the temporary file.
use model_crypt.Common.{
  ℕ, zero, suc, ◌-◌, ◌≡◌, ◌≢◌, refl, Option, some, none, false, [], ◌∷◌, ◌++◌, length, take,
  take-append, ◌==◌, if◌then◌else◌, All, ==_iff, ==_self, Bool-cases, inl, inr,
}
use model_crypt.Common.Buffer.{Bytes, byte_at}
use model_crypt.Common.Texts.{codes}

-- std::string::find_last_of
unfoldable pub find_last_of : Bytes → ℕ → Option ℕ
find_last_of [] c = none
find_last_of (b ∷ path) c = elim (find_last_of path c) [
  | some i ↦ some (suc i)
  | none ↦ if b == c then some 0 else none
]

-- What comes of the position of the last slash.
abbrev pub directory_at : Bytes → Option ℕ → Bytes
directory_at path none = codes "."
directory_at path (some zero) = codes "/"
directory_at path (some (suc i)) = take (suc i) path

unfoldable pub directory_of : Bytes → Bytes
unfolding find_last_of
directory_of path = directory_at path (find_last_of path b'/')

-- std::string::back
abbrev pub back : Bytes → ℕ
back bs = byte_at bs (length bs - 1)

unfoldable pub template_for : Bytes → Bytes
unfolding directory_of
template_for path =
    let temporary = directory_of path in
    (if back temporary == b'/' then temporary else temporary ++ codes "/")
    ++ codes ".model-crypt-XXXXXX"

not-== : (b c : ℕ) → b ≢ c → (b == c) ≡ false
not-== b c differ = elim (Bool-cases (b == c)) [
  | inl equal ↦ absurd (differ ((==_iff b c).0 equal))
  | inr other ↦ other
]

find_last_of-none : (name : Bytes) (c : ℕ) → All (λ b. b ≢ c) name → find_last_of name c ≡ none
unfolding find_last_of
find_last_of-none [] c h = refl
find_last_of-none (b ∷ name) c (differ, h) = rw (find_last_of-none name c h, not-== b c differ) refl

find_last_of-some :
    (dir name : Bytes) (c : ℕ)
    → All (λ b. b ≢ c) name
    → find_last_of (dir ++ c ∷ name) c ≡ some (length dir)
unfolding find_last_of
find_last_of-some [] name c h = rw (find_last_of-none name c h, ==_self c) refl
find_last_of-some (b ∷ dir) name c h = rw (find_last_of-some dir name c h) refl

-- DirectoryOf of a name without a slash is ".", of such a name behind one slash it is "/", and of
-- such a name behind a directory's path, which is not empty, and a slash it is that path.
pub directory_of-joined :
    (name : Bytes)
    → All (λ b. b ≢ b'/') name
    → (directory_of name ≡ codes ".")
      × (directory_of (codes "/" ++ name) ≡ codes "/")
      × ((b : ℕ) (dir : Bytes) → directory_of ((b ∷ dir) ++ b'/' ∷ name) ≡ b ∷ dir)
unfolding directory_of
directory_of-joined name h = (
  rw (find_last_of-none name b'/' h) refl,
  rw (find_last_of-some [] name b'/' h) refl,
  λ b dir. rw (find_last_of-some (b ∷ dir) name b'/' h) (take-append (b ∷ dir) (b'/' ∷ name)),
)
