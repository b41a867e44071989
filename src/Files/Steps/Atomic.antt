-- ===== src/Files/Steps/Atomic.antt =====
-- At every moment of WriteFileAtomically the target is the old file or the whole new one.
use model_crypt.Common.{
  ℕ, zero, suc, ◌+◌, ◌-◌, ◌≤◌, ◌≡◌, ◌≢◌, ◌⊎◌, inl, inr, refl, sym, ◌∙◌, ap, Option, some, true,
  false, [], ◌∷◌, ◌++◌, arith, take, drop, length, not-ltb→le,
}
use model_crypt.Common.Buffer.{Bytes, slice, slice_split, length-slice-min}
use model_crypt.Files.Posix.{Posix, File, FileSystem}
use model_crypt.Files.Paths.{template_for}
use model_crypt.Files.Steps.{
  Stage, creating, setting_mode, writing, flushing, closing, abandoning, renaming, removing,
  returned, Step, created, not_created, mode_set, mode_refused, wrote, write_interrupted,
  write_refused, all_written, flushed, flush_refused, closed, close_refused, renamed,
  rename_refused, abandoned, removed, Reach, here, next,
}

take-take : (n m : ℕ) (bs : Bytes) → n ≤ m → take n (take m bs) ≡ take n bs
take-take zero m bs h = refl
take-take (suc n) zero bs h = absurd (omega arith)
take-take (suc n) (suc m) [] h = refl
take-take (suc n) (suc m) (b ∷ bs) h = ap (λ t. b ∷ t) (take-take n m bs (omega arith))

-- One more transfer.
slice-extended :
    (bytes : Bytes) (at n size : ℕ)
    → n ≤ length (slice bytes at (size - at))
    → (slice bytes 0 at ++ take n (slice bytes at (size - at)) ≡ slice bytes 0 (at + n))
      × (n ≤ size - at)
unfolding slice
slice-extended bytes at n size h =
    let low : n ≤ size - at = omega (arith, length-slice-min bytes at (size - at)) in
    let here : 0 + at ≡ at = omega arith in
    (rw (take-take n (size - at) (drop at bytes) low) (sym (slice_split bytes 0 at n at here)), low)

module _ (P : Posix) (fs : FileSystem P) (path : Bytes) where
  open fs use {Entry, entry, file, Writes}

  -- The target is not itself a name that mkstemp makes of the template.
  abbrev pub Apart : Type 0
  Apart =
      (v : P.World) (fd : ℕ) (name : Bytes)
      → (P.mkstemp (template_for path) v).0 ≡ some (fd, name)
      → entry path ≢ entry name

  module _ (bytes : Bytes) (size mode : ℕ) (old : Option File) where
    -- A temporary file under construction, beside the old target.
    abbrev pub Beside : P.World → Bytes → File → Type 0
    Beside w name f =
        (file w (entry path) ≡ old) × (entry path ≢ entry name) × (file w (entry name) ≡ some f)

    abbrev pub new_file : File
    new_file = record { mode = mode; contents = slice bytes 0 size }

    abbrev pub Holds : Stage → P.World → Type 0
    Holds creating w = file w (entry path) ≡ old
    Holds (setting_mode fd name) w =
        Beside w name (record { mode = 384; contents = [] }) × Writes w fd (entry name)
    Holds (writing fd name at) w =
        (at ≤ size)
        × Beside w name (record { mode = mode; contents = slice bytes 0 at })
        × Writes w fd (entry name)
    Holds (flushing fd name) w = Beside w name new_file
    Holds (closing fd name) w = Beside w name new_file
    Holds (abandoning fd name) w = (file w (entry path) ≡ old) × (entry path ≢ entry name)
    Holds (renaming name) w = Beside w name new_file
    Holds (removing name) w = (file w (entry path) ≡ old) × (entry path ≢ entry name)
    Holds (returned true) w = file w (entry path) ≡ some new_file
    Holds (returned false) w = file w (entry path) ≡ old

    pub Step-Holds :
        Apart
        → {t t' : Stage} {w w' : P.World} → Step P path bytes size mode t w t' w'
        → Holds t w
        → Holds t' w'
    unfolding slice
    Step-Holds apart (created e) h =
        let got = ap (λ t. t.0) e in
        let other = apart _ _ _ got in
        let made = fs.mkstemp_makes _ _ _ _ got in
        rw (← ap (λ t. t.1) e)
          ((fs.mkstemp_keeps _ _ _ _ (entry path) got other ∙ h, other, made.1), made.0)
    Step-Holds apart (not_created e) h =
        rw (← ap (λ t. t.1) e) (fs.mkstemp_refused _ _ _ (ap (λ t. t.0) e) ∙ h)
    Step-Holds apart (mode_set e) ((there, other, temporary), writes) =
        let set = fs.fchmod_sets _ _ _ _ _ writes temporary (ap (λ t. t.0) e) in
        rw (← ap (λ t. t.1) e)
          (omega arith, (fs.fchmod_keeps _ _ _ _ _ writes other ∙ there, other, set.1), set.0)
    Step-Holds apart (mode_refused e) ((there, other, temporary), writes) =
        rw (← ap (λ t. t.1) e) (fs.fchmod_keeps _ _ _ _ _ writes other ∙ there, other)
    Step-Holds apart (wrote more e) (low, (there, other, temporary), writes) =
        let added = fs.write_adds _ _ _ _ _ _ writes temporary (ap (λ t. t.0) e) in
        let longer = slice-extended bytes _ _ size added.0 in
        rw (← ap (λ t. t.1) e) (
          omega (arith, longer.1, low),
          (
            fs.write_keeps _ _ _ _ _ writes other ∙ there,
            other,
            added.2 ∙ ap (λ t. some (record { mode = mode; contents = t })) longer.0,
          ),
          added.1,
        )
    Step-Holds apart (write_interrupted more e) (low, (there, other, temporary), writes) =
        let again = fs.write_again _ _ _ _ writes (ap (λ t. t.0) e) in
        rw (← ap (λ t. t.1) e) (
          low,
          (fs.write_keeps _ _ _ _ _ writes other ∙ there, other, again.1 ∙ temporary),
          again.0,
        )
    Step-Holds apart (write_refused more e) (low, (there, other, temporary), writes) =
        rw (← ap (λ t. t.1) e) (fs.write_keeps _ _ _ _ _ writes other ∙ there, other)
    Step-Holds apart (all_written {at = at} through) (low, (there, other, temporary), writes) =
        let all : at ≡ size = omega (arith, low, not-ltb→le at size through) in
        (there, other, rw (← all) temporary)
    Step-Holds apart (flushed e) (there, other, temporary) =
        rw (← ap (λ t. t.1) e)
          (fs.fsync_keeps _ _ _ ∙ there, other, fs.fsync_keeps _ _ _ ∙ temporary)
    Step-Holds apart (flush_refused e) (there, other, temporary) =
        rw (← ap (λ t. t.1) e) (fs.fsync_keeps _ _ _ ∙ there, other)
    Step-Holds apart (closed e) (there, other, temporary) =
        rw (← ap (λ t. t.1) e)
          (fs.close_keeps _ _ _ ∙ there, other, fs.close_keeps _ _ _ ∙ temporary)
    Step-Holds apart (close_refused e) (there, other, temporary) =
        rw (← ap (λ t. t.1) e) (fs.close_keeps _ _ _ ∙ there, other)
    Step-Holds apart (renamed e) (there, other, temporary) =
        rw (← ap (λ t. t.1) e) (fs.rename_moves _ _ _ (ap (λ t. t.0) e) ∙ temporary)
    Step-Holds apart (rename_refused e) (there, other, temporary) =
        rw (← ap (λ t. t.1) e) (fs.rename_refused _ _ _ _ (ap (λ t. t.0) e) ∙ there, other)
    Step-Holds apart (abandoned e) (there, other) =
        rw (← ap (λ t. t.1) e) (fs.close_keeps _ _ _ ∙ there, other)
    Step-Holds apart (removed e) (there, other) =
        rw (← ap (λ t. t.1) e) (fs.unlink_keeps _ _ _ other ∙ there)

    pub Reach-Holds :
        Apart
        → {v : P.World} {t : Stage} {w : P.World} → file v (entry path) ≡ old
        → Reach P path bytes size mode creating v t w
        → Holds t w
    Reach-Holds apart h here = h
    Reach-Holds apart h (next r step) = Step-Holds apart step (Reach-Holds apart h r)

    -- In all stages but the last the old file is still there.
    Holds-target :
        (t : Stage) (w : P.World)
        → Holds t w
        → (file w (entry path) ≡ old) ⊎ (file w (entry path) ≡ some new_file)
    Holds-target creating w h = inl h
    Holds-target (setting_mode fd name) w h = inl h.0.0
    Holds-target (writing fd name at) w h = inl h.1.0
    Holds-target (flushing fd name) w h = inl h.0
    Holds-target (closing fd name) w h = inl h.0
    Holds-target (abandoning fd name) w h = inl h.0
    Holds-target (renaming name) w h = inl h.0
    Holds-target (removing name) w h = inl h.0
    Holds-target (returned true) w h = inr h
    Holds-target (returned false) w h = inl h

  -- Wherever WriteFileAtomically is stopped between two calls, the entry that its path leads to is
  -- as it was before the call, a file or none, or it is a file of the requested mode that holds all
  -- `size` bytes. The path is not one that mkstemp makes of the template.
  pub Reach-target :
      Apart
      → (bytes : Bytes) (size mode : ℕ) (v : P.World) (t : Stage) (w : P.World)
      → Reach P path bytes size mode creating v t w
      → (file w (entry path) ≡ file v (entry path))
        ⊎ (file w (entry path) ≡ some (record { mode = mode; contents = slice bytes 0 size }))
  Reach-target apart bytes size mode v t w r =
      let old = file v (entry path) in
      Holds-target bytes size mode old t w (Reach-Holds bytes size mode old apart refl r)
