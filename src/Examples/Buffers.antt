-- ===== src/Examples/Buffers.antt =====
-- A buffer of three bytes that is moved and handed to the caller, beside another one that is written
-- to and destroyed.
use model_crypt.Common.{ℕ, ◌≤◌, ◌≡◌, ◌≢◌, refl, some, none, Bool, true, [], ◌∷◌, ◌++◌, drop, length}
use model_crypt.Common.Buffer.{Bytes, zeros, memcpy}
use model_crypt.Secure.{
  Store, initial_store, wipe_and_free_block, wipe_and_free, allocate, reset, move_construct,
  move_assign, release, mc_free, write_data, set, empty_buffer, secure_wipe,
}
use model_crypt.Secure.Owned.{Owned}
use model_crypt.Secure.Runs.{
  Cleanses, constructs_or_resets, move_assigns, releases, destroys, writes_data, Reach, start, next,
  Reach-Owned, Reach-safe,
}

abbrev cleanse : ℕ → Bytes → Bytes
cleanse n bs = zeros n ++ drop n bs

cleanse-Cleanses : Cleanses cleanse
cleanse-Cleanses n bs low = refl

abbrev allocated : Store
unfolding allocate
allocated = (allocate 0 3 true initial_store).1

abbrev assigned : Store
unfolding move_construct
assigned = move_construct 1 0 allocated

abbrev handed_out : Store
unfolding release
handed_out = (release 1 assigned).1

abbrev two : Store
unfolding allocate
two = (allocate 2 5 true handed_out).1

-- The second buffer with two bytes of a secret in it.
abbrev secret : Store
secret = record two { block = set two.block 1 (some (0 ∷ 7 ∷ 8 ∷ 0 ∷ 0 ∷ [])) }

-- What is left when it has been destroyed.
abbrev destroyed : Store
destroyed = record two {
  block = set (set secret.block 1 (some (zeros 5))) 1 none;
  object = set two.object 2 empty_buffer;
  freed = zeros 5 ∷ [];
}

destroyed-Reach : Reach cleanse cleanse-Cleanses destroyed
unfolding reset wipe_and_free wipe_and_free_block allocate move_assign move_construct release two
    handed_out assigned allocated write_data secure_wipe memcpy
destroyed-Reach =
    next
      (next
        (next
          (next
            (next (next start (constructs_or_resets 0 3 true true refl)) (move_assigns 1 0 refl))
            (releases 1 (some 0) refl))
          (constructs_or_resets 2 5 true true refl))
        (writes_data 2 1 (7 ∷ 8 ∷ []) refl))
      (destroys 2 refl)

Reach-Owned_example : Owned destroyed
Reach-Owned_example = Reach-Owned cleanse cleanse-Cleanses destroyed-Reach

Reach-safe_example :
    ((i size : ℕ) (granted : Bool) → reset cleanse i size granted destroyed ≢ none)
    × ((i : ℕ) → wipe_and_free cleanse i destroyed ≢ none)
    × ((i other : ℕ) → move_assign cleanse i other destroyed ≢ none)
    × ((p : ℕ)
        → destroyed.released p ≡ true
        → (bs : Bytes) × (destroyed.block p ≡ some bs)
          × ((size : ℕ) → size ≤ length bs → mc_free cleanse (some p) size destroyed ≢ none))
Reach-safe_example = Reach-safe cleanse cleanse-Cleanses destroyed-Reach
