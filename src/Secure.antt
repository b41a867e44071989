-- ===== src/Secure.antt =====
-- SecureBuffer and SecureWipe of src/crypt/secure_buffer.cc, and mc_free of src/api/c_api.cc, on a heap
-- of blocks. An address is not given out twice, so that a stale one is told from a live one.
pub mod Owned
pub mod Moves
pub mod Releases
pub mod Runs
use model_crypt.Common.{
  ℕ, ◌+◌, ◌≡◌, Option, some, none, Bool, true, false, not, ◌&&◌, List, [], ◌∷◌, ltb, ◌==◌, length,
  if◌then◌else◌,
}
use model_crypt.Common.Buffer.{Bytes, zeros, memcpy}

pub record SecureBuffer : Type 0 where
  pub pointer : Option ℕ
  pub size : ℕ

abbrev pub empty_buffer : SecureBuffer
empty_buffer = record { pointer = none; size = 0 }

-- The blocks by their address, the buffers by the name of their variable, empty before and after
-- its lifetime, the addresses that a caller was given and has not freed, and what each block that
-- a SecureBuffer freed held at that moment.
pub record Store : Type 0 where
  pub next : ℕ
  pub block : ℕ → Option Bytes
  pub object : ℕ → SecureBuffer
  pub released : ℕ → Bool
  pub freed : List Bytes

abbrev pub initial_store : Store
initial_store = record {
  next = 0;
  block = λ p. none;
  object = λ i. empty_buffer;
  released = λ p. false;
  freed = [];
}

abbrev pub set : {A : Type 0} → (ℕ → A) → ℕ → A → ℕ → A
set f i a j = if i == j then a else f j

-- An access to memory that is not there is `none`.
infixl 5 ◌>>=◌
abbrev pub ◌>>=◌ : {A B : Type 0} → Option A → (A → Option B) → Option B
none >>= f = none
some a >>= f = f a

-- `delete[]`: what the block held, and the heap without it.
abbrev pub deleted : ℕ → Option Bytes → Store → Option (Bytes × Store)
deleted p none s = none
deleted p (some bs) s = some (bs, record s { block = set s.block p none })

-- `new (std::nothrow) uint8_t[size]()`, if the allocator grants it.
unfoldable pub allocate : ℕ → ℕ → Bool → Store → Bool × Store
allocate i size false s = (false, s)
allocate i size true s = (
  true,
  record s {
    next = s.next + 1;
    block = set s.block s.next (some (zeros size));
    object = set s.object i (record { pointer = some s.next; size = size });
  },
)

-- The move constructor.
unfoldable pub move_construct : ℕ → ℕ → Store → Store
move_construct i other s = record s {
  object = set (set s.object i (s.object other)) other empty_buffer;
}

-- `std::memcpy` of so many bytes to an offset in a block that the program points at.
abbrev pub write_block : ℕ → ℕ → Bytes → Option Bytes → Store → Option Store
write_block p offset bytes none s = none
write_block p offset bytes (some bs) s =
    if ltb (length bs) (offset + length bytes)
    then none
    else some (record s { block = set s.block p (some (memcpy bs offset bytes)) })

abbrev pub write_pointer : Option ℕ → ℕ → Bytes → Store → Option Store
write_pointer none offset bytes s = none
write_pointer (some p) offset bytes s = write_block p offset bytes (s.block p) s

-- The same, to `buffer.data() + offset`.
unfoldable pub write_data : ℕ → ℕ → Bytes → Store → Option Store
write_data i offset bytes s = write_pointer (s.object i).pointer offset bytes s

-- The caller has an address from now on.
abbrev pub marked : Option ℕ → (ℕ → Bool) → ℕ → Bool
marked none released = released
marked (some p) released = set released p true

unfoldable pub release : ℕ → Store → Option ℕ × Store
release i s = (
  (s.object i).pointer,
  record s {
    object = set s.object i empty_buffer;
    released = marked (s.object i).pointer s.released;
  },
)

-- `cleanse n bs` is what OPENSSL_cleanse of n bytes leaves of the memory `bs`.
module _ (cleanse : ℕ → Bytes → Bytes) where
  abbrev pub cleansed : ℕ → ℕ → Option Bytes → Store → Option Store
  cleansed p size none s = none
  cleansed p size (some bs) s =
      if ltb (length bs) size
      then none
      else some (record s { block = set s.block p (some (cleanse size bs)) })

  unfoldable pub secure_wipe : Option ℕ → ℕ → Store → Option Store
  secure_wipe none size s = some s
  secure_wipe (some p) size s = if size == 0 then some s else cleansed p size (s.block p) s

  unfoldable pub wipe_and_free_block : ℕ → Option ℕ → ℕ → Store → Option Store
  unfolding secure_wipe
  wipe_and_free_block i none size s = some s
  wipe_and_free_block i (some p) size s = do
    wiped ← secure_wipe (some p) size s
    (bs, gone) ← deleted p (wiped.block p) wiped
    some (record gone { object = set gone.object i empty_buffer; freed = bs ∷ gone.freed })

  -- WipeAndFree, and the destructor.
  unfoldable pub wipe_and_free : ℕ → Store → Option Store
  unfolding wipe_and_free_block
  wipe_and_free i s = wipe_and_free_block i (s.object i).pointer (s.object i).size s

  -- Reset, and the constructor.
  unfoldable pub reset : ℕ → ℕ → Bool → Store → Option (Bool × Store)
  unfolding wipe_and_free allocate
  reset i size granted s = do
    cleared ← wipe_and_free i s
    some (if size == 0 then (true, cleared) else allocate i size granted cleared)

  -- The move assignment.
  unfoldable pub move_assign : ℕ → ℕ → Store → Option Store
  unfolding wipe_and_free move_construct
  move_assign i other s =
      if i == other
      then some s
      else (do cleared ← wipe_and_free i s; some (move_construct i other cleared))

  unfoldable pub mc_free : Option ℕ → ℕ → Store → Option Store
  unfolding secure_wipe
  mc_free none size s = some s
  mc_free (some p) size s = do
    wiped ← secure_wipe (some p) size s
    (_, gone) ← deleted p (wiped.block p) wiped
    some (record gone { released = set gone.released p false })
