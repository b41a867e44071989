-- ===== src/Files/Patience.antt =====
-- The loops of src/util/file_io.cc end, however signals interrupt their calls.
use model_crypt.Common.{ℕ, ◌≤◌, ◌<◌, ◌≡◌}
use model_crypt.Common.Buffer.{Bytes}
use model_crypt.Common.Result.{Result}
use model_crypt.Services.{Services}
use model_crypt.Files.Posix.{Posix, Transfer, interrupted, moved}

-- How often calls may still come back empty-handed. Signals arrive finitely often, write() takes
-- nothing finitely often, and no call makes that number grow.
pub record Patience (P : Posix) : Type 0 where
  pub patience : P.World → ℕ
  pub open_calm : (path : Bytes) (w : P.World) → patience (P.open_file path w).1 ≤ patience w
  pub fstat_calm : (fd : ℕ) (w : P.World) → patience (P.fstat fd w).1 ≤ patience w
  pub mkstemp_calm :
      (template : Bytes) (w : P.World) → patience (P.mkstemp template w).1 ≤ patience w
  pub fchmod_calm : (fd mode : ℕ) (w : P.World) → patience (P.fchmod fd mode w).1 ≤ patience w
  pub read_calm :
      (fd n : ℕ) (w : P.World) (q : Transfer Bytes × P.World)
      → P.read fd n w ≡ q
      → patience q.1 ≤ patience w
  pub read_interrupted :
      (fd n : ℕ) (w w' : P.World) → P.read fd n w ≡ (interrupted, w') → patience w' < patience w
  pub write_calm :
      (fd : ℕ) (bs : Bytes) (w : P.World) (q : Transfer ℕ × P.World)
      → P.write fd bs w ≡ q
      → patience q.1 ≤ patience w
  pub write_interrupted :
      (fd : ℕ) (bs : Bytes) (w w' : P.World)
      → P.write fd bs w ≡ (interrupted, w')
      → patience w' < patience w
  pub write_nothing :
      (fd : ℕ) (bs : Bytes) (w w' : P.World)
      → P.write fd bs w ≡ (moved 0, w')
      → patience w' < patience w
