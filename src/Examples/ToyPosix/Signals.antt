-- ===== src/Examples/ToyPosix/Signals.antt =====
-- The signals of ToyPosix run out.
use model_crypt.Common.{
  ℕ, zero, suc, ◌≤◌, ◌<◌, ◌≡◌, refl, ap, Option, some, none, [], ◌∷◌, arith, length, take,
}
use model_crypt.Common.Buffer.{Bytes}
use model_crypt.Files.Posix.{File, interrupted, moved}
use model_crypt.Files.Patience.{Patience}
use model_crypt.Examples.ToyPosix.{
  Disk, toy_entry, toy_file, toy_open, toy_read, toy_write, toy_fchmod, toy_posix,
}

fewer_reads :
    (k n : ℕ) (w w' : Disk)
    → w.signals ≡ k
    → toy_read k n w ≡ (interrupted, w')
    → w'.signals < w.signals
fewer_reads (suc k) n w w' h e = rw (← ap (λ t. t.1.signals) e, h) (omega arith)
fewer_reads zero n w w' h e = let no_way = ap (λ t. t.0) e in cc

calm_reads : (k n : ℕ) (w : Disk) → w.signals ≡ k → (toy_read k n w).1.signals ≤ w.signals
calm_reads (suc k) n w h = rw h (omega arith)
calm_reads zero n w h = omega arith

fewer_writes :
    (k : ℕ) (bs : Bytes) (f : Option File) (w w' : Disk)
    → w.signals ≡ k
    → toy_write k bs f w ≡ (interrupted, w')
    → w'.signals < w.signals
fewer_writes (suc k) bs f w w' h e = rw (← ap (λ t. t.1.signals) e, h) (omega arith)
fewer_writes zero [] f w w' h e = let no_way = ap (λ t. t.0) e in cc
fewer_writes zero (b ∷ bs) none w w' h e = let no_way = ap (λ t. t.0) e in cc
fewer_writes zero (b ∷ bs) (some f) w w' h e = let no_way = ap (λ t. t.0) e in cc

calm_writes :
    (k : ℕ) (bs : Bytes) (f : Option File) (w : Disk)
    → w.signals ≡ k
    → (toy_write k bs f w).1.signals ≤ w.signals
calm_writes (suc k) bs f w h = rw h (omega arith)
calm_writes zero [] f w h = omega arith
calm_writes zero (b ∷ bs) none w h = omega arith
calm_writes zero (b ∷ bs) (some f) w h = omega arith

some_written :
    (k : ℕ) (bs : Bytes) (f : Option File) (w w' : Disk) → ¬ (toy_write k bs f w ≡ (moved 0, w'))
some_written (suc k) bs f w w' e = let no_way = ap (λ t. t.0) e in cc
some_written zero [] f w w' e = let no_way = ap (λ t. t.0) e in cc
some_written zero (b ∷ bs) none w w' e = let no_way = ap (λ t. t.0) e in cc
some_written zero (b ∷ bs) (some f) w w' e =
    let taken = ap (λ t. t.0) e in
    let count : suc (length (take 1 bs)) ≡ 0 = cc in absurd (omega (arith, count))

opening_calm : (f : Option File) (w : Disk) → (toy_open f w).1.signals ≤ w.signals
opening_calm none w = omega arith
opening_calm (some f) w = omega arith

fchmod_calm : (mode : ℕ) (f : Option File) (w : Disk) → (toy_fchmod mode f w).1.signals ≤ w.signals
fchmod_calm mode none w = omega arith
fchmod_calm mode (some f) w = omega arith

pub toy_patience : Patience toy_posix
toy_patience = record {
  patience = λ w. w.signals;
  open_calm = λ path w. opening_calm (toy_file w (toy_entry path)) w;
  fstat_calm = λ fd w. omega arith;
  mkstemp_calm = λ template w. omega arith;
  fchmod_calm = λ fd mode w. fchmod_calm mode w.temporary w;
  read_calm = λ fd n w q e. rw (← e) (calm_reads w.signals n w refl);
  read_interrupted = λ fd n w w' e. fewer_reads w.signals n w w' refl e;
  write_calm = λ fd bs w q e. rw (← e) (calm_writes w.signals bs w.temporary w refl);
  write_interrupted = λ fd bs w w' e. fewer_writes w.signals bs w.temporary w w' refl e;
  write_nothing = λ fd bs w w' e. absurd (some_written w.signals bs w.temporary w w' e);
}

pub toy_patience_signals : (w : Disk) → toy_patience.patience w ≡ w.signals
unfolding toy_patience
toy_patience_signals w = refl
