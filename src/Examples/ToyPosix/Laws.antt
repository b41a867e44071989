-- ===== src/Examples/ToyPosix/Laws.antt =====
-- The toy system of ToyPosix is a file system.
use model_crypt.Common.{
  ℕ, zero, suc, ◌≤◌, min, ◌≡◌, ◌≢◌, refl, sym, ◌∙◌, ap, Option, some, none, Bool, true, false, [],
  ◌∷◌, ◌++◌, arith, length, take, drop, length-take, take-append-drop,
}
use model_crypt.Common.Buffer.{Bytes}
use model_crypt.Files.Posix.{File, FileSystem, interrupted, moved, pos, Stat, s_isreg}
use model_crypt.Files.Steps.Atomic.{Apart}
use model_crypt.Examples.ToyPosix.{
  Disk, toy_name, toy_entry, toy_file, put, toy_open, toy_read, toy_write, toy_fchmod, toy_rename,
  toy_posix,
}

file-put : (e : Bool) (f : Option File) (w : Disk) → toy_file (put e f w) e ≡ f
file-put true f w = refl
file-put false f w = refl

file-put_other :
    (e other : Bool) (f : Option File) (w : Disk)
    → other ≢ e
    → toy_file (put e f w) other ≡ toy_file w other
file-put_other true true f w differ = absurd (differ refl)
file-put_other true false f w differ = refl
file-put_other false true f w differ = refl
file-put_other false false f w differ = absurd (differ refl)

open_keeps : (f : Option File) (w : Disk) (e : Bool) → toy_file (toy_open f w).1 e ≡ toy_file w e
open_keeps none w true = refl
open_keeps none w false = refl
open_keeps (some f) w true = refl
open_keeps (some f) w false = refl

open_reads :
    (q : Option File) (w : Disk) (f : File) (fd : ℕ)
    → q ≡ some f
    → (toy_open q w).0 ≡ some fd
    → ((toy_open q w).1.whole ≡ f.contents) × ((toy_open q w).1.rest ≡ f.contents)
open_reads none w f fd e h = cc
open_reads (some g) w f fd e h =
    let same_file : g ≡ f = cc in let read = ap (λ t. t.contents) same_file in (read, read)

read-whole : (k n : ℕ) (w : Disk) → (toy_read k n w).1.whole ≡ w.whole
read-whole (suc k) n w = refl
read-whole zero n w = refl

read_keeps : (k n : ℕ) (w : Disk) (e : Bool) → toy_file (toy_read k n w).1 e ≡ toy_file w e
read_keeps (suc k) n w true = refl
read_keeps (suc k) n w false = refl
read_keeps zero n w true = refl
read_keeps zero n w false = refl

read_bounded : (k n : ℕ) (w : Disk) (bs : Bytes) → (toy_read k n w).0 ≡ moved bs → length bs ≤ n
read_bounded (suc k) n w bs e = cc
read_bounded zero n w bs e =
    let got : take (min n 2) w.rest ≡ bs = cc in
    rw (← got) (omega (arith, length-take (min n 2) w.rest))

take_short : (n : ℕ) (bs : Bytes) → drop (length (take n bs)) bs ≡ drop n bs
take_short zero bs = refl
take_short (suc n) [] = refl
take_short (suc n) (b ∷ bs) = take_short n bs

read_reads :
    (k n : ℕ) (w : Disk) (rest bs : Bytes)
    → w.rest ≡ rest
    → (toy_read k n w).0 ≡ moved bs
    → (bs ++ drop (length bs) rest ≡ rest) × ((toy_read k n w).1.rest ≡ drop (length bs) rest)
read_reads (suc k) n w rest bs h e = cc
read_reads zero n w rest bs h e =
    let got : take (min n 2) w.rest ≡ bs = cc in
    let left = take_short (min n 2) w.rest in
    rw (← got, ← h)
      (ap (λ t. take (min n 2) w.rest ++ t) left ∙ take-append-drop (min n 2) w.rest, sym left)

read_again :
    (k n : ℕ) (w : Disk) (rest : Bytes)
    → w.rest ≡ rest
    → (toy_read k n w).0 ≡ interrupted
    → (toy_read k n w).1.rest ≡ rest
read_again (suc k) n w rest h e = h
read_again zero n w rest h e = cc

abbrev with_mode : ℕ → File → Option File
with_mode mode f = some (record f { mode = mode })

abbrev with_more : Bytes → File → Option File
with_more bs f = some (record f { contents = f.contents ++ bs })

fchmod_sets :
    (mode : ℕ) (q : Option File) (w : Disk) (e : Bool) (f : File)
    → e ≡ true
    → q ≡ some f
    → toy_file (toy_fchmod mode q w).1 true ≡ some (record f { mode = mode })
fchmod_sets mode none w e f is h = cc
fchmod_sets mode (some g) w e f is h = let same_file : g ≡ f = cc in ap (with_mode mode) same_file

fchmod_keeps :
    (mode : ℕ) (q : Option File) (w : Disk) (other : Bool)
    → other ≢ true
    → toy_file (toy_fchmod mode q w).1 other ≡ toy_file w other
fchmod_keeps mode q w true differ = absurd (differ refl)
fchmod_keeps mode none w false differ = refl
fchmod_keeps mode (some f) w false differ = refl

write_adds :
    (k : ℕ) (bs : Bytes) (q : Option File) (w : Disk) (f : File) (n : ℕ)
    → q ≡ some f
    → (toy_write k bs q w).0 ≡ moved n
    → (n ≤ length bs) × (toy_file (toy_write k bs q w).1 true ≡ with_more (take n bs) f)
write_adds (suc k) bs q w f n h e = cc
write_adds zero [] q w f n h e = cc
write_adds zero (b ∷ bs) none w f n h e = cc
write_adds zero (b ∷ bs) (some g) w f n h e =
    let same_file : g ≡ f = cc in
    let count : length (take 2 (b ∷ bs)) ≡ n = cc in
    rw (← count, ← same_file)
      (omega (arith, length-take 2 (b ∷ bs)), ap (λ t. with_more t g) (sym (take_taken 2 (b ∷ bs))))
  where
    take_taken : (n : ℕ) (bs : Bytes) → take (length (take n bs)) bs ≡ take n bs
    take_taken zero bs = refl
    take_taken (suc n) [] = refl
    take_taken (suc n) (b ∷ bs) = ap (λ t. b ∷ t) (take_taken n bs)

write_again :
    (k : ℕ) (bs : Bytes) (q : Option File) (w : Disk)
    → (toy_write k bs q w).0 ≡ interrupted
    → (e : Bool) → toy_file (toy_write k bs q w).1 e ≡ toy_file w e
write_again (suc k) bs q w e true = refl
write_again (suc k) bs q w e false = refl
write_again zero [] q w e other = refl
write_again zero (b ∷ bs) none w e other = refl
write_again zero (b ∷ bs) (some f) w e other = cc

write_keeps :
    (k : ℕ) (bs : Bytes) (q : Option File) (w : Disk) (other : Bool)
    → other ≢ true
    → toy_file (toy_write k bs q w).1 other ≡ toy_file w other
write_keeps k bs q w true differ = absurd (differ refl)
write_keeps (suc k) bs q w false differ = refl
write_keeps zero [] q w false differ = refl
write_keeps zero (b ∷ bs) none w false differ = refl
write_keeps zero (b ∷ bs) (some f) w false differ = refl

rename_moves :
    (old new : Bool) (q : Option File) (w : Disk)
    → (toy_rename old new q w).0 ≡ true
    → toy_file (toy_rename old new q w).1 new ≡ q
rename_moves old new none w e = cc
rename_moves old new (some f) w e = file-put new (some f) (put old none w)

rename_refused :
    (old new : Bool) (q : Option File) (w : Disk) (e : Bool)
    → (toy_rename old new q w).0 ≡ false
    → toy_file (toy_rename old new q w).1 e ≡ toy_file w e
rename_refused old new none w e h = refl
rename_refused old new (some f) w e h = cc

only_temporary : (w : Disk) (e : Bool) → e ≡ true → toy_file w e ≡ w.temporary
only_temporary w e is = rw is

toy_named :
    (fd : ℕ) (name : Bytes)
    → ◌≡◌ {A = Option (ℕ × Bytes)} (some (4, toy_name)) (some (fd, name))
    → toy_name ≡ name
toy_named fd name e =
    let both : ◌≡◌ {A = ℕ × Bytes} (4, toy_name) (fd, name) = cc in ap (λ t. t.1) both

pub toy_system : FileSystem toy_posix
unfolding s_isreg toy_entry
toy_system = record {
  Entry = Bool;
  entry = toy_entry;
  file = toy_file;
  Reads = λ w fd whole rest. (w.whole ≡ whole) × (w.rest ≡ rest);
  Writes = λ w fd e. e ≡ true;
  open_keeps = λ path w e. open_keeps (toy_file w (toy_entry path)) w e;
  open_reads = λ path w f fd there e. open_reads (toy_file w (toy_entry path)) w f fd there e;
  fstat_keeps = λ fd w e. refl;
  fstat_reads = λ fd w whole rest h. h;
  fstat_size = λ fd w whole rest st (h, _) e.
      let found : ◌≡◌ {A = Stat} (record { st_mode = 33188; st_size = pos (length w.whole) }) st =
        cc in
      rw (← found, ← h) (refl, refl);
  read_keeps = λ fd n w e. read_keeps w.signals n w e;
  read_bounded = λ fd n w bs e. read_bounded w.signals n w bs e;
  read_reads = λ fd n w whole rest bs (h, left) e.
      let (split, after) = read_reads w.signals n w rest bs left e in
      (split, (read-whole w.signals n w ∙ h, after));
  read_again = λ fd n w whole rest (h, left) e.
      (read-whole w.signals n w ∙ h, read_again w.signals n w rest left e);
  mkstemp_makes = λ template w fd name e. rw (← toy_named fd name e) (refl, refl);
  mkstemp_keeps = λ template w fd name e h differ.
      file-put_other true e (some (record { mode = 384; contents = [] })) w
        (rw (← toy_named fd name h) at differ);
  mkstemp_refused = λ template w e h.
      let no_way : ◌≡◌ {A = Option (ℕ × Bytes)} (some (4, toy_name)) none = h in cc;
  fchmod_sets = λ fd mode w e f is there h.
      (is, rw is (fchmod_sets mode w.temporary w e f is (sym (only_temporary w e is) ∙ there)));
  fchmod_keeps =
      λ fd mode w e other is differ. fchmod_keeps mode w.temporary w other (rw is at differ);
  write_adds = λ fd bs w e f n is there h.
      let (low, more) =
        write_adds w.signals bs w.temporary w f n (sym (only_temporary w e is) ∙ there) h in
      (low, is, rw is more);
  write_again = λ fd bs w e is h. (is, write_again w.signals bs w.temporary w h e);
  write_keeps =
      λ fd bs w e other is differ. write_keeps w.signals bs w.temporary w other (rw is at differ);
  fsync_keeps = λ fd w e. refl;
  close_keeps = λ fd w e. refl;
  rename_moves =
      λ old new w h. rename_moves (toy_entry old) (toy_entry new) (toy_file w (toy_entry old)) w h;
  rename_refused = λ old new w e h.
      rename_refused (toy_entry old) (toy_entry new) (toy_file w (toy_entry old)) w e h;
  unlink_keeps = λ path w e differ. file-put_other (toy_entry path) e none w differ;
}

-- Of a path to another file than the temporary one.
pub toy_system-target :
    (path : Bytes) (w : Disk)
    → toy_entry path ≡ false
    → toy_system.file w (toy_system.entry path) ≡ w.target
unfolding toy_system
toy_system-target path w other = rw other

pub toy_system-Apart : (path : Bytes) → toy_entry path ≡ false → Apart toy_posix toy_system path
unfolding toy_system toy_entry
toy_system-Apart path other v fd name e =
    rw (← toy_named fd name e, other) (λ equal. let no_way : false ≡ true = equal in cc)
