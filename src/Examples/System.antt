-- ===== src/Examples/System.antt =====
-- Writing and reading a file of the toy system.
use model_crypt.Common.{ℕ, ◌≤◌, ◌≡◌, ◌⊎◌, refl, some, none, true, [], ◌∷◌}
use model_crypt.Common.Buffer.{Bytes, slice, memcpy}
use model_crypt.Common.Texts.{codes}
use model_crypt.Common.Result.{ok, err, io}
use model_crypt.Files.Posix.{s_isreg}
use model_crypt.Files.Paths.{find_last_of, directory_of, template_for}
use model_crypt.Files.Read.{
  Machine, read_fully, check_stat, after_reset, after_checks, after_open, read_file,
}
use model_crypt.Files.Read.Contents.{read_file-contents}
use model_crypt.Files.Write.{write_fully, after_fchmod, after_mkstemp, write_file_atomically}
use model_crypt.Files.Write.Outcome.{write_file_atomically-ok, write_file_atomically-err}
use model_crypt.Files.Steps.{creating, returned, Reach}
use model_crypt.Files.Steps.Atomic.{Apart, Reach-target}
use model_crypt.Files.Steps.Followed.{Came, write_file_atomically-Came}
use model_crypt.Examples.Platform.{toy}
use model_crypt.Examples.ToyPosix.{Disk, toy_posix, toy_entry}
use model_crypt.Examples.ToyPosix.Laws.{toy_system, toy_system-target, toy_system-Apart}

abbrev pub model_path : Bytes
model_path = codes "model.bin"

abbrev pub disk : Disk
disk = record {
  temporary = none;
  target = some (record { mode = 420; contents = 1 ∷ 2 ∷ 3 ∷ [] });
  whole = [];
  rest = [];
  signals = 2;
}

abbrev five : Bytes
five = 5 ∷ 6 ∷ 7 ∷ 8 ∷ 9 ∷ []

pub model_path-Apart : Apart toy_posix toy_system model_path
unfolding toy_entry
model_path-Apart = toy_system-Apart model_path refl

written : (write_file_atomically toy_posix 9 model_path (some five) 5 384 disk).0 ≡ some (ok tt)
unfolding write_file_atomically after_mkstemp after_fchmod write_fully template_for directory_of
    find_last_of slice toy_entry
written = refl

write_file_atomically-ok_example :
    toy_system.file
      (write_file_atomically toy_posix 9 model_path (some five) 5 384 disk).1
      (toy_system.entry model_path)
    ≡ some (record { mode = 384; contents = slice five 0 5 })
write_file_atomically-ok_example =
    write_file_atomically-ok toy_posix toy_system model_path model_path-Apart 9 (some five) 5 384
      disk written

-- A buffer of four bytes that is said to have five.
refused :
    (write_file_atomically toy_posix 9 model_path (some (5 ∷ 6 ∷ 7 ∷ 8 ∷ [])) 5 384 disk).0
    ≡ some (err io)
unfolding write_file_atomically after_mkstemp after_fchmod write_fully template_for directory_of
    find_last_of slice toy_entry
refused = refl

write_file_atomically-err_example :
    toy_system.file
      (write_file_atomically toy_posix 9 model_path (some (5 ∷ 6 ∷ 7 ∷ 8 ∷ [])) 5 384 disk).1
      (toy_system.entry model_path)
    ≡ toy_system.file disk (toy_system.entry model_path)
write_file_atomically-err_example =
    write_file_atomically-err toy_posix toy_system model_path model_path-Apart 9
      (some (5 ∷ 6 ∷ 7 ∷ 8 ∷ [])) 5 384 disk io refused

write_file_atomically-Came_example :
    Came toy_posix model_path five 5 384 creating disk
      (write_file_atomically toy_posix 9 model_path (some five) 5 384 disk)
write_file_atomically-Came_example =
    write_file_atomically-Came toy_posix 9 model_path (some five) 5 384 disk refl

reached :
    Reach toy_posix model_path five 5 384 creating disk
      (returned true)
      (write_file_atomically toy_posix 9 model_path (some five) 5 384 disk).1
unfolding write_file_atomically after_mkstemp after_fchmod write_fully template_for directory_of
    find_last_of slice toy_entry
reached = write_file_atomically-Came toy_posix 9 model_path (some five) 5 384 disk refl

Reach-target_example :
    (toy_system.file
        (write_file_atomically toy_posix 9 model_path (some five) 5 384 disk).1
        (toy_system.entry model_path)
      ≡ toy_system.file disk (toy_system.entry model_path))
    ⊎ (toy_system.file
          (write_file_atomically toy_posix 9 model_path (some five) 5 384 disk).1
          (toy_system.entry model_path)
        ≡ some (record { mode = 384; contents = slice five 0 5 }))
Reach-target_example =
    Reach-target toy_posix toy_system model_path model_path-Apart five 5 384 disk (returned true)
      (write_file_atomically toy_posix 9 model_path (some five) 5 384 disk).1 reached

abbrev machine : Machine toy toy_posix
machine = record { services = tt; system = disk }

read :
    (read_file toy toy_posix 9 model_path 7 (some tt) (some tt) machine).0
    ≡ some (ok (1 ∷ 2 ∷ 3 ∷ [], 3))
unfolding read_file after_open after_checks check_stat s_isreg after_reset read_fully memcpy
    toy_entry
read = refl

there :
    toy_system.file disk (toy_system.entry model_path)
    ≡ some (record { mode = 420; contents = 1 ∷ 2 ∷ 3 ∷ [] })
unfolding toy_entry
there = toy_system-target model_path disk refl

read_file-contents_example :
    (◌≡◌ {A = Bytes} (1 ∷ 2 ∷ 3 ∷ []) (1 ∷ 2 ∷ 3 ∷ [])) × (◌≡◌ {A = ℕ} 3 3) × (3 ≤ 7)
read_file-contents_example =
    read_file-contents toy toy_posix toy_system 9 model_path 7 machine
      (record { mode = 420; contents = 1 ∷ 2 ∷ 3 ∷ [] }) (1 ∷ 2 ∷ 3 ∷ []) 3 there read
