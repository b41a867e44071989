-- ===== src/Examples/SealedFiles.antt =====
-- Encrypting a file of the toy system in place, and decrypting it again.
use model_crypt.Common.{ℕ, ◌≡◌, refl, sym, ◌∙◌, ◌++◌, some, none, true, [], length, All}
use model_crypt.Common.Buffer.{Bytes, IsByte, slice, memcpy, zeros}
use model_crypt.Common.Result.{ok, err, invalid_arg, format}
use model_crypt.Encrypt.Options.{default_options, check_arguments, validate_options}
use model_crypt.Encrypt.Loop.{choose_payload, seal_chunk, seal_chunks}
use model_crypt.Encrypt.Buffer.{
  encrypt_buffer, fill_header, worst_case_size, allocate, shrink, write_file,
}
use model_crypt.Decrypt.Table.{chunk_plain_size, walk_record, walk_records}
use model_crypt.Decrypt.Chunks.{open_chunk, open_chunks}
use model_crypt.Decrypt.Buffer.{walk_chunk_table, open_file, decrypt_buffer}
use model_crypt.Decrypt.Verified.{Verified}
use model_crypt.Format.Sizes.{kdf_memory, chunk_count_for, max_stored_size_for}
use model_crypt.Format.Header.{serialize_file_header, parse_file_header}
use model_crypt.Format.Record.{serialize_chunk_header, parse_chunk_header, build_aad, build_nonce}
use model_crypt.Format.Endian.{
  write_u8, write_u16, write_u32, write_u64, read_u8, read_u16, read_u32, read_u64,
}
use model_crypt.Files.Posix.{File, s_isreg}
use model_crypt.Files.Paths.{find_last_of, directory_of, template_for}
use model_crypt.Files.Read.{
  read_fully, check_stat, after_reset, after_checks, after_open, read_file,
}
use model_crypt.Files.Write.{write_fully, after_fchmod, after_mkstemp, write_file_atomically}
use model_crypt.Api.{effective}
use model_crypt.Api.Files.{Host, State, to_path, mc_encrypt_file, read_and_decrypt, mc_decrypt_file}
use model_crypt.Api.Files.Laws.{mc_encrypt_file-err, mc_decrypt_file-err}
use model_crypt.Api.Files.RoundTrip.{mc_decrypt_file-mc_encrypt_file, mc_decrypt_file-Verified}
use model_crypt.Examples.Platform.{
  toy, toy-IsSound, toy-Inverts, toy_seal, toy_compress, all_bytes, all_zeros, all_bytes-IsByte,
}
use model_crypt.Examples.Files.{key, header_bytes, chunk_bytes}
use model_crypt.Examples.ToyPosix.{toy_posix, toy_entry}
use model_crypt.Examples.ToyPosix.Laws.{toy_system, toy_system-target}
use model_crypt.Examples.System.{model_path, model_path-Apart}

abbrev pub host : Host
host = record { services = toy; posix = toy_posix; new_string = λ n w. (true, w) }

abbrev pub model : File
model = record { mode = 416; contents = zeros 3 }

abbrev pub before : State host
before = record {
  services = tt;
  system = record { temporary = none; target = some model; whole = []; rest = []; signals = 1 };
}

abbrev sealed : State host
sealed = (mc_encrypt_file host 60 (some key) 12 none (some model_path) (some model_path) before).1

sealed_ok :
    (mc_encrypt_file host 60 (some key) 12 none (some model_path) (some model_path) before).0
    ≡ some (ok tt)
unfolding mc_encrypt_file to_path effective read_file after_open after_checks check_stat s_isreg
    after_reset read_fully write_file_atomically after_mkstemp after_fchmod write_fully template_for
    directory_of find_last_of toy_entry encrypt_buffer check_arguments default_options
    validate_options kdf_memory worst_case_size fill_header chunk_count_for max_stored_size_for
    seal_chunks seal_chunk choose_payload memcpy slice allocate shrink write_file
    serialize_file_header serialize_chunk_header build_aad build_nonce write_u8 write_u16 write_u32
    write_u64 toy_seal toy_compress all_bytes all_zeros model_crypt.Format.Sizes.chunk_plain_size
sealed_ok = refl

-- The disk that has come of it.
abbrev stored : State host
stored = record {
  services = tt;
  system = record {
    temporary = none;
    target = some (record { mode = 420; contents = header_bytes ++ chunk_bytes });
    whole = [];
    rest = [];
    signals = 0;
  };
}

kept :
    toy_system.file sealed.system (toy_system.entry model_path)
    ≡ toy_system.file stored.system (toy_system.entry model_path)
unfolding mc_encrypt_file to_path effective read_file after_open after_checks check_stat s_isreg
    after_reset read_fully write_file_atomically after_mkstemp after_fchmod write_fully template_for
    directory_of find_last_of toy_entry encrypt_buffer check_arguments default_options
    validate_options kdf_memory worst_case_size fill_header chunk_count_for max_stored_size_for
    seal_chunks seal_chunk choose_payload memcpy slice allocate shrink write_file
    serialize_file_header serialize_chunk_header build_aad build_nonce write_u8 write_u16 write_u32
    write_u64 toy_seal toy_compress all_bytes all_zeros model_crypt.Format.Sizes.chunk_plain_size
kept =
    toy_system-target model_path sealed.system refl
    ∙ sym (toy_system-target model_path stored.system refl)

opened_ok :
    (mc_decrypt_file host 60 (some key) 12 (some model_path) (some model_path) stored).0
    ≡ some (ok tt)
unfolding mc_decrypt_file read_and_decrypt to_path read_file after_open after_checks check_stat
    s_isreg after_reset read_fully write_file_atomically after_mkstemp after_fchmod write_fully
    template_for directory_of find_last_of toy_entry decrypt_buffer parse_file_header slice read_u8
    read_u16 read_u32 read_u64 kdf_memory chunk_count_for max_stored_size_for walk_chunk_table
    walk_records walk_record chunk_plain_size allocate parse_chunk_header open_file open_chunk
    open_chunks build_aad build_nonce memcpy write_u8 write_u32
opened_ok = refl

found : toy_system.file before.system (toy_system.entry model_path) ≡ some model
unfolding toy_entry
found = toy_system-target model_path before.system refl

mc_decrypt_file-mc_encrypt_file_example :
    toy_system.file
      (mc_decrypt_file host 60 (some key) 12 (some model_path) (some model_path) stored).1.system
      (toy_system.entry model_path)
    ≡ some (record { mode = 384; contents = zeros 3 })
mc_decrypt_file-mc_encrypt_file_example =
    mc_decrypt_file-mc_encrypt_file host toy-IsSound toy-Inverts toy_system 60 key 12 none
      model_path model_path model_path before stored model model_path-Apart model_path-Apart found
      sealed_ok kept opened_ok

stored_file :
    toy_system.file stored.system (toy_system.entry model_path)
    ≡ some (record { mode = 420; contents = header_bytes ++ chunk_bytes })
unfolding toy_entry
stored_file = toy_system-target model_path stored.system refl

stored-IsByte : All IsByte (header_bytes ++ chunk_bytes)
unfolding all_bytes
stored-IsByte = all_bytes-IsByte (header_bytes ++ chunk_bytes) refl

mc_decrypt_file-Verified_example :
    (plain : Bytes) × (n : ℕ) × Verified toy
      (slice key 0 12)
      (header_bytes ++ chunk_bytes)
      (length (header_bytes ++ chunk_bytes))
      plain
      n
    × (toy_system.file
          (mc_decrypt_file host 60
            (some key)
            12
            (some model_path)
            (some model_path)
            stored).1.system
          (toy_system.entry model_path)
        ≡ some (record { mode = 384; contents = slice plain 0 n }))
mc_decrypt_file-Verified_example =
    mc_decrypt_file-Verified host toy-IsSound toy_system 60 key 12 model_path model_path stored
      (record { mode = 420; contents = header_bytes ++ chunk_bytes }) model_path-Apart stored_file
      stored-IsByte opened_ok

-- A file that is no container, and a key that is too short.
not_opened :
    (mc_decrypt_file host 60 (some key) 12 (some model_path) (some model_path) before).0
    ≡ some (err format)
unfolding mc_decrypt_file read_and_decrypt to_path read_file after_open after_checks check_stat
    s_isreg after_reset read_fully toy_entry decrypt_buffer parse_file_header memcpy
not_opened = refl

mc_decrypt_file-err_example :
    toy_system.file
      (mc_decrypt_file host 60 (some key) 12 (some model_path) (some model_path) before).1.system
      (toy_system.entry model_path)
    ≡ toy_system.file before.system (toy_system.entry model_path)
mc_decrypt_file-err_example =
    mc_decrypt_file-err host toy_system model_path model_path-Apart 60 (some key) 12
      (some model_path) before format not_opened

not_sealed :
    (mc_encrypt_file host 60 (some key) 11 none (some model_path) (some model_path) before).0
    ≡ some (err invalid_arg)
unfolding mc_encrypt_file to_path effective read_file after_open after_checks check_stat s_isreg
    after_reset read_fully toy_entry encrypt_buffer check_arguments memcpy
not_sealed = refl

mc_encrypt_file-err_example :
    toy_system.file
      (mc_encrypt_file host 60
        (some key)
        11
        none
        (some model_path)
        (some model_path)
        before).1.system
      (toy_system.entry model_path)
    ≡ toy_system.file before.system (toy_system.entry model_path)
mc_encrypt_file-err_example =
    mc_encrypt_file-err host toy_system model_path model_path-Apart 60 (some key) 11 none
      (some model_path) before invalid_arg not_sealed
