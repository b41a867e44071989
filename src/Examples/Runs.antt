-- ===== src/Examples/Runs.antt =====
-- Reading the file of three zeros, inspecting it, and the calls of the C interface.
use model_crypt.Common.{◌+◌, ◌*◌, ◌^◌, ◌≤◌, ◌≡◌, ◌≢◌, refl, some, List, [], ◌∷◌, arith, length, All}
use model_crypt.Common.Buffer.{IsByte, slice, memcpy, zeros}
use model_crypt.Common.Result.{ok}
use model_crypt.Format.Types.{max_file_size, FileHeader, initial_header}
use model_crypt.Format.Sizes.{kdf_memory, chunk_count_for, max_stored_size_for}
use model_crypt.Format.Header.{parse_file_header}
use model_crypt.Format.Record.{parse_chunk_header, build_aad, build_nonce}
use model_crypt.Format.Endian.{write_u8, write_u32, read_u8, read_u16, read_u32, read_u64}
use model_crypt.Encrypt.Options.{default_options}
use model_crypt.Encrypt.Buffer.{allocate, encrypt_buffer}
use model_crypt.Decrypt.Table.{ChunkEntry, chunk_plain_size, walk_record, walk_records}
use model_crypt.Decrypt.Chunks.{open_chunk, open_chunks}
use model_crypt.Decrypt.Buffer.{walk_chunk_table, open_file, decrypt_buffer}
use model_crypt.Decrypt.Inspect.{inspect_buffer}
use model_crypt.Decrypt.Bounds.{Tiles, walk_chunk_table-Tiles}
use model_crypt.Decrypt.Verified.{Verified, decrypt_buffer-Verified}
use model_crypt.Container.RoundTrip.{decrypt_buffer-encrypt_buffer}
use model_crypt.Container.Encrypted.{input_of}
use model_crypt.Container.Truncated.{decrypt_buffer-other_size}
use model_crypt.Container.Inspected.{
  promised_info, encrypt_buffer-size, encrypt_buffer-max_file_size, inspect_buffer-encrypt_buffer,
}
use model_crypt.Api.{
  Cells, release, hand_off, finish, effective, mc_encrypt_buffer, mc_decrypt_buffer,
}
use model_crypt.Api.Laws.{mc_decrypt_buffer-mc_encrypt_buffer, finish-ok}
use model_crypt.Examples.Platform.{toy, toy-IsSound, toy-Inverts, all_bytes, all_bytes-IsByte}
use model_crypt.Examples.Files.{key, three, file, written}

decrypt_buffer-encrypt_buffer_example :
    (decrypt_buffer toy (some key) 12 (some (slice file 0 89)) 89 (some []) (some 0) tt).0
    ≡ ok (input_of three 3, 3)
decrypt_buffer-encrypt_buffer_example =
    decrypt_buffer-encrypt_buffer toy toy-IsSound toy-Inverts key 12 default_options three 3
      (some []) (some 0) tt file 89 (omega arith) written [] 0 tt

encrypt_buffer-size_example :
    (64 + chunk_count_for 3 default_options.chunk_size * 24 ≤ 89)
    × (89 ≤ 64 + chunk_count_for 3 default_options.chunk_size * 24 + 3)
    × (89 ≤ length file)
encrypt_buffer-size_example =
    encrypt_buffer-size toy toy-IsSound toy-Inverts key 12 default_options three 3 (some [])
      (some 0) tt file 89 (omega arith) written

encrypt_buffer-max_file_size_example : 89 ≤ max_file_size
encrypt_buffer-max_file_size_example =
    encrypt_buffer-max_file_size toy toy-IsSound toy-Inverts key 12 default_options three 3
      (some []) (some 0) tt file 89 (omega arith) written

inspect_buffer-encrypt_buffer_example :
    inspect_buffer (some (slice file 0 89)) 89 (some (promised_info default_options 0))
    ≡ ok (promised_info default_options 3)
inspect_buffer-encrypt_buffer_example =
    inspect_buffer-encrypt_buffer toy toy-IsSound toy-Inverts key 12 default_options three 3
      (some []) (some 0) tt file 89 (omega arith) written (promised_info default_options 0)

-- The whole buffer, of which the call is given the file's 89 bytes.
read : (decrypt_buffer toy (some key) 12 (some file) 89 (some []) (some 0) tt).0 ≡ ok (zeros 3, 3)
unfolding decrypt_buffer parse_file_header slice read_u8 read_u16 read_u32 read_u64 kdf_memory
    chunk_count_for max_stored_size_for walk_chunk_table walk_records walk_record chunk_plain_size
    allocate parse_chunk_header open_file open_chunk open_chunks build_aad build_nonce memcpy
    write_u8 write_u32
read = refl

file-IsByte : All IsByte file
unfolding all_bytes
file-IsByte = all_bytes-IsByte file refl

decrypt_buffer-Verified_example : Verified toy (slice key 0 12) file 89 (zeros 3) 3
decrypt_buffer-Verified_example =
    decrypt_buffer-Verified toy toy-IsSound key 12 file 89 [] 0 tt (zeros 3) 3 file-IsByte
      (omega arith) (omega arith) read

-- What the parser makes of the header, and the walk of the chunk behind it.
abbrev header : FileHeader
header = record initial_header {
  format_version = 2;
  kdf_id = 1;
  aead_id = 1;
  compression_id = 1;
  chunk_size = 2 ^ 22;
  plaintext_size = 3;
  chunk_count = 1;
}

abbrev table : List ChunkEntry
table = record { offset = 88; header = record { stored_size = 1; flags = 1 }; tag = zeros 16 } ∷ []

walked : (walk_chunk_table toy file 89 header tt).0 ≡ ok (table, 1)
unfolding slice read_u8 read_u32 max_stored_size_for walk_chunk_table walk_records walk_record
    chunk_plain_size allocate parse_chunk_header
walked = refl

walk_chunk_table-Tiles_example : (length table ≡ 1) × Tiles header 0 64 table 89
walk_chunk_table-Tiles_example =
    walk_chunk_table-Tiles toy file 89 header tt table 1 (omega arith) (omega arith) walked

abbrev before : Cells
before = record { out = some (7 ∷ []); out_size = 1 }

abbrev after : Cells
after = record { out = some file; out_size = 89 }

api_written :
    (mc_encrypt_buffer toy
      (some key)
      12
      (some default_options)
      three
      3
      (some tt)
      (some tt)
      before
      tt).0
    ≡ ok tt
unfolding mc_encrypt_buffer effective finish
api_written = rw written refl

api_stored :
    (mc_encrypt_buffer toy
      (some key)
      12
      (some default_options)
      three
      3
      (some tt)
      (some tt)
      before
      tt).1
    ≡ after
unfolding mc_encrypt_buffer effective finish hand_off
api_stored =
    (finish-ok before
      (encrypt_buffer toy (some key) 12 default_options three 3 (some []) (some 0) tt) file 89
      written).1

mc_decrypt_buffer-mc_encrypt_buffer_example :
    ((mc_decrypt_buffer toy
        (some key)
        12
        (some (slice file 0 89))
        89
        (some tt)
        (some tt)
        before
        tt).0
      ≡ ok tt)
    × ((mc_decrypt_buffer toy
          (some key)
          12
          (some (slice file 0 89))
          89
          (some tt)
          (some tt)
          before
          tt).1
        ≡ record { out = release (input_of three 3); out_size = 3 })
mc_decrypt_buffer-mc_encrypt_buffer_example =
    mc_decrypt_buffer-mc_encrypt_buffer toy toy-IsSound toy-Inverts key 12 (some default_options)
      three 3 before after tt (omega arith) api_written api_stored before tt

-- The file without its last byte.
decrypt_buffer-other_size_example :
    (decrypt_buffer toy (some key) 12 (some file) 88 (some []) (some 0) tt).0 ≢ ok (zeros 2, 2)
decrypt_buffer-other_size_example =
    decrypt_buffer-other_size toy toy-IsSound file key key 12 12 89 88 [] [] 0 0 tt tt (zeros 3)
      (zeros 2) 3 2 file-IsByte (omega arith) (omega arith) (omega arith) read
      (λ equal. omega (arith, equal))
