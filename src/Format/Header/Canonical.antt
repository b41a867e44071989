-- ===== src/Format/Header/Canonical.antt =====
-- Whatever ParseFileHeader accepts is valid and in its one encoding.
use model_crypt.Common.{ℕ, ◌+◌, ◌≤◌, ◌≡◌, refl, sym, ◌∙◌, [], ◌∷◌, arith, length, All, some}
use model_crypt.Common.Buffer.{Bytes, IsByte, slice, slice_glue, length-slice, All-slice}
use model_crypt.Common.Segments.{concat}
use model_crypt.Common.Result.{ok}
use model_crypt.Format.Types.{FileHeader}
use model_crypt.Format.Endian.{
  read_u8, read_u16, read_u32, read_u64, u16_bytes, u32_bytes, u64_bytes,
}
use model_crypt.Format.Endian.Values.{bytes-read_u8, bytes-read_u16, bytes-read_u32, bytes-read_u64}
use model_crypt.Format.Layout.{header_segments, serialize_file_header-segments}
use model_crypt.Format.Header.{serialize_file_header, parse_file_header}
use model_crypt.Format.Header.Validity.{IsValid, Accepted, parse_fields-Accepted}

module _ (bs : Bytes) (in_size : ℕ) (h : FileHeader) (bytes : All IsByte bs)
    (there : 64 ≤ length bs) where
  encoded_u8 : (i : ℕ) {v : ℕ} → v ≡ read_u8 bs i → i + 1 ≤ 64 → v ∷ [] ≡ slice bs i 1
  encoded_u8 i e fits = rw e (bytes-read_u8 bs bytes i (omega arith))

  encoded_u16 : (i : ℕ) {v : ℕ} → v ≡ read_u16 bs i → i + 2 ≤ 64 → u16_bytes v ≡ slice bs i 2
  encoded_u16 i e fits = rw e (bytes-read_u16 bs bytes i (omega arith))

  encoded_u32 : (i : ℕ) {v : ℕ} → v ≡ read_u32 bs i → i + 4 ≤ 64 → u32_bytes v ≡ slice bs i 4
  encoded_u32 i e fits = rw e (bytes-read_u32 bs bytes i (omega arith))

  encoded_u64 : (i : ℕ) {v : ℕ} → v ≡ read_u64 bs i → i + 8 ≤ 64 → u64_bytes v ≡ slice bs i 8
  encoded_u64 i e fits = rw e (bytes-read_u64 bs bytes i (omega arith))

  Accepted-IsValid : Accepted bs in_size h → IsValid h
  Accepted-IsValid a = record {
    version = a.version.1;
    kdf = a.kdf.1;
    aead = a.aead.1;
    compression = a.compression.1;
    log_n_low = a.log_n.1;
    log_n_high = a.log_n.2;
    r_low = a.r.1;
    r_high = a.r.2;
    p_low = a.p.1;
    p_high = a.p.2;
    memory = a.memory;
    salted = rw a.salt (length-slice bs 22 16 (omega arith));
    salt_bytes = rw a.salt (All-slice bs 22 16 bytes);
    prefixed = rw a.prefix (length-slice bs 38 8 (omega arith));
    prefix_bytes = rw a.prefix (All-slice bs 38 8 bytes);
    size_low = a.size.1;
    size_high = a.size.2;
    plaintext = a.plaintext.1;
    count = a.count.1;
  }

  Accepted-segments : Accepted bs in_size h → concat (header_segments h) ≡ slice bs 0 64
  Accepted-segments a = slice_glue bs _ _ 0 8 56 8 refl (sym a.identity) (
      slice_glue bs _ _ 8 2 54 10 refl (encoded_u16 8 a.version.0 (omega arith)) (
        slice_glue bs _ _ 10 1 53 11 refl (encoded_u8 10 a.kdf.0 (omega arith)) (
          slice_glue bs _ _ 11 1 52 12 refl (encoded_u8 11 a.aead.0 (omega arith)) (
            slice_glue bs _ _ 12 1 51 13 refl (encoded_u8 12 a.compression.0 (omega arith)) (
              slice_glue bs _ _ 13 1 50 14 refl (encoded_u8 13 a.log_n.0 (omega arith)) (
                slice_glue bs _ _ 14 4 46 18 refl (encoded_u32 14 a.r.0 (omega arith)) (
                  slice_glue bs _ _ 18 4 42 22 refl (encoded_u32 18 a.p.0 (omega arith)) (
                    slice_glue bs _ _ 22 16 26 38 refl (a.salt) (
                      slice_glue bs _ _ 38 8 18 46 refl (a.prefix) (
                        slice_glue bs _ _ 46 4 14 50 refl (encoded_u32 46 a.size.0 (omega arith)) (
                          slice_glue bs _ _ 50 8 6 58 refl
                            (encoded_u64 50 a.plaintext.0 (omega arith))
                            (slice_glue bs _ _ 58 4 2 62 refl
                              (encoded_u32 58 a.count.0 (omega arith))
                              (encoded_u16 62 (sym a.reserved) (omega arith))))))))))))))

-- Whatever ParseFileHeader accepts from a block of bytes that holds the declared input is a valid
-- header, and serializing it gives back the first 64 bytes of the block.
pub serialize_file_header-parse_file_header :
    (bs : Bytes) (in_size : ℕ) (old h : FileHeader)
    → All IsByte bs
    → in_size ≤ length bs
    → parse_file_header (some bs) in_size (some old) ≡ ok h
    → IsValid h × (serialize_file_header h ≡ slice bs 0 64)
unfolding parse_file_header
serialize_file_header-parse_file_header bs in_size old h bytes there e =
    let a = parse_fields-Accepted bs in_size h e in
    let v = Accepted-IsValid bs in_size h bytes (omega (arith, a.enough)) a in
    (
      v,
      serialize_file_header-segments h v.salted v.prefixed
          ∙ Accepted-segments bs in_size h bytes (omega (arith, a.enough)) a,
    )
