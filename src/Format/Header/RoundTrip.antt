-- ===== src/Format/Header/RoundTrip.antt =====
-- What SerializeFileHeader writes, ParseFileHeader reads back.
use model_crypt.Common.{
  ℕ, ◌^◌, ◌≤◌, ◌<◌, ◌≡◌, refl, sym, [], ◌∷◌, ◌++◌, arith, length, length-append, take, get_or, All,
  All-append, some, append-nil,
}
use model_crypt.Common.Buffer.{Bytes, IsByte, slice}
use model_crypt.Common.Segments.{concat, concat-append, slice-concat, concat-IsByte}
use model_crypt.Common.Result.{ok}
use model_crypt.Format.Types.{FileHeader}
use model_crypt.Format.Endian.Values.{read_u8-slice, read_u16-slice, read_u32-slice, read_u64-slice}
use model_crypt.Format.Sizes.{chunk_count_for}
use model_crypt.Format.Layout.{header_segments, serialize_file_header-segments}
use model_crypt.Format.Header.{serialize_file_header, parse_file_header}
use model_crypt.Format.Header.Validity.{IsValid, Accepted, parse_fields-ok}

chunk_count_for-lt : (p c : ℕ) → chunk_count_for p c < 2 ^ 32
unfolding chunk_count_for
chunk_count_for-lt p c = ground arith

module _ (h : FileHeader) (v : IsValid h) where
  count_fits : h.chunk_count < 2 ^ 32
  count_fits = omega (arith, v.count, chunk_count_for-lt h.plaintext_size h.chunk_size)

  segments-IsByte : All (All IsByte) (header_segments h)
  segments-IsByte = (
    omega arith,
    (
      omega arith,
      (
        omega arith,
        (
          omega arith,
          (
            omega arith,
            (
              omega arith,
              (
                omega arith,
                (
                  omega arith,
                  (
                    v.salt_bytes,
                    (
                      v.prefix_bytes,
                      (omega arith, (omega arith, (omega arith, (omega arith, tt)))),
                    ),
                  ),
                ),
              ),
            ),
          ),
        ),
      ),
    ),
  )

  pub serialize_file_header-IsByte : All IsByte (serialize_file_header h)
  serialize_file_header-IsByte =
      rw (serialize_file_header-segments h v.salted v.prefixed)
        (concat-IsByte (header_segments h) segments-IsByte)

  pub length-serialize_file_header : length (serialize_file_header h) ≡ 64
  length-serialize_file_header =
      rw (serialize_file_header-segments h v.salted v.prefixed)
        (omega (arith, v.salted, v.prefixed, length-append h.salt, length-append h.nonce_prefix))

  module _ (rest : Bytes) (bytes : All IsByte rest) where
    file : Bytes
    file = serialize_file_header h ++ rest

    file-segments : file ≡ concat (header_segments h ++ (rest ∷ []))
    unfolding file
    file-segments = rw (
      serialize_file_header-segments h v.salted v.prefixed,
      concat-append (header_segments h) (rest ∷ []),
      append-nil rest,
    )

    file-IsByte : All IsByte file
    unfolding file
    file-IsByte =
        All-append IsByte (serialize_file_header h) rest serialize_file_header-IsByte bytes

    length-file : 64 ≤ length file
    unfolding file
    length-file =
        omega (arith, length-append (serialize_file_header h) rest, length-serialize_file_header)

    segment_at :
        (k i n : ℕ)
        → length (concat (take k (header_segments h ++ (rest ∷ [])))) ≡ i
        → length (get_or (header_segments h ++ (rest ∷ [])) k []) ≡ n
        → slice file i n ≡ get_or (header_segments h ++ (rest ∷ [])) k []
    segment_at k i n p q =
        rw file-segments (slice-concat k (header_segments h ++ (rest ∷ [])) i n p q)

    file-Accepted : (in_size : ℕ) → 64 ≤ in_size → Accepted file in_size h
    file-Accepted in_size enough =
        let fits = length-file in
        record {
          enough = enough;
          identity = segment_at 0 0 8 refl refl;
          version = (
            sym (
                read_u16-slice file file-IsByte 8 h.format_version (omega arith) (omega arith)
                  (segment_at 1 8 2 refl refl)),
            v.version,
          );
          kdf = (
            sym (
                read_u8-slice file file-IsByte 10 h.kdf_id (omega arith) (omega arith)
                  (segment_at 2 10 1 refl refl)),
            v.kdf,
          );
          aead = (
            sym (
                read_u8-slice file file-IsByte 11 h.aead_id (omega arith) (omega arith)
                  (segment_at 3 11 1 refl refl)),
            v.aead,
          );
          compression = (
            sym (
                read_u8-slice file file-IsByte 12 h.compression_id (omega arith) (omega arith)
                  (segment_at 4 12 1 refl refl)),
            v.compression,
          );
          log_n = (
            sym (
                read_u8-slice file file-IsByte 13 h.kdf_log_n (omega arith) (omega arith)
                  (segment_at 5 13 1 refl refl)),
            v.log_n_low,
            v.log_n_high,
          );
          r = (
            sym (
                read_u32-slice file file-IsByte 14 h.kdf_r (omega arith) (omega arith)
                  (segment_at 6 14 4 refl refl)),
            v.r_low,
            v.r_high,
          );
          p = (
            sym (
                read_u32-slice file file-IsByte 18 h.kdf_p (omega arith) (omega arith)
                  (segment_at 7 18 4 refl refl)),
            v.p_low,
            v.p_high,
          );
          memory = v.memory;
          salt = sym (segment_at 8 22 16 refl v.salted);
          prefix = sym (
              segment_at 9 38 8
                (omega
                  (arith, v.salted, v.prefixed, length-append h.salt, length-append h.nonce_prefix))
                v.prefixed);
          size = (
            sym (
                read_u32-slice file file-IsByte 46 h.chunk_size (omega arith) (omega arith) (
                  segment_at 10 46 4
                    (omega (
                      arith,
                      v.salted,
                      v.prefixed,
                      length-append h.salt,
                      length-append h.nonce_prefix,
                    ))
                    refl)),
            v.size_low,
            v.size_high,
          );
          plaintext = (
            sym (
                read_u64-slice file file-IsByte 50 h.plaintext_size (omega arith) (omega arith) (
                  segment_at 11 50 8
                    (omega (
                      arith,
                      v.salted,
                      v.prefixed,
                      length-append h.salt,
                      length-append h.nonce_prefix,
                    ))
                    refl)),
            v.plaintext,
          );
          count = (
            sym (
                read_u32-slice file file-IsByte 58 h.chunk_count count_fits (omega arith) (
                  segment_at 12 58 4
                    (omega (
                      arith,
                      v.salted,
                      v.prefixed,
                      length-append h.salt,
                      length-append h.nonce_prefix,
                    ))
                    refl)),
            v.count,
          );
          reserved = read_u16-slice file file-IsByte 62 0 (omega arith) (omega arith) (
              segment_at 13 62 2
                (omega
                  (arith, v.salted, v.prefixed, length-append h.salt, length-append h.nonce_prefix))
                refl);
        }

-- A valid header, serialized and followed by any bytes, parses back to itself, whatever the parsed
-- struct held before, if the declared input size covers the 64 bytes of the header.
pub parse_file_header-serialize_file_header :
    (h : FileHeader) (rest : Bytes) (in_size : ℕ) (old : FileHeader)
    → IsValid h
    → All IsByte rest
    → 64 ≤ in_size
    → parse_file_header (some (serialize_file_header h ++ rest)) in_size (some old) ≡ ok h
unfolding parse_file_header file
parse_file_header-serialize_file_header h rest in_size old v bytes enough =
    parse_fields-ok _ in_size h (file-Accepted h v rest bytes in_size enough)
