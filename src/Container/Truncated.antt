-- ===== src/Container/Truncated.antt =====
-- DecryptBuffer of src/crypt/decrypt.cc accepts no proper part of a file that it accepts.
use model_crypt.Common.{
  ℕ, ◌+◌, ◌^◌, ◌≤◌, ◌<◌, ◌≡◌, ◌≢◌, sym, ◌∙◌, ap, subst, some, List, [], ◌∷◌, ◌++◌, arith, length,
  All, drop, ◌-◌,
}
use model_crypt.Common.Buffer.{Bytes, IsByte}
use model_crypt.Common.Result.{ok, ok_injective}
use model_crypt.Services.{Services, IsSound}
use model_crypt.Format.Types.{FileHeader, initial_header}
use model_crypt.Format.Header.{parse_file_header, serialize_file_header}
use model_crypt.Format.Header.Validity.{IsValid}
use model_crypt.Format.Header.Canonical.{serialize_file_header-parse_file_header}
use model_crypt.Format.Header.RoundTrip.{parse_file_header-serialize_file_header}
use model_crypt.Format.Endian.{read_u32}
use model_crypt.Decrypt.Table.{ChunkEntry}
use model_crypt.Decrypt.Buffer.{decrypt_buffer}
use model_crypt.Decrypt.Bounds.{Tiles}
use model_crypt.Decrypt.Records.{InFile}
use model_crypt.Decrypt.Verified.{decrypt_buffer-Verified}

-- A valid header is determined by its bytes.
header_unique :
    (h h' : FileHeader)
    → IsValid h
    → IsValid h'
    → serialize_file_header h ≡ serialize_file_header h'
    → h ≡ h'
header_unique h h' v v' same = ok_injective (
    sym (parse_file_header-serialize_file_header h [] 64 initial_header v tt (omega arith))
    ∙ (ap (λ t. parse_file_header (some (t ++ [])) 64 (some initial_header)) same
        ∙ parse_file_header-serialize_file_header h' [] 64 initial_header v' tt (omega arith)))

-- Two tables of as many entries that are read from the same bytes end at the same place.
end_unique :
    (bs : Bytes) (h : FileHeader) (index start : ℕ) (entries entries' : List ChunkEntry)
    (end end' : ℕ)
    → length entries ≡ length entries'
    → Tiles h index start entries end
    → Tiles h index start entries' end'
    → All (InFile bs h) entries
    → All (InFile bs h) entries'
    → end ≡ end'
end_unique bs h index start [] [] end end' n t t' r r' = sym t ∙ t'
end_unique bs h index start [] (e' ∷ es') end end' n t t' r r' = absurd (omega (arith, n))
end_unique bs h index start (e ∷ es) [] end end' n t t' r r' = absurd (omega (arith, n))
end_unique bs h index start (e ∷ es) (e' ∷ es') end end' n (at_e, _, _, t) (at_e', _, _, t')
      (one, r) (one', r') =
    let placed : e.offset ≡ e'.offset = at_e ∙ sym at_e' in
    let sized : e.header.stored_size ≡ e'.header.stored_size =
      one.stored.0 ∙ (ap (λ i. read_u32 (drop (i - 24) bs) 0) placed ∙ sym one'.stored.0) in
    end_unique bs h (index + 1) (start + 24 + e.header.stored_size) es es' end end'
      (omega (arith, n)) t
      (subst (λ k. Tiles h (index + 1) (start + 24 + k) es' end') (sym sized) t') r r'

-- Both calls have read the same header and the same table.
decrypt_buffer-one_size :
    (S : Services)
    → IsSound S
    → (bs key key' : Bytes) (key_size key_size' in_size in_size' : ℕ) (out out' : Bytes)
      (out_size out_size' : ℕ) (w w' : S.World) (plain plain' : Bytes) (n n' : ℕ)
    → All IsByte bs
    → in_size ≤ length bs
    → in_size' ≤ length bs
    → length bs < 2 ^ 64
    → (decrypt_buffer S (some key) key_size (some bs) in_size (some out) (some out_size) w).0
      ≡ ok (plain, n)
    → (decrypt_buffer S (some key') key_size' (some bs) in_size' (some out') (some out_size') w').0
      ≡ ok (plain', n')
    → in_size ≡ in_size'
decrypt_buffer-one_size S sound bs key key' key_size key_size' in_size in_size' out out' out_size
      out_size' w w' plain plain' n n' bytes there there' host e e' =
    let v =
      decrypt_buffer-Verified S sound key key_size bs in_size out out_size w plain n bytes there
        (omega (arith, there, host)) e in
    let v' =
      decrypt_buffer-Verified S sound key' key_size' bs in_size' out' out_size' w' plain' n' bytes
        there' (omega (arith, there', host)) e' in
    let (_, front) =
      serialize_file_header-parse_file_header bs in_size initial_header v.header bytes there
        v.parsed in
    let (_, front') =
      serialize_file_header-parse_file_header bs in_size' initial_header v'.header bytes there'
        v'.parsed in
    let one : v'.header ≡ v.header =
      header_unique v'.header v.header v'.valid v.valid (front' ∙ sym front) in
    end_unique bs v.header 0 64 v.entries v'.entries in_size in_size'
      (v.listed ∙ (ap (λ h. h.chunk_count) (sym one) ∙ sym v'.listed)) v.tiles
      (subst (λ h. Tiles h 0 64 v'.entries in_size') one v'.tiles) v.records
      (subst (λ h. All (InFile bs h) v'.entries) one v'.records)

-- Let the platform's calls be sound. If DecryptBuffer succeeds for `in_size` of the bytes at an
-- address, then for no other size of the bytes that are there does it succeed, under whatever key and
-- state of the platform: neither a proper part of an accepted file is accepted, nor an accepted file
-- with anything behind it.
pub decrypt_buffer-other_size :
    (S : Services)
    → IsSound S
    → (bs key key' : Bytes) (key_size key_size' in_size in_size' : ℕ) (out out' : Bytes)
      (out_size out_size' : ℕ) (w w' : S.World) (plain plain' : Bytes) (n n' : ℕ)
    → All IsByte bs
    → in_size ≤ length bs
    → in_size' ≤ length bs
    → length bs < 2 ^ 64
    → (decrypt_buffer S (some key) key_size (some bs) in_size (some out) (some out_size) w).0
      ≡ ok (plain, n)
    → in_size ≢ in_size'
    → (decrypt_buffer S (some key') key_size' (some bs) in_size' (some out') (some out_size') w').0
      ≢ ok (plain', n')
decrypt_buffer-other_size S sound bs key key' key_size key_size' in_size in_size' out out' out_size
      out_size' w w' plain plain' n n' bytes there there' host e differ e' =
    differ (
      decrypt_buffer-one_size S sound bs key key' key_size key_size' in_size in_size' out out'
        out_size out_size' w w' plain plain' n n' bytes there there' host e e')
