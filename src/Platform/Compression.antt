-- ===== src/Platform/Compression.antt =====
-- CompressChunk and DecompressChunk of src/crypt/compress.cc.
use model_crypt.Common.{
  ℕ, ◌-◌, ◌^◌, ◌<◌, ◌≡◌, refl, Option, some, Bool, true, false, not, ◌&&◌, ◌||◌, [], ltb, leb, ◌/=◌,
  /=_self, arith, length, if◌then◌else◌,
}
use model_crypt.Common.Buffer.{Bytes, slice, slice_self}
use model_crypt.Common.Result.{Result, ok, err, invalid_arg, memory, compress}
use model_crypt.Common.World.{Effect, ◌>>◌, reject_if, bind-eq_ok, checked-eq_ok, bind_then}
use model_crypt.Encrypt.Options.{is_null, memory_at}
use model_crypt.Platform.Libraries.{
  Libraries, ZlibCode, z_ok, z_stream_end, z_buf_error, z_other, Reverses,
}

abbrev pub fits_in_uint : ℕ → Bool
fits_in_uint size = leb size (2 ^ 32 - 1)

-- The stream and `*smaller`, from what deflate returned.
unfoldable pub judge_deflate : ℕ → ZlibCode × Bytes → Result (Bytes × Bool)
judge_deflate in_size (z_stream_end, produced) = ok (produced, ltb (length produced) in_size)
judge_deflate in_size (z_ok, produced) = ok ([], false)
judge_deflate in_size (z_buf_error, produced) = ok ([], false)
judge_deflate in_size (z_other, produced) = err compress

abbrev pub is_stream_end : ZlibCode → Bool
is_stream_end z_stream_end = true
is_stream_end z_ok = false
is_stream_end z_buf_error = false
is_stream_end z_other = false

-- The plaintext, from what inflate returned: all three tests must hold.
unfoldable pub judge_inflate : ℕ → ZlibCode × Bytes × ℕ → Result Bytes
judge_inflate out_size (code, produced, remaining_in) =
    if not (is_stream_end code) || length produced /= out_size || remaining_in /= 0
    then err compress
    else ok produced

-- What a stream that is kept says of deflate.
judge_deflate-smaller :
    (in_size : ℕ) (answer : ZlibCode × Bytes) (stream : Bytes)
    → judge_deflate in_size answer ≡ ok (stream, true)
    → (answer ≡ (z_stream_end, stream)) × (length stream < in_size)
unfolding judge_deflate
judge_deflate-smaller in_size (z_stream_end, produced) stream e = ground arith
judge_deflate-smaller in_size (z_ok, produced) stream e = cc
judge_deflate-smaller in_size (z_buf_error, produced) stream e = cc
judge_deflate-smaller in_size (z_other, produced) stream e = cc

judge_inflate-length :
    (out_size : ℕ) (answer : ZlibCode × Bytes × ℕ) (plain : Bytes)
    → judge_inflate out_size answer ≡ ok plain
    → length plain ≡ out_size
unfolding judge_inflate
judge_inflate-length out_size (code, produced, left) plain e = ground arith

judge_inflate_whole :
    (plain : Bytes) (answer : ZlibCode × Bytes × ℕ)
    → answer ≡ (z_stream_end, plain, 0)
    → judge_inflate (length plain) answer ≡ ok plain
unfolding judge_inflate
judge_inflate_whole plain answer e = rw e (rw (/=_self (length plain)) refl)

module _ (L : Libraries) where
  open L use {World, deflate_init, deflate, inflate_init, inflate}

  -- `if (init(...) != Z_OK) { return MC_ERR_MEMORY; }`
  unfoldable pub start : (World → Bool × World) → Effect World (Unit {0})
  start init w = let (ready, w') = init w in reject_if (not ready) memory w'

  -- `out` and `room` are the buffer that the stream goes to; `out_size` and `smaller` say whether
  -- those pointers are null.
  unfoldable pub compress_chunk :
      Option Bytes
      → ℕ
      → Option (Unit {0})
      → ℕ
      → (out_size smaller : Option (Unit {0})) → Effect World (Bytes × Bool)
  unfolding start
  compress_chunk input in_size out room out_size smaller = do
    reject_if (is_null input || is_null out || is_null out_size || is_null smaller) invalid_arg
    reject_if (not (fits_in_uint in_size) || not (fits_in_uint room)) invalid_arg
    start deflate_init
    λ w.
        let (answer, w') = deflate (slice (memory_at input) 0 in_size) room w in
        (judge_deflate in_size answer, w')

  unfoldable pub decompress_chunk : Option Bytes → ℕ → Option (Unit {0}) → ℕ → Effect World Bytes
  unfolding start
  decompress_chunk input in_size out out_size = do
    reject_if (is_null input || ltb 0 out_size && is_null out) invalid_arg
    reject_if (not (fits_in_uint in_size) || not (fits_in_uint out_size)) invalid_arg
    start inflate_init
    λ w.
        let (answer, w') = inflate (slice (memory_at input) 0 in_size) out_size w in
        (judge_inflate out_size answer, w')

  -- A stream that is kept came out of deflate, complete and smaller than its input.
  pub compress_chunk-smaller :
      (plain : Bytes) (room : ℕ) (w : World) (stream : Bytes)
      → (compress_chunk (some plain) (length plain) (some tt) room (some tt) (some tt) w).0
        ≡ ok (stream, true)
      → (v : World) × ((deflate plain room v).0 ≡ (z_stream_end, stream))
        × (length stream < length plain)
        × (fits_in_uint (length plain) ≡ true)
  unfolding compress_chunk
  compress_chunk-smaller plain room w stream e =
      let (fits, e1) =
        checked-eq_ok (not (fits_in_uint (length plain)) || not (fits_in_uint room)) invalid_arg _ w
          e in
      let (_, _, e2) = bind-eq_ok (start deflate_init) _ w e1 in
      let whole : slice plain 0 (length plain) ≡ plain = slice_self plain (length plain) refl in
      let (same, smaller) = judge_deflate-smaller (length plain) _ stream (rw whole at e2) in
      (_, same, smaller, ground (arith, fits))

  pub decompress_chunk-length :
      (stream : Bytes) (size : ℕ) (w : World) (plain : Bytes)
      → (decompress_chunk (some stream) (length stream) (some tt) size w).0 ≡ ok plain
      → length plain ≡ size
  unfolding decompress_chunk
  decompress_chunk-length stream size w plain e =
      let (_, e0) = checked-eq_ok (ltb 0 size && false) invalid_arg _ w e in
      let (_, e1) =
        checked-eq_ok (not (fits_in_uint (length stream)) || not (fits_in_uint size)) invalid_arg _
          w e0 in
      let (_, _, e2) = bind-eq_ok (start inflate_init) _ w e1 in
      judge_inflate-length size _ plain e2

  pub decompress-compress :
      Reverses L
      → (plain : Bytes) (room : ℕ) (w : World) (stream : Bytes)
      → (compress_chunk (some plain) (length plain) (some tt) room (some tt) (some tt) w).0
        ≡ ok (stream, true)
      → (v : World)
      → (decompress_chunk (some stream) (length stream) (some tt) (length plain) v).0 ≡ ok plain
  unfolding decompress_chunk
  decompress-compress r plain room w stream e v =
      let (u, same, smaller, fits) = compress_chunk-smaller plain room w stream e in
      let no_null : (ltb 0 (length plain) && false) ≡ false = ground arith in
      let sizes : (not (fits_in_uint (length stream)) || not (fits_in_uint (length plain)))
          ≡ false =
        ground arith in
      let whole : slice stream 0 (length stream) ≡ stream =
        slice_self stream (length stream) refl in
      rw (no_null, sizes, whole)
        (bind_then (start inflate_init) _ v (unfold start in rw (r.inflate_init_succeeds v))
          (λ v1. judge_inflate_whole plain _ (r.inflates plain room u stream same v1)))
