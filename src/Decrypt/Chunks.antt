-- ===== src/Decrypt/Chunks.antt =====
-- OpenChunk of src/crypt/decrypt.cc, and the loop of phase 3 over it.
use model_crypt.Common.{ℕ, zero, suc, ◌+◌, ◌*◌, ◌%◌, ◌^◌, List, if◌then◌else◌, get_or, not}
use model_crypt.Common.Buffer.{Bytes, slice, memcpy}
use model_crypt.Common.World.{Effect, ◌>>=◌, done}
use model_crypt.Services.{Services}
use model_crypt.Format.Types.{FileHeader}
use model_crypt.Format.Record.{build_aad, build_nonce}
use model_crypt.Decrypt.Table.{ChunkEntry, initial_entry, chunk_plain_size, is_compressed}

module _ (S : Services) (derived serialized : Bytes) (header : FileHeader) (bs : Bytes) where
  open S use {World, open_sealed, decompress_chunk}

  -- The bytes that end up at `plain_out`. What the calls leave in the buffers when they fail is wiped
  -- and never read.
  unfoldable pub open_chunk : ℕ → ChunkEntry → ℕ → Effect World Bytes
  open_chunk index entry plain_size = do
    let aad = build_aad serialized index entry.header
    let nonce = build_nonce header.nonce_prefix index
    opened ←
        open_sealed derived nonce aad (slice bs entry.offset entry.header.stored_size) entry.tag
    let inflated = decompress_chunk (slice opened 0 entry.header.stored_size) plain_size
    if not (is_compressed entry.header) then done opened else inflated

  -- The loop from chunk `index` on, by the rounds left, over the plaintext buffer.
  unfoldable pub open_chunks : List ChunkEntry → ℕ → ℕ → Bytes → Effect World Bytes
  open_chunks entries zero index plaintext = done plaintext
  open_chunks entries (suc rounds) index plaintext = do
    let plain_size = chunk_plain_size header.plaintext_size header.chunk_size index
    plain ← open_chunk index (get_or entries index initial_entry) plain_size
    open_chunks entries rounds (index + 1)
        (memcpy plaintext (index * header.chunk_size % 2 ^ 64) plain)
