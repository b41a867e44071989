-- ===== src/Lib.antt =====
-- model-crypt: the authenticated, chunked container of src/crypt, and the functions over it.
--
-- A `.mcrypt` file is a 64-byte header and one record per chunk of plaintext, each record followed by
-- its ciphertext. EncryptBuffer validates its options, draws a salt and a nonce prefix, derives a key,
-- and seals each chunk, compressed when that is smaller, over associated data that binds it to the
-- header and its index. DecryptBuffer parses the header, walks the chunk table without a key, opens
-- chunk 0, and only then allocates the plaintext and opens the rest.
--
-- Which file models what:
--   Common      tests, lists and byte buffers on native numbers; `Result` for functions that return an
--               mc_status, `World` for those that also reach the platform
--   Format      src/crypt/format.h and format.cc. Types: constants and structs. Endian: WriteU8 to
--               ReadU64. Sizes: ChunkCountFor, MaxStoredSizeFor, ChunkPlainSize. Header:
--               SerializeFileHeader, ParseFileHeader. Record: SerializeChunkHeader, ParseChunkHeader,
--               BuildAad, BuildNonce. Layout describes each of these as a list of segments
--   Services    what encrypt.cc and decrypt.cc call: SecureBuffer::Reset, random_bytes::Fill,
--               kdf::DeriveKey, aead::Seal and Open, CompressChunk and DecompressChunk, as a record of
--               operations; `IsSound` and `Inverts` are the laws that the results name
--   Platform    the bodies behind Services: aead.cc, compress.cc, kdf.cc and random.cc of src/crypt,
--               and SecureBuffer::Reset. Libraries: the calls of OpenSSL, zlib and the kernel, as
--               parameters, and what their manuals say of them. Implementation: the record of services
--               that these bodies make, and the laws it keeps
--   Encrypt     src/crypt/encrypt.cc. Options: ValidateOptions and the argument checks. Loop: one
--               round of the chunk loop, and the loop. Buffer: EncryptBuffer
--   Decrypt     src/crypt/decrypt.cc. Table: WalkChunkTable's loop. Chunks: OpenChunk. Buffer: the
--               three phases of DecryptBuffer. Inspect: InspectBuffer. Bounds, Records,
--               Authentic and Verified are about what a success has checked
--   Container   both halves together: what the writer leaves (Sealed, Written, Produced, Encrypted),
--               how the reader takes it apart (Walked, Opened, Accepted), RoundTrip, files of
--               another size (Truncated), and calls that are bound to succeed (Returns, Succeeds)
--   Files       src/util/file_io.cc. Posix: the calls of POSIX, as a parameter, and the laws of a
--               file system. Running: loops on fuel. Paths: DirectoryOf. Read: ReadFully, ReadFile.
--               Write: WriteFully, WriteFileAtomically. Steps: the writer as a machine that may be
--               stopped between any two calls. Patience: how much fuel is enough
--   Api         src/api/c_api.cc. The buffer functions over the caller's two out-cells; Files:
--               mc_encrypt_file, mc_decrypt_file, mc_decrypt_file_to_buffer; Status:
--               mc_status_string, mc_generate_key
--   Secure      src/crypt/secure_buffer.cc and mc_free: buffers that own blocks of a heap, as they are
--               allocated, written to, moved, assigned, released and destroyed
--   Cli         src/cli/main.cc. Args: ParseArgs. Numbers: ParseU32. Keys: the key sources and
--               LoadKey. Commands: the commands, Run, and their exit codes
--   Examples    toy libraries, a toy platform, a toy file system, files of them byte for byte, and the
--               results at them
--
-- How they interact: a command of Cli calls the file functions of Api, which read with Files, run
-- Encrypt or Decrypt over Services, and write with Files. Platform fills Services, so that a result
-- about any sound services holds for the bodies the repository has.
--
-- How state and operations correspond: a pointer is an Option, and a memory block the list of its
-- bytes. A function that returns mc_status returns `ok` with what it stored through its out-parameters,
-- or the error. Calls that reach the platform take its state and leave another, so nothing is assumed
-- about two calls agreeing. The services' state and the file system's are two halves of the machine.
-- The container's loops run by the rounds left, which the code's loop bound gives, so they take no
-- fuel. The loops around read and write take fuel, since those calls may be interrupted for ever;
-- Files/Patience shows how much is enough once the interruptions are bounded. Integers are native
-- numbers with the wrap-around of their C++ type written out; size_t has 64 bits and
-- sizeof(ChunkEntry) is 32. The out-cells of the C interface do not overlap, and the enum of
-- mc_encrypt_options holds no negative number.
--
-- Not modelled: the text that the command line prints, the handler for exceptions in main, and the
-- version functions. A failure to allocate the strings inside
-- WriteFileAtomically is left out, and so are the durability of fsync and other processes that change
-- the same files. Outside Secure and Platform, memory that is wiped after a failure is never read, so
-- those wipes do not appear. The tests, the scripts and the build are left out.
pub mod Common
pub mod Format
pub mod Services
pub mod Encrypt
pub mod Decrypt
pub mod Container
pub mod Platform
pub mod Files
pub mod Api
pub mod Secure
pub mod Cli
pub mod Examples
