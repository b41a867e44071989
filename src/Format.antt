-- ===== src/Format.antt =====
-- src/crypt/format.{h,cc}: the byte layout of a `.mcrypt` file and the rules of its parser.
-- `Types` has the constants and structs, `Endian` the integer codecs, `Header` and `Record` the two
-- fixed-size structures, `Sizes` the chunk arithmetic, `Layout` the segments that each structure is made of.
pub mod Types
pub mod Endian
pub mod Sizes
pub mod Header
pub mod Record
pub mod Layout
