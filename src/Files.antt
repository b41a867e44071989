-- ===== src/Files.antt =====
-- src/util/file_io.cc over the calls of POSIX.
pub mod Posix
pub mod Running
pub mod Paths
pub mod Read
pub mod Write
pub mod Steps
pub mod Patience
