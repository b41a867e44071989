-- ===== src/Examples.antt =====
-- Runs on concrete inputs.
mod Platform
mod ToyLibraries
mod Sources
mod ToyPosix
mod System
mod SealedFiles
mod Buffers
mod Commands
mod Files
mod Formats
mod Runs
