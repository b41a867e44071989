-- ===== src/Cli.antt =====
-- src/cli/main.cc: its exit codes and what it does; the texts that it prints are left out.
pub mod Args
pub mod Numbers
pub mod Keys
pub mod Commands
