-- ===== src/Cli.antt =====
-- The command line tool (packages/cli/src): what of it computes.
pub mod Bytes
pub mod Png
