-- ===== src/Cli.antt =====
-- cmd/kausality-cli: the drift monitor for the terminal.
pub mod Items
pub mod Model
pub mod Runs
pub mod Commands
