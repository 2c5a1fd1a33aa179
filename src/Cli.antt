-- ===== src/Cli.antt =====
-- The command line of the controller. A child module for the parser, for the settings that its loop reads, and for
-- the configurations that it accepts.
pub mod Parse
pub mod Settings
pub mod Accepted
