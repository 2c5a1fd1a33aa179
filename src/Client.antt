-- ===== src/Client.antt =====
-- client/src/client.rs: the Rust client. A child module for what it remembers, for the calls of the
-- controller, for the recovery of a session, for the operations, and for what they guarantee.
pub mod State
pub mod Calls
pub mod Recovery
pub mod Recovered
pub mod Operations
pub mod Changes
pub mod Effects
pub mod Desired
pub mod Agree
