-- ===== src/Runtime.antt =====
-- controller/src/core/runtime.rs: the registry of clients, spaces, backend bindings and query
-- streams. Every public method locks the state, so it runs as one step; a method here maps the state
-- to a result and the new state.
pub mod Fault
pub mod Message
pub mod Key
pub mod State
pub mod Keys
pub mod Validate
pub mod Access
pub mod Bindings
pub mod Clients
pub mod Sessions
pub mod Snapshots
pub mod Spaces
pub mod Backends
pub mod Enable
pub mod Streams
pub mod Shutdown
pub mod Listing
