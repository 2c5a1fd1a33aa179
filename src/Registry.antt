-- ===== src/Registry.antt =====
-- The registry's invariants: the indexes of controller/src/core/runtime.rs agree with one another after
-- every operation.
pub mod Views
pub mod Untrack
pub mod Invariant
pub mod Unbind
pub mod Catalog
pub mod Remove
pub mod Release
pub mod Leave
pub mod RemoveClient
pub mod Left
pub mod Prune
pub mod Track
pub mod Forget
pub mod Replace
pub mod Same
pub mod Allowed
pub mod Enabling
pub mod EnableBackend
pub mod Attach
pub mod Detach
pub mod Session
pub mod Methods
pub mod Attachments
pub mod Steps
pub mod Granted
pub mod Streaming
pub mod Idle
pub mod Lease
pub mod Disable
pub mod Attached
pub mod Detached
pub mod Names
pub mod Reenable
