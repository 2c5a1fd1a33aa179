-- ===== src/Types.antt =====
-- client/src/types.rs: the data that hosts, clients and the controller exchange.
mod Config
mod Requests
mod Snapshots
pub use Config.*
pub use Requests.*
pub use Snapshots.*
