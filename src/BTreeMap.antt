-- ===== src/BTreeMap.antt =====
-- `std::collections::BTreeMap` as the controller uses it: a list of entries in key order, with the
-- proof of the order kept beside it. Clients have the operations and the laws.
pub mod Entries
mod Defs
mod Laws
unfoldable pub use Defs.*
pub use Laws.*
