-- ===== src/Server.antt =====
-- controller/src/server.rs: the gRPC service. A child module for the statuses and small conversions, for the
-- snapshots, for the handlers of the control plane and the maintenance loop, and for what they guarantee;
-- Data and Tables have the handlers of the data plane for SQLite and for LanceDB.
pub mod Status
pub mod Convert
pub mod Handlers
pub mod Control
pub mod Maintenance
pub mod Data
pub mod Tables
pub mod Served
