-- ===== src/DataPlane.antt =====
-- The data plane: the calls that reach the databases. A child module for the results, for the methods of a
-- SQLite backend and of a LanceDB backend, for the methods of the runtime and whom they serve, and for the names of
-- LanceDB's enumerations.
pub mod Results
pub mod Sqlite
pub mod LanceDb
pub mod Methods
pub mod Guarded
pub mod Names
pub mod Formats
