-- ===== src/Maintenance/Reports.antt =====
-- The reports of the maintenance runtime: the state, the network, the storage, the services, the logs.
mod Status
mod Storage
mod Services
unfoldable pub use Status.*
unfoldable pub use Storage.*
unfoldable pub use Services.*
