-- ===== src/Packages.antt =====
-- The packages of an image, src/xaac_thin_client_os/packages.py.
mod Chain
mod Resolve
mod Fuel
mod Finite
mod Lineage
mod Members
mod Refinement
mod Tests
unfoldable pub use Chain.*
unfoldable pub use Resolve.*
