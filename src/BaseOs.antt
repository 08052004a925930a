-- ===== src/BaseOs.antt =====
-- The updater of the base system, assets/runtime/xaac_base_os_update_runtime.py.
mod Runtime
mod Sources
mod Trust
mod Checks
mod Plan
mod Simulation
mod Check
mod Apply
mod Looks
mod Quiet
mod Sample
mod UpgradeTests
mod Tests
unfoldable pub use Runtime.*
unfoldable pub use Sources.*
unfoldable pub use Trust.*
unfoldable pub use Checks.*
unfoldable pub use Plan.*
unfoldable pub use Simulation.*
unfoldable pub use Check.*
unfoldable pub use Apply.*
