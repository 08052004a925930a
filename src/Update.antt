-- ===== src/Update.antt =====
-- The transactional updater, assets/runtime/xaac_update_runtime.py.
mod Policy
mod Manifest
mod Staging
mod Point
mod Packages
mod Health
mod Registry
mod Prune
mod Rollback
mod Transaction
mod Cache
mod Undo
mod Apply
mod Manual
pub mod Quiet
mod Names
mod Spares
mod Sparing
mod Sample
mod Tests
mod RecoveryTests
pub mod Crash
unfoldable pub use Policy.*
unfoldable pub use Manifest.*
unfoldable pub use Staging.*
unfoldable pub use Point.*
unfoldable pub use Packages.*
unfoldable pub use Health.*
unfoldable pub use Registry.*
unfoldable pub use Prune.*
unfoldable pub use Rollback.*
unfoldable pub use Transaction.*
unfoldable pub use Cache.*
unfoldable pub use Undo.*
unfoldable pub use Apply.*
unfoldable pub use Manual.*
