-- ===== src/Recovery.antt =====
-- The recovery environment, assets/runtime/xaac_recovery_runtime.py.
mod Runtime
mod Report
mod Actions
mod Menu
mod Refuses
mod Quiet
mod Ready
mod Count
mod Harmless
mod Tests
unfoldable pub use Runtime.*
unfoldable pub use Report.*
unfoldable pub use Actions.*
unfoldable pub use Menu.*
