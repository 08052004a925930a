-- ===== src/Maintenance.antt =====
-- The maintenance runtime, assets/runtime/xaac_maintenance_runtime.py.
mod Patterns
mod Clean
mod Runtime
mod Reports
mod Health
mod Cleanup
mod Diagnostics
mod Quiet
mod Sanitized
mod Retention
mod Discarded
mod Worst
mod Tests
unfoldable pub use Patterns.*
unfoldable pub use Runtime.*
unfoldable pub use Reports.*
unfoldable pub use Health.*
unfoldable pub use Cleanup.*
unfoldable pub use Diagnostics.*
