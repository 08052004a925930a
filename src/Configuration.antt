-- ===== src/Configuration.antt =====
-- The configuration of the image builder, src/xaac_thin_client_os/configuration.
mod Value
mod Validation
mod Checks
mod Build
mod Sources
mod Profile
mod Loader
pub mod Booleans
pub mod Gives
pub mod Texts
pub mod Sound
mod Unknown
mod Trimmed
mod Reread
mod Tests
unfoldable pub use Value.*
unfoldable pub use Validation.*
unfoldable pub use Checks.*
unfoldable pub use Build.*
unfoldable pub use Sources.*
unfoldable pub use Profile.*
unfoldable pub use Loader.*
