-- ===== src/Machine.antt =====
-- The appliance as the runtimes of assets/runtime see it: a disk, commands that the host answers,
-- and a record of the effects in the order in which they took place.
mod State
mod Monad
mod Files
mod Commands
mod Values
pub mod Keeps
pub mod Quiet
pub mod Yields
pub mod Ends
pub mod Present
pub mod Inversion
pub mod Status
pub mod Sample
pub mod Returns
unfoldable pub use State.*
unfoldable pub use Monad.*
unfoldable pub use Files.*
unfoldable pub use Commands.*
unfoldable pub use Values.*
