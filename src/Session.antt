-- ===== src/Session.antt =====
-- The supervisor of the kiosk session, a shell script that src/xaac_thin_client_os/session_supervisor.py
-- writes.
mod Restarts
pub mod Budget
mod Written
mod Profile
mod Accepted
mod Tests
unfoldable pub use Profile.*
unfoldable pub use Restarts.*
