-- ===== src/Daemon.antt =====
-- src/ABased.c: the main program.
mod Options
mod Startup
mod Loop
unfoldable pub use Options.*
unfoldable pub use Startup.*
unfoldable pub use Loop.*
mod Cause
pub mod Ends
pub mod Order
mod Tests
