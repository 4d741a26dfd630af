-- ===== src/Display.antt =====
-- src/mod_lcdproc.c: the display, which is drawn by commands to the LCDproc server.
mod Globals
mod Widgets
mod Time
mod Menu
mod Status
mod Draw
mod Connect
mod Clock
mod Poll
mod Events
mod Update
unfoldable pub use Globals.*
unfoldable pub use Widgets.*
unfoldable pub use Time.*
unfoldable pub use Menu.*
unfoldable pub use Status.*
unfoldable pub use Draw.*
unfoldable pub use Connect.*
unfoldable pub use Clock.*
unfoldable pub use Poll.*
unfoldable pub use Events.*
unfoldable pub use Update.*
pub mod Rows
pub mod Lines
pub mod Shown
pub mod Average
pub mod Overrun
pub mod Kept
pub mod DrawKept
pub mod ClockMode
pub mod Negative
pub mod ClockPlace
pub mod TimeText
mod Samples
mod Tests
