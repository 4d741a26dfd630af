-- ===== src/Bus.antt =====
-- src/ABasemod.c: the registry of modules, the message queue and the queries.
pub mod Msgtype
mod Handlers
mod Queue
mod Life
unfoldable pub use Handlers.*
unfoldable pub use Queue.*
unfoldable pub use Life.*
pub mod Inputs
pub mod Effects
pub mod Nested
pub mod Order
pub mod Quiet
mod Tests
