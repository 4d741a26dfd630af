-- ===== src/Remote.antt =====
-- src/mod_lirc.c: the remote control.
mod Poll
unfoldable pub use Poll.*
pub mod Keys
mod Tests
