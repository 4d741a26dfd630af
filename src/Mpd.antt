-- ===== src/Mpd.antt =====
-- src/mod_mpd.c: the module that controls the player by its server, the music player daemon.
mod Player
mod Jump
mod Message
unfoldable pub use Player.*
unfoldable pub use Jump.*
unfoldable pub use Message.*
pub mod Bounds
pub mod Wrap
pub mod Returns
mod Tests
