-- ===== src/Format.antt =====
-- src/util.c: the format strings by which a song is shown.
mod Syntax
mod Labels
mod Loop
mod Steps
unfoldable pub use Syntax.*
unfoldable pub use Labels.*
unfoldable pub use Loop.*
pub mod Total
pub mod Plain
pub mod Names
pub mod Tests
