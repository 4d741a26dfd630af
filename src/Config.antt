-- ===== src/Config.antt =====
-- src/ABaseconfig.c: the list of configuration entries, newest first, and the reader of the
-- configuration file; and the writer of one entry from src/ABaseconf.c. Allocation succeeds.
mod Entries
mod Reader
mod Generator
unfoldable pub use Entries.*
unfoldable pub use Reader.*
unfoldable pub use Generator.*
pub mod Lookup
pub mod Stacks
pub mod File
pub mod Generated
mod Tests
