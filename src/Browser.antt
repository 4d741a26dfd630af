-- ===== src/Browser.antt =====
-- src/mod_browser.c: the browser for the directories of the music database.
mod Cursor
mod Sort
mod Directory
mod Message
mod Script
mod Reload
unfoldable pub use Cursor.*
unfoldable pub use Sort.*
unfoldable pub use Directory.*
unfoldable pub use Message.*
unfoldable pub use Reload.*
unfoldable pub use Script.*
pub mod Range
pub mod Visible
pub mod Listing
pub mod Reach
pub mod Back
pub mod Guards
pub mod Keeps
pub mod Stored
pub mod Returns
pub mod Reports
pub mod Paths
mod Tests
mod DirectoryTests
mod ScriptTests
