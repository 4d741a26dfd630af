-- ===== src/Browser/Directory.antt =====
-- src/mod_browser.c: the directories that the browser shows, and the ways between them.
mod Entries
mod Ways
unfoldable pub use Entries.*
unfoldable pub use Ways.*
