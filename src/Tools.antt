-- ===== src/Tools.antt =====
-- src/ABasetools.c: reading lines from a descriptor or a stream, sending text with a wait for the
-- answer, and trimming blanks. The global flag `terminate`, which a signal sets, is an argument.
mod Readline
mod Trim
unfoldable pub use Readline.*
unfoldable pub use Trim.*
pub mod Lines
pub mod Blanks
pub mod Answers
mod Tests
