-- ===== src/CharConv.antt =====
-- src/charConv.c: texts in another charset.
mod Convert
unfoldable pub use Convert.*
pub mod Chunks
mod Tests
