-- ===== src/Text.antt =====
-- C strings and the functions of the C library that the program calls on them (string.h, stdlib.h,
-- stdio.h), in the "C" locale. A string is the list of its bytes before the terminating zero.
mod Chars
mod Case
mod Search
mod Tokens
mod Numbers
unfoldable pub use Chars.*
unfoldable pub use Case.*
unfoldable pub use Search.*
unfoldable pub use Tokens.*
unfoldable pub use Numbers.*
