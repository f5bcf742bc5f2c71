-- ===== src/Text.antt =====
-- Go strings as lists of bytes, and the functions of package `strings` that the source calls.
-- Case and white space are those of ASCII.
mod Defs
mod Blank
mod Search
pub mod Decimal
unfoldable pub use Defs.*
pub use Blank.*
pub use Search.*
