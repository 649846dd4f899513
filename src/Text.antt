-- ===== src/Text.antt =====
-- JavaScript strings as lists of UTF-16 code units, with the string methods that the source calls.
-- The index methods answer -1 with `none`. Laws stand in the modules below.
mod Defs
pub mod Laws
pub mod Prefix
pub mod Suffix
pub mod Bits
pub mod Split
pub mod Regex
pub mod Utf8
unfoldable pub use Defs.*
