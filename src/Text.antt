-- ===== src/Text.antt =====
-- Text as the Rust code sees it: a `&str` is the list of its `char`s, each a Unicode scalar value.
-- The children hold the methods of `char` and `str` that the source calls, as the standard library
-- documents them, and the laws that the components use.
mod Chars
mod Trim
mod Search
unfoldable pub use Chars.*
unfoldable pub use Trim.*
unfoldable pub use Search.*
