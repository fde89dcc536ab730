-- ===== src/Text.antt =====
-- Python's `str` as the list of its code points, with the methods that the suite calls.
mod Defs
mod Laws
mod Lines
unfoldable pub use Defs.*
pub use Laws.*
unfoldable pub use Lines.*
