-- ===== src/Text.antt =====
-- Go strings and the functions of Go's package strings that the program calls. A text is the list
-- of its code points. Every separator and cut set of the program is a single ASCII character.
mod Equality
mod Trim
mod Split
mod Search
mod Decimal
mod Sort
mod Atoi
mod Paths
unfoldable pub use Equality.*
unfoldable pub use Trim.*
unfoldable pub use Split.*
unfoldable pub use Search.*
unfoldable pub use Decimal.*
unfoldable pub use Sort.*
unfoldable pub use Atoi.*
unfoldable pub use Paths.*
