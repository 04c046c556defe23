-- ===== src/Lists.antt =====
-- Lists measured by native numbers, under the library's names, and the list operations that the
-- source writes as comprehensions, slices and sorts.
pub mod Filter
pub mod Window
pub mod Sort
pub mod Members
unfoldable pub use Filter.*
unfoldable pub use Window.*
unfoldable pub use Sort.*
unfoldable pub use Members.*
