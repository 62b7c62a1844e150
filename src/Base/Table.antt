-- ===== src/Base/Table.antt =====
-- The bounded arrays that the managers search by key: `entries[0 .. count)` as a list.
-- Each function is one of the search loops; the first entry with the key is the one taken.
mod Laws
mod Keys
mod Shape
pub use Laws.*
pub use Shape.*
unfoldable pub use Keys.*
