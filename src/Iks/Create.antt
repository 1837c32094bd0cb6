-- ===== src/Iks/Create.antt =====
-- Making and linking nodes: `iks_new` to `iks_delete` of src/iks.c. Loops over links take fuel.
mod Node
mod Attrib
mod Sibling
mod Remove
pub mod Steps
pub mod Made
pub mod Link
pub mod Insert
pub mod Refused
pub mod Lost
pub mod Extend
unfoldable pub use Node.*
unfoldable pub use Attrib.*
unfoldable pub use Sibling.*
unfoldable pub use Remove.*
