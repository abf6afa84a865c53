-- ===== src/Teardown.antt =====
-- psmoveinput.cpp and the destructors of its parts: what is deleted at the program's end, and what still
-- runs then.
mod Objects
mod Phases
unfoldable pub use Objects.*
unfoldable pub use Phases.*
pub mod Freed
pub mod Run
pub mod Dangling
mod Examples
