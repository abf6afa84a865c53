-- ===== src/Config.antt =====
-- config.cpp and config.hpp: the definitions, passed on. The properties stand in the other
-- children.
mod State
mod Parse
mod Keys
mod Steps
pub mod Precedence
mod Appends
pub mod Collect
mod Examples
unfoldable pub use State.*
unfoldable pub use Parse.*
unfoldable pub use Keys.*
