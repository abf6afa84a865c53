-- ===== src/App.antt =====
-- psmoveinput.cpp and except.hpp: the program's start and end, and how its parts are connected.
mod State
mod Wiring
pub mod Lifetime
unfoldable pub use State.*
unfoldable pub use Wiring.*
pub mod PidFile
pub mod ExitCodes
pub mod Registered
pub mod Refused
mod Examples
