-- ===== src/Listener.antt =====
-- psmove_listener.cpp: the threads that poll the controllers, and the listener that runs them.
mod Polling
mod State
unfoldable pub use Polling.*
unfoldable pub use State.*
pub mod Kept
pub mod Periods
pub mod Division
mod Examples
