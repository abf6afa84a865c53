-- ===== src/Handler.antt =====
-- psmove_handler.cpp: the handler's definitions, passed on. Its properties stand in the children
-- below.
mod State
mod Keys
mod Reports
pub mod Changes
pub mod Bits
pub mod Held
pub mod Triggers
pub mod Valid
pub mod Total
pub mod Session
pub mod Following
pub mod Runs
pub mod Contract
pub mod Motion
pub mod Gestures
pub mod Special
pub mod MoveTrigger
pub mod TriggerRuns
pub mod Emitted
pub mod Fixture
mod Examples
unfoldable pub use State.*
unfoldable pub use Keys.*
unfoldable pub use Reports.*
