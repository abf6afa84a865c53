-- ===== src/Threads.antt =====
-- psmove_handler.cpp: the slots of the handler called by two threads at a time. Its definitions, passed
-- on; its properties stand in the children below.
mod State
pub mod Loop
pub mod Sound
pub mod Following
pub mod Together
pub mod Calls
pub mod Interleaved
pub mod Keys
pub mod Alone
pub mod Whole
pub mod Local
pub mod Actions
pub mod Shuffle
pub mod Tracks
pub mod Separate
mod Examples
unfoldable pub use State.*
