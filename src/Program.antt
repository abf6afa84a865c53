-- ===== src/Program.antt =====
-- psmove_listener.cpp and psmoveinput.cpp, `startListener`: the listener's main loop, its controller
-- threads and the handler at work together.
mod State
mod Step
pub mod Reach
pub mod Sound
pub mod Outputs
pub mod Workers
pub mod Rank
pub mod Cooling
pub mod Launch
pub mod Shutdown
pub mod Well
pub mod Rounds
pub mod Progress
pub mod Reset
pub mod Reached
pub mod Ends
pub mod Lost
pub mod Races
pub mod Client
pub mod Linear
pub mod Keys
pub mod Pressed
pub mod Runs
mod Examples
unfoldable pub use State.*
unfoldable pub use Step.*
