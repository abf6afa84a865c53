-- ===== src/UnitTests.antt =====
-- test/psmove_handler_test.cpp and test/log_test.cpp: the unit tests of the handler and the log.
mod Harness
mod Buttons
mod Motions
mod Messages
pub mod Overlap
