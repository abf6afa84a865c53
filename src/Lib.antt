-- ===== src/Lib.antt =====
-- psmoveinput: a daemon that turns PlayStation Move controllers into a mouse and a keyboard for
-- Linux. The listener polls the controllers in threads and emits gyroscope, gesture and button
-- signals; the handler turns them into pointer movements, key events and wheel steps; the uinput
-- device writes these to the kernel. A configuration, read from the command line and a file, maps
-- buttons and gestures to keys.
--
-- Which file models which part:
--   Prelude.antt, Prelude/  numbers, C++ integers (int, long with truncating division), bit patterns.
--   Common.antt             common.hpp and config_defs.hpp: shared types, special keys, gesture buttons.
--   KeyMapParser.antt, KeyMapParser/
--                           conf_keymap_parser.cpp: psmap_, linmap_, createEntry. Tables describes the two
--                           tables otherwise, by suffixes, gestures and names of macros.
--   Config.antt, Config/    config.cpp: State is the class with its small conversions, Parse is
--                           handleCmdLine and the single settings of parseConfig, Keys its loop over the
--                           key options and parse. A try block is a chain in Exec, which stops at an
--                           exception with the state reached there.
--   Handler.antt, Handler/  psmove_handler.cpp: State is the class, its constructor, checkTriggers and
--                           reset; Keys is handleSpecialKeys, reportKey and the loop of onButtons;
--                           Reports is onGyroscope, onGesture and onButtons. A call takes the state and
--                           returns the new state with the signals that it emitted, in order. The other
--                           files are proofs.
--   InputDevice.antt        input_device.cpp: the system calls and the events that it writes, as values.
--   App.antt, App/          psmoveinput.cpp: State is the start, daemonizing, the pid file, what is
--                           printed and the exit codes; Wiring is the connection of the handler's signals to the device;
--                           Lifetime is getRef, releaseRef, the signal handler and main of main.cpp.
--   Listener.antt, Listener/
--                           psmove_listener.cpp: Polling is the main loop of ControllerThread between its
--                           tests for a stop, with the samples that psmove_poll finds as a list; State is
--                           the two classes with their other methods, start, connect, handleNewDevice,
--                           onDisconnect, onDisconnectKey, isFullCapacity and the rest.
--   Program.antt, Program/  psmove_listener.cpp and startListener of psmoveinput.cpp: the main loop of run,
--                           the controller threads and the handler at work together. State says where each
--                           of them stands, Step is one step of one of them, Reach the states reached by
--                           steps in any order, Launch the start from a configuration, Client the handler
--                           in the hands of a single client. Rank counts the steps that are left after a
--                           request to stop, Progress names a step that is possible. The other files are
--                           proofs.
--   Threads.antt, Threads/  psmove_handler.cpp once more, for calls that overlap: State has the actions of
--                           which onButtons, onGesture and onGyroscope consist, perform is one of them,
--                           play the turns of two threads, Tracks the turns of each of them. The other files
--                           are proofs; Whole is about a call that nothing interrupts.
--   UnitTests.antt, UnitTests/
--                           test/psmove_handler_test.cpp and test/log_test.cpp: the tests of the handler as
--                           lists of calls and assertions, run on the model with coefficients in halves,
--                           and those of the log with its test backend. Overlap is the test with two
--                           threads, test/psmove_handler_mt_test.cpp, over the actions of Threads.
--   Teardown.antt, Teardown/
--                           psmoveinput.cpp and the destructors: Objects has the objects on the heap, and
--                           what each destructor uses and frees, Phases the program before and after main
--                           deletes the instance, Run the phases that it reaches. The other files are proofs.
--   Log.antt, Log/          log.cpp: levels and backends; File is file_log.cpp, a backend that writes lines
--                           to a file.
--
-- Bounds and fuel. The loop of onButtons runs over a doubling int; its fuel is 29 rounds, one for each
-- of the bits 0 to 27 and one for the test that ends it. onButtons and onGesture call each other; each
-- call of onGesture takes one reading of the clock off a list, and the result is none where the list
-- is used up. Lists of two readings for onButtons and three for onGesture are enough.
-- The buttons of a controller are a natural number below 2 ^ 32. The type of double is a parameter,
-- with the conversion of an int to the scaled int; where a result needs it, that a product of 0
-- converts to 0, as it does for every finite coefficient.
--
-- Threads. A step is a part of the main loop between two of its places, a thread's start up to its
-- loop, its polls of a round, a single call of the handler (in Program/ a step; in Threads/ its
-- actions), the end of a round, one of the three actions of a thread that leaves its loop (thread_
-- cleared; move_ cleared; the listener told), or the request of a signal handler. Steps of different
-- threads come in any order, so the calls of two rounds interleave in every way, and a request or the
-- next round of the other thread may come between two calls. A thread takes its samples of a round
-- before it makes the round's calls: both the samples and what it keeps of them are its own, so that
-- no other thread can tell. Where a division of the polls fails, the calls before it
-- are left out.
-- Within a step nothing else happens. The source grants this neither for a call of the handler, where
-- it locks a round of the loop of onButtons and nothing else, nor for the events that a call writes to
-- the device one by one, nor for thread_ and move_: what two calls or their writes make of each other is
-- not seen in Program/, and a join of a boost::thread that its own thread deletes just then is beyond
-- the model. A thread that the main loop waits for is part of the main loop's place; any
-- number of others may be on their way out. A join of a thread that has been joined before comes back
-- at once.
--
-- Within a call, in Threads/, an action is the comparison at the top of onButtons, a round of its loop,
-- which the mutex keeps whole, the store to buttons_, the test of releaseGestureKeys_, its reset, the
-- guard of onGesture, the computation of the gesture buttons, or the store of the reading. Two calls
-- overlap in every order of their actions; a reset comes only between calls, since the threads have left
-- their loops by then.
--
-- The end. In Teardown/, main deletes the instance once the main loop has returned, and the threads
-- that are then past their loops may go on; a step that uses the listener or a slot after it has been
-- freed dangles. That the backend of the log is deleted through a type without a virtual destructor is
-- taken as the release of its memory, though the language leaves its effect open.
-- The end by a std::exception, with threads in their loops, is not modelled there.
--
-- Parameters. The macros of linux/input.h and the enumerators of psmoveapi come by name; the parsers of
-- boost::program_options and the answers of the system are given as values or functions.
--
-- Not modelled: the calls of the log in the other parts, which do not feed back; the calls of
-- sigaction; sleeping, and any order of steps that it makes likely; a signal in
-- the middle of getRef or releaseRef; in Program/, what a call of the handler does where it overlaps
-- with another; what two threads make of one store to a variable; an end of the listener by an
-- exception while threads are in their loops; the unit tests of the configuration, which rest on what
-- boost's parsers make of a text, and those that read a device of the running system; packaging and
-- the vendored gtest-1.6.0.
pub mod Prelude
pub mod Common
pub mod KeyMapParser
pub mod Handler
pub mod InputDevice
pub mod App
pub mod Listener
pub mod Program
pub mod Threads
pub mod UnitTests
pub mod Log
pub mod Config
pub mod Teardown
