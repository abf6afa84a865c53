-- ===== src/Program/State.antt =====
-- psmove_listener.cpp: where the main loop and the controller threads stand, and what they do.
use Prim.Native.String.{String}
use psmoveinput.Prelude.{ℕ, List}
use psmoveinput.Common.{ControllerId, PerController}
use psmoveinput.Handler.{Handler, Signal, Timespec}
use psmoveinput.Handler.Session.{Report}
use psmoveinput.Listener.{Device, Connection, Listener, Sample, Emission, RemoteConfig}

-- The thread that `join` waits for: in its loop or before it, past `thread_ = nullptr`, past
-- `move_ = nullptr`, or at its end.
pub data Late : Type 0 where
  active detached released ended : Late

-- Where the main loop stands: at its top, before the `join` of a thread, in it, before `connect`,
-- before `handleNewDevice`, or after the loop. `crashed`: a division of a thread has failed.
pub data MainLoop : Type 0 where
  top : MainLoop
  joining : ControllerId → MainLoop
  waiting : ControllerId → Late → MainLoop
  connecting : MainLoop
  starting : ℕ → Device → MainLoop
  finished : MainLoop
  crashed : MainLoop

-- Threads of a `ControllerThread` that have left its loop and that nobody waits for: how many have
-- cleared `thread_` and not yet `move_`, and how many have cleared both and not yet told the listener.
pub record Leavers : Type 0 where
  pub detached : ℕ
  pub released : ℕ

pub record Program (D : Type 0) : Type 0 where
  pub listener : Listener
  pub main : MainLoop
  pub leavers : PerController Leavers
  pub handler : Handler D

-- What the program does to its surroundings.
pub data Output : Type 0 where
  configured : RemoteConfig → Output
  signal : Signal → Output
  disconnect_complete : Output
  leds_set : ControllerId → ℕ × ℕ × ℕ → Output
  leds_updated : ControllerId → Output
  command : String → Output

-- What the surroundings answer during a step: connections by id, the samples that `psmove_poll` finds,
-- the reading of the clock after them, and the readings that a call of the handler takes.
pub record Answers : Type 0 where
  pub by_id : ℕ → Connection
  pub samples : List Sample
  pub now : Timespec
  pub clock : ℕ → Timespec

-- Who makes a step. A thread past its loop takes two: `release` clears `move_`, `notify` tells the
-- listener; they are told apart by whether the main loop waits for the thread.
pub data Move : Type 0 where
  main_loop : Answers → Move
  worker : ControllerId → Answers → Move
  release notify : ControllerId → Move
  release_awaited notify_awaited : Move
  interrupt : Move

-- The slot of the handler that an emission calls, with the readings that the call takes.
unfoldable pub report : (ℕ → Timespec) → Emission → Report
report clock (Emission.gyro gx gy) = Report.gyro (clock 0) gx gy
report clock (Emission.gesture gx gy) = Report.swing (clock 0) (clock 1) (clock 2) gx gy
report clock (Emission.button b c) = Report.press (clock 0) (clock 1) b c
