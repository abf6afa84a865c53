-- ===== src/Program/Launch.antt =====
-- psmoveinput.cpp, `startListener`: the program at its start, from its configuration.
use psmoveinput.Prelude.{ℕ, List, ℤ}
use psmoveinput.Listener.{new_listener}
use psmoveinput.Config.{Config}
use psmoveinput.App.{init_handler}
use psmoveinput.Program.State.{Program, Output}
use psmoveinput.Program.Step.{initial}

-- `memory` is what the memory of `gestureTimeout_` holds.
unfoldable pub launch : {D : Type 0} → ℕ → ℤ → Config D → Program D × List Output
launch key_max memory c =
    initial
      (new_listener memory c.opmode c.poll_timeout c.conn_timeout c.disconnect_timeout c.led_timeout
        c.gesture_timeout)
      (init_handler key_max c)
