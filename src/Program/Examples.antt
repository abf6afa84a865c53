-- ===== src/Program/Examples.antt =====
-- psmove_listener.cpp and psmoveinput.cpp: what the properties say of these runs.
use psmoveinput.Prelude.{◌≤◌, arith, true, false, List, All, pos, ◌≡◌, ◌≢◌, ◌⊎◌, ℤ}
use psmoveinput.Common.{first}
use psmoveinput.Handler.Changes.{held}
use psmoveinput.Handler.Following.{down}
use psmoveinput.Handler.Fixture.{scale, scale_rests, keymaps-IsOwner}
use psmoveinput.Handler.Valid.{IsValid}
use psmoveinput.App.{device_keys}
use psmoveinput.App.Registered.{IsKeyOf}
use psmoveinput.Program.State.{Program, Output, main_loop, finished, crashed}
use psmoveinput.Program.Step.{went, step}
use psmoveinput.Program.Reach.{Reach, here}
use psmoveinput.Program.Sound.{IsSound}
use psmoveinput.Program.Well.{OutputIn}
use psmoveinput.Program.Progress.{next}
use psmoveinput.Program.Outputs.{has_reset}
use psmoveinput.Program.Reset.{IsAlone}
use psmoveinput.Program.Reached.{Reached-IsSound, reset-IsAlone, only_registered_keys}
use psmoveinput.Program.Ends.{never_stuck, request_settles, stop_finishes}
use psmoveinput.Program.Rank.{steps_left}
use psmoveinput.Program.Shutdown.{own_steps, stop_bounds_steps}
use psmoveinput.Program.Lost.{IsLost}
use psmoveinput.Program.Races.{early_start_loses_slot}
use psmoveinput.Program.Client.{shown}
use psmoveinput.Program.Keys.{keys_follow_buttons}
use psmoveinput.Program.Pressed.{pressed_keys_are_held}
use psmoveinput.Program.Runs.{
  config, needed, answers, answers_fit, stopping, left, robbing, telling, resetting,
}

Reached-IsSound_example : IsSound robbing.0.0
Reached-IsSound_example = Reached-IsSound scale 767 (pos 0) config robbing.0.2

reset-IsAlone_example : IsAlone resetting.0.0 resetting.1.0
reset-IsAlone_example =
    reset-IsAlone scale 767 (pos 0) config (main_loop answers) resetting.0.2 resetting.4 resetting.5

only_registered_keys_example :
    (left.0.0.main ≢ crashed)
    × IsValid 767 left.0.0.handler
    × All (OutputIn (IsKeyOf (device_keys config))) left.0.1
only_registered_keys_example =
    only_registered_keys scale 767 (pos 0) config scale_rests needed left.0.2

never_stuck_example :
    (q : Program ℤ) × (ys : List Output) × (step scale 767
        (next answers resetting.0.0)
        resetting.0.0
      ≡ went q ys)
never_stuck_example =
    never_stuck scale 767 answers answers_fit (pos 0) config scale_rests needed resetting.0.2
      resetting.3

stop_finishes_example :
    (q : Program ℤ) × (zs : List Output) × Reach scale 767 stopping.0.0 q zs × (q.main ≡ finished)
stop_finishes_example =
    stop_finishes scale 767 answers answers_fit (pos 0) config scale_rests needed stopping.0.2
      stopping.1

request_settles_example :
    (q : Program ℤ) × (zs : List Output) × Reach scale 767 telling.1.0 q zs
    × ((q.main ≡ finished) ⊎ (has_reset zs ≡ true))
request_settles_example =
    request_settles scale 767 answers answers_fit (pos 0) config scale_rests needed telling.1.2
      telling.6

stop_bounds_steps_example :
    (has_reset stopping.3 ≡ false)
    × (stopping.2.listener.stop ≡ true)
    × (own_steps scale 767 stopping.4 ≤ steps_left stopping.0.0)
stop_bounds_steps_example = stop_bounds_steps scale 767 stopping.1 stopping.4

early_start_loses_slot_example : IsLost first robbing.2.0
early_start_loses_slot_example =
    early_start_loses_slot scale 767 first answers robbing.0.0 robbing.1.0 robbing.3 robbing.4.1
      robbing.5.1 here

keys_follow_buttons_example : held 30 (shown left.0.1) false ≡ down first 7 left.0.0.handler
keys_follow_buttons_example =
    keys_follow_buttons scale 767 (pos 0) config scale_rests 30 7 first (omega arith)
      keymaps-IsOwner (λ e. absurd (ground arith)) left.0.2 left.1

pressed_keys_are_held_example : held 30 (shown left.0.1) false ≡ true
pressed_keys_are_held_example =
    pressed_keys_are_held scale 767 (pos 0) config 30 7 first (omega arith) keymaps-IsOwner
      (λ e. absurd (ground arith)) left.0.2 left.2
