-- ===== src/Listener/Examples.antt =====
-- psmove_listener.cpp: a short run of the second controller.
use psmoveinput.Prelude.{
  ℕ, suc, ◌+◌, ◌*◌, ◌≤◌, List, [], ◌∷◌, some, none, ◌≡◌, ◌≢◌, refl, arith, pos, negsuc,
}
use psmoveinput.Common.{second}
use psmoveinput.Handler.{zero_time}
use psmoveinput.Listener.Polling.{Round, poll_round, Sample, Emission, Thread, divide, drain}
use psmoveinput.Listener.Periods.{
  sample_count, gestures, known_buttons, last_buttons, drain_reports,
}
use psmoveinput.Listener.Division.{poll_round_fails_on_zero}

-- A gesture timeout of 40 ms, polled each 20 ms.
abbrev thread : Thread
thread = record {
  id = second;
  poll_timeout = pos 20;
  disconnect_timeout = pos 7;
  led_timeout = pos 4000;
  gesture_timeout = pos 40;
  buttons = 0;
  last_tp = zero_time;
  poll_count = 0;
  gesture_count = 0;
}

abbrev sample : ℕ → Sample
sample b = record { gx = pos 3; gz = pos 4; buttons = b; tp = record { tv_sec = 1; tv_nsec = 5 } }

abbrev samples : List Sample
samples = sample 0 ∷ sample 16 ∷ sample 16 ∷ sample 0 ∷ []

drain_reports_example :
    (t' : Thread) × (xs : List Emission) × (drain samples thread ≡ some (t', xs))
    × (gestures xs * suc 2 + t'.gesture_count ≡ sample_count samples + 0)
    × (t'.gesture_count ≤ 2)
    × (known_buttons xs 0 ≡ last_buttons samples 0)
    × (t'.buttons ≡ last_buttons samples 0)
unfolding divide
drain_reports_example = drain_reports 2 samples thread refl refl (omega arith)

poll_round_fails_on_zero_example :
    (thread.poll_timeout ≢ pos 0
      → (thread.poll_timeout ≡ negsuc 0
          → (thread.led_timeout ≢ negsuc 2147483647) × (thread.gesture_timeout ≢ negsuc 2147483647))
      → (r : Thread × Round) × (poll_round samples zero_time thread ≡ some r))
    × (thread.poll_timeout ≡ pos 0 → poll_round samples zero_time thread ≡ none)
    × (thread.poll_timeout ≡ negsuc 0
        → thread.led_timeout ≡ negsuc 2147483647
        → poll_round samples zero_time thread ≡ none)
poll_round_fails_on_zero_example = poll_round_fails_on_zero samples zero_time thread
