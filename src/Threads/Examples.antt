-- ===== src/Threads/Examples.antt =====
-- psmove_handler.cpp: turns of two threads on the handler of the examples.
use psmoveinput.Prelude.{
  ℕ, zero, suc, List, [], ◌∷◌, ◌++◌, ◌≡◌, refl, arith, ℤ, ◌*ℤ◌, pos, All, All-append, false,
}
use psmoveinput.Threads.Shuffle.{Shuffle}
use psmoveinput.Threads.Tracks.{turns_of, Tracks}
use psmoveinput.Threads.Separate.{threads_stay_apart}
use psmoveinput.Common.{key_psmove_gesture_trigger, ControllerId, first, second}
use psmoveinput.Handler.{
  Handler, Out, new, check_triggers, has_lincode, report_bit, report_key, report_entries,
  report_entry, handle_special_keys, gesture_enabled, has_reading, gestures_at, gesture_buttons,
  apply_threshold, time_delta,
}
use psmoveinput.Handler.Changes.{held}
use psmoveinput.Handler.Following.{down}
use psmoveinput.Handler.Fixture.{
  key_max, scale, keymap1, keymap2, coeffs, start, time, keymaps-IsOwner,
}
use psmoveinput.Threads.State.{
  Threads, Turn, call, work, moved, changed, play, idle, turn, work_on, perform, tasks_of,
}
use psmoveinput.Threads.Calls.{TurnFits}
use psmoveinput.Threads.Keys.{keys_follow_interleaved}

abbrev works : ControllerId → ℕ → List Turn
works c zero = []
works c (suc n) = work c (time 1 1) ∷ works c n

-- The gesture trigger of the second controller goes down. It is let go, and before its thread has done
-- all that, the first thread finds that gesture keys are to be released. The trigger goes down again,
-- and before its thread has stored this, the first thread has read the buttons without it, which it
-- reports when the trigger is stored.
abbrev crossed : List Turn
crossed =
    (call second (moved (pos 0) (pos 0)) ∷ works second 2)
    ++ (call second (changed 1048576) ∷ works second 32)
    ++ (call second (changed 0) ∷ works second 22)
    ++ (call first (changed 128) ∷ works first 31)
    ++ works second 12
    ++ (call second (changed 1048576) ∷ works second 22)
    ++ works first 3
    ++ works second 10
    ++ works first 40

-- Both calls have returned, the last one for the second controller had its trigger down, and the
-- handler has it up.
trigger_lost :
    let (s, xs) = play scale key_max crossed (idle start) in
    (s.tasks.fst ≡ [])
    × (s.tasks.snd ≡ [])
    × (s.handler.buttons.snd ≡ 0)
    × (s.handler.gesture_trigger ≡ false)
unfolding play turn work_on perform tasks_of new check_triggers has_lincode report_bit report_key
    report_entries report_entry handle_special_keys gesture_enabled has_reading gestures_at scale
    gesture_buttons apply_threshold time_delta ◌*ℤ◌
trigger_lost = (refl, refl, refl, refl)

works-TurnFits : (c : ControllerId) (n : ℕ) → All TurnFits (works c n)
works-TurnFits c zero = tt
works-TurnFits c (suc n) = (tt, works-TurnFits c n)

-- While the second thread is in its loop, the first has reported its key.
abbrev overlapping : List Turn
overlapping =
    call second (changed 1048576) ∷ call first (changed 128) ∷ works second 15 ++ works first 32

overlapping_fits : All TurnFits overlapping
overlapping_fits = (
  omega arith,
  (
    omega arith,
    All-append TurnFits (works second 15) (works first 32) (works-TurnFits second 15)
        (works-TurnFits first 32),
  ),
)

first_returned : (play scale key_max overlapping (idle start)).0.tasks.fst ≡ []
unfolding play turn work_on perform tasks_of new check_triggers has_lincode report_bit report_key
    report_entries report_entry handle_special_keys
first_returned = refl

keys_follow_interleaved_example :
    held 30 (play scale key_max overlapping (idle start)).1 false
    ≡ down first 7 (play scale key_max overlapping (idle start)).0.handler
keys_follow_interleaved_example =
    keys_follow_interleaved scale key_max keymap1 keymap2 coeffs (pos 5) (pos 100) overlapping 30 7
      first (omega arith) keymaps-IsOwner (λ e. absurd (ground arith)) overlapping_fits
      first_returned

-- A handler without a gesture trigger.
abbrev plain : Handler ℤ
plain = new key_max keymap1 keymap1 coeffs (pos 5) (pos 100)

keymap1_plain : has_lincode (key_psmove_gesture_trigger key_max) keymap1 ≡ false
unfolding has_lincode
keymap1_plain = refl

abbrev both : Out (Threads ℤ)
both = play scale key_max overlapping (idle plain)

abbrev one : ControllerId → Out (Threads ℤ)
one c = play scale key_max (turns_of c overlapping) (idle plain)

threads_stay_apart_example :
    Tracks first both.0 (one first).0
    × Tracks second both.0 (one second).0
    × Shuffle (one first).1 (one second).1 both.1
threads_stay_apart_example =
    threads_stay_apart scale key_max keymap1 keymap1 coeffs (pos 5) (pos 100) overlapping
      keymap1_plain
