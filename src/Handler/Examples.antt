-- ===== src/Handler/Examples.antt =====
-- psmove_handler.cpp: runs of the handler on small key maps.
use psmoveinput.Prelude.{
  bit, if◌then◌else◌, ltb_ℤ, ◌≤◌, ℕ, ◌<◌, ◌≤◌, ◌≡◌, refl, arith, List, [], ◌∷◌, true, ℤ, pos, ◌*ℤ◌,
  some, ◌++◌, false,
}
use psmoveinput.Common.{KeyMapEntry, put, first, second}
use psmoveinput.Handler.State.{Handler, Signal, key, reset, ◌>>=◌, new, check_triggers, has_lincode}
use psmoveinput.Handler.Changes.{held}
use psmoveinput.Handler.Valid.{IsValid}
use psmoveinput.Handler.Bits.{update_buttons-eq-report_changes, report_changes}
use psmoveinput.Handler.Following.{down}
use psmoveinput.Handler.Special.{IsPassedOn, special_key-IsPassedOn}
use psmoveinput.Handler.Gestures.{gestures_at_bits}
use psmoveinput.Handler.Session.{Report, press, handle, run}
use psmoveinput.Handler.Contract.{
  run_total, key_follows_button, reset_keeps_key_down, release_reports_nothing,
}
use psmoveinput.Handler.Motion.{time_delta_accurate, InRange}
use psmoveinput.Handler.Total.{Succeeds}
use psmoveinput.Handler.TriggerRuns.{trigger_follows_button}
use psmoveinput.Handler.Reports.{
  gestures_at, on_buttons, on_buttons_with, time_delta, apply_threshold,
}
use psmoveinput.Handler.Keys.{
  update_buttons, button_loop, report_bit, report_key, report_entries, report_entry,
  handle_special_keys,
}
use psmoveinput.Handler.Fixture.{
  key_max, scale, scale_rests, keymap1, keymap2, coeffs, start, time, session, session_range,
  keymaps-IsOwner, trigger_map, trigger_map-Owns,
}

run_total_example : Succeeds key_max (run scale key_max session start)
run_total_example =
    run_total scale key_max scale_rests keymap1 keymap2 coeffs (pos 5) (pos 100) session
      session_range

key_follows_button_example :
    (h : Handler ℤ) × (xs : List Signal) × (run scale key_max session start ≡ some (h, xs))
    × (held 30 xs false ≡ down first 7 h)
key_follows_button_example =
    key_follows_button scale key_max scale_rests keymap1 keymap2 coeffs (pos 5) (pos 100) session 30
      7 first (omega arith) keymaps-IsOwner session_range

-- Square has been pressed.
abbrev pressing : List Report
pressing = press (time 1 1) (time 1 2) 128 first ∷ []

abbrev pressed : Handler ℤ
pressed = record start { buttons = record { fst = 128; snd = 0 } }

abbrev press_signals : List Signal
press_signals = key 30 true ∷ []

pressed_reached : run scale key_max pressing start ≡ some (pressed, press_signals)
unfolding run handle on_buttons on_buttons_with update_buttons button_loop report_bit report_key
    report_entries report_entry handle_special_keys new check_triggers has_lincode
pressed_reached = refl

reset_keeps_key_down_example :
    (h : Handler ℤ) × (ys : List Signal) × (run scale key_max
        (press (time 2 1) (time 2 2) 0 first ∷ [])
        (reset pressed)
      ≡ some (h, ys))
    × (down first 7 h ≡ false)
    × (held 30 (press_signals ++ ys) false ≡ true)
reset_keeps_key_down_example =
    reset_keeps_key_down scale key_max scale_rests keymap1 keymap2 coeffs (pos 5) (pos 100) pressing
      30 7 first pressed press_signals (omega arith) keymaps-IsOwner (ground arith) pressed_reached
      refl (time 2 1) (time 2 2)

-- The gesture trigger of the second controller is held down.
abbrev swinging : Handler ℤ
swinging = record start { buttons = record { fst = 0; snd = 1048576 }; gesture_trigger = true }

swinging-IsValid : IsValid key_max swinging
unfolding new check_triggers has_lincode
swinging-IsValid = record {
  move_flag = refl;
  gesture_flag = refl;
  idle = refl;
  fst_range = omega arith;
  snd_range = omega arith;
}

release_reports_nothing_example :
    on_buttons scale key_max (time 3 3 ∷ []) 0 second swinging
    ≡ some (
      record (update_buttons key_max 0 second swinging).0 {
        release_gesture_keys = false;
        last_gesture_tp = time 3 3;
      },
      (update_buttons key_max 0 second swinging).1,
    )
unfolding update_buttons button_loop report_bit report_key report_entries report_entry
    handle_special_keys new check_triggers has_lincode
release_reports_nothing_example =
    release_reports_nothing scale key_max scale_rests (time 3 3) [] 0 second swinging
      swinging-IsValid (omega arith) refl refl

update_buttons-eq-report_changes_example : update_buttons key_max 128 first start ≡ (
    report_changes key_max 28 0 128 first 0 start >>= λ h.
    (record h { buttons = put h.buttons first 128 }, []))
unfolding new check_triggers
update_buttons-eq-report_changes_example =
    update_buttons-eq-report_changes key_max 128 first start (omega arith) (omega arith)
      (omega arith)

time_delta_accurate_example :
    InRange 0 999 (time_delta (time 2 5000000) (time 1 999000000))
    × (1999000000 ≤ 2005000000
        → 6000000 ≤ 999000000
        → InRange 6 7 (time_delta (time 2 5000000) (time 1 999000000)))
time_delta_accurate_example =
    time_delta_accurate (time 2 5000000) (time 1 999000000) (omega arith) (omega arith)

-- The handler with previous readings of the clock.
abbrev timed : Handler ℤ
timed = record swinging { last_gyro_tp = time 1 1; last_gesture_tp = time 1 1 }

gestures_at_bits_example :
    let b = gestures_at scale (time 1 100000001) (pos 3) (pos 0) timed in
    let dx = apply_threshold (pos 100) (scale (pos 3 *ℤ pos 100) (pos 1)) in
    let dy = apply_threshold (pos 100) (scale (pos 0 *ℤ pos 100) (pos 2)) in
    ((k : ℕ) → k < 24 → bit b k ≡ bit 1048576 k)
    × (bit b 24 ≡ (if ltb_ℤ (pos 0) dy then 1 else 0))
    × (bit b 25 ≡ (if ltb_ℤ dy (pos 0) then 1 else 0))
    × (bit b 26 ≡ (if ltb_ℤ dx (pos 0) then 1 else 0))
    × (bit b 27 ≡ (if ltb_ℤ (pos 0) dx then 1 else 0))
    × ((k : ℕ) → 28 ≤ k → bit b k ≡ 0)
unfolding new check_triggers time_delta
gestures_at_bits_example =
    gestures_at_bits scale (time 1 100000001) (pos 3) (pos 0) timed (omega arith)

-- The release of a button that is mapped to the wheel.
special_key-IsPassedOn_example :
    let e : KeyMapEntry = record { pscode = 16; lincode = 771 } in
    ((report_entry key_max 16 false first e start).1 ≡ key 771 false ∷ []
      → IsPassedOn key_max first false 771)
    × (IsPassedOn key_max first false 771
        → (report_entry key_max 16 false first e start).1 ≡ key 771 false ∷ [])
special_key-IsPassedOn_example =
    special_key-IsPassedOn key_max 16 false first (record { pscode = 16; lincode = 771 }) start refl
      (omega arith)

trigger_follows_button_example :
    (h : Handler ℤ) × (xs : List Signal) × (run scale 767
        (press (time 1 1) (time 1 2) 1048576 first ∷ session)
        (new 767 trigger_map keymap2 coeffs (pos 5) (pos 100))
      ≡ some (h, xs))
    × (h.move_trigger ≡ down first 20 h)
trigger_follows_button_example =
    trigger_follows_button scale 767 trigger_map keymap2 coeffs (pos 5) (pos 100)
      (press (time 1 1) (time 1 2) 1048576 first ∷ session) 20 scale_rests (omega arith)
      trigger_map-Owns (omega arith, session_range)
