-- ===== src/UnitTests/Motions.antt =====
-- test/psmove_handler_test.cpp: the tests of the pointer, of gestures and of the triggers pass.
use psmoveinput.Prelude.{
  Bool, true, false, List, [], ◌∷◌, pos, negsuc, ◌*ℤ◌, ◌≡◌, refl, ℤ, ltb_ℤ, ◌==ℤ◌, ◌&&◌, not,
}
use psmoveinput.Common.{first, second}
use psmoveinput.Handler.{
  new, check_triggers, has_lincode, on_buttons_with, update_buttons, button_loop, report_bit,
  report_key, report_entries, report_entry, handle_special_keys, move_enabled, has_reading,
  move_signals, gesture_enabled, gestures_at, gesture_buttons, apply_threshold, time_delta,
}
use psmoveinput.Handler.Session.{handle}
use psmoveinput.UnitTests.Harness.{
  Line, call_gyroscope, call_gesture, call_buttons, clear_keys, clear_moves, sleep, assert,
  run_test, passes, set_up, trigger_set_up, last_is, keys_are, has_key, is_moved, btn_move, btn_t,
  key_r, key_d, key_l,
}

-- `low <= x && x <= high`.
abbrev within : ℤ → ℤ → ℤ → Bool
within low high x = not (ltb_ℤ x low) && not (ltb_ℤ high x)

abbrev gyroscope_test : List Line
gyroscope_test =
    call_gyroscope (pos 10) (pos 30)
    ∷ assert (is_moved (pos 0) (pos 0))
    ∷ sleep 10
    ∷ call_gyroscope (negsuc 39) (pos 20)
    ∷ assert (λ l. within (negsuc 279) (negsuc 199) l.dx)
    ∷ assert (λ l. within (pos 400) (pos 440) l.dy)
    ∷ sleep 10
    ∷ call_gyroscope (pos 30) (pos 1)
    ∷ assert (λ l. within (pos 150) (pos 210) l.dx)
    ∷ assert (λ l. l.dy ==ℤ pos 0)
    ∷ []

gyroscope_passes : passes set_up gyroscope_test ≡ true
unfolding run_test new check_triggers has_lincode handle psmoveinput.Handler.on_gyroscope
    move_enabled has_reading move_signals apply_threshold time_delta ◌*ℤ◌
gyroscope_passes = refl

abbrev gestures_test : List Line
gestures_test =
    call_gesture (pos 1) (pos 1)
    ∷ assert (keys_are 0)
    ∷ sleep 10
    ∷ call_gesture (pos 20) (pos 1)
    ∷ assert (last_is key_r true)
    ∷ sleep 10
    ∷ call_gesture (pos 30) (pos 0)
    ∷ assert (last_is key_r true)
    ∷ sleep 10
    ∷ call_gesture (pos 0) (negsuc 49)
    ∷ assert (has_key key_d true)
    ∷ assert (has_key key_r false)
    ∷ call_gesture (pos 0) (pos 0)
    ∷ sleep 10
    ∷ clear_keys
    ∷ call_gesture (pos 20) (pos 0)
    ∷ assert (last_is key_r true)
    ∷ sleep 10
    ∷ call_gesture (pos 20) (negsuc 49)
    ∷ assert (keys_are 2)
    ∷ assert (last_is key_d true)
    ∷ sleep 10
    ∷ call_gesture (negsuc 19) (negsuc 49)
    ∷ assert (keys_are 3)
    ∷ assert (last_is key_r false)
    ∷ []

gestures_pass : passes set_up gestures_test ≡ true
unfolding run_test new check_triggers has_lincode handle psmoveinput.Handler.on_gesture
    on_buttons_with update_buttons button_loop report_bit report_key report_entries report_entry
    handle_special_keys gesture_enabled has_reading gestures_at gesture_buttons apply_threshold
    time_delta ◌*ℤ◌
gestures_pass = refl

abbrev move_trigger_test : List Line
move_trigger_test =
    call_gyroscope (pos 10) (pos 10)
    ∷ assert (is_moved (pos 0) (pos 0))
    ∷ sleep 10
    ∷ call_gyroscope (negsuc 39) (pos 20)
    ∷ assert (is_moved (pos 0) (pos 0))
    ∷ call_buttons btn_move first
    ∷ sleep 10
    ∷ call_gyroscope (pos 20) (pos 20)
    ∷ assert (λ l. not (l.dx ==ℤ pos 0) && not (l.dy ==ℤ pos 0))
    ∷ clear_moves
    ∷ sleep 5
    ∷ call_buttons 0 first
    ∷ call_gyroscope (pos 20) (pos 20)
    ∷ assert (is_moved (pos 0) (pos 0))
    ∷ []

move_trigger_passes : passes trigger_set_up move_trigger_test ≡ true
unfolding run_test new check_triggers has_lincode handle psmoveinput.Handler.on_gyroscope
    move_enabled has_reading move_signals apply_threshold time_delta psmoveinput.Handler.on_buttons
    on_buttons_with update_buttons button_loop report_bit report_key report_entries report_entry
    handle_special_keys ◌*ℤ◌
move_trigger_passes = refl

abbrev gesture_trigger_test : List Line
gesture_trigger_test =
    call_gesture (pos 1) (pos 1)
    ∷ sleep 10
    ∷ call_gesture (negsuc 9) (pos 3)
    ∷ assert (keys_are 0)
    ∷ sleep 10
    ∷ call_buttons btn_t second
    ∷ call_gesture (negsuc 6) (pos 2)
    ∷ assert (last_is key_l true)
    ∷ sleep 10
    ∷ call_buttons 0 second
    ∷ assert (last_is key_l false)
    ∷ clear_keys
    ∷ call_gesture (negsuc 19) (pos 0)
    ∷ assert (keys_are 0)
    ∷ []

gesture_trigger_passes : passes trigger_set_up gesture_trigger_test ≡ true
unfolding run_test new check_triggers has_lincode handle psmoveinput.Handler.on_gesture
    psmoveinput.Handler.on_buttons on_buttons_with update_buttons button_loop report_bit report_key
    report_entries report_entry handle_special_keys gesture_enabled has_reading gestures_at
    gesture_buttons apply_threshold time_delta ◌*ℤ◌
gesture_trigger_passes = refl
