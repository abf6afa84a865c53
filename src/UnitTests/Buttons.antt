-- ===== src/UnitTests/Buttons.antt =====
-- test/psmove_handler_test.cpp: the tests of buttons and resets pass.
use psmoveinput.Prelude.{Bool, true, false, List, [], ◌∷◌, pos, ◌==ℤ◌, ◌&&◌, ◌≡◌, refl, negsuc}
use psmoveinput.Common.{ControllerId, first, second}
use psmoveinput.Handler.{
  new, check_triggers, has_lincode, reset, on_buttons_with, update_buttons, button_loop, report_bit,
  report_key, report_entries, report_entry, handle_special_keys,
}
use psmoveinput.Handler.Session.{handle}
use psmoveinput.UnitTests.Harness.{
  Line, call_buttons, reset_handler, clear_keys, sleep, assert, TestListener, run_test, passes,
  set_up, last_is, keys_are, btn_cross, btn_start, btn_triangle, btn_square, btn_circle, btn_select,
  key_x, key_enter, key_space, key_down,
}

abbrev is_first_disconnected : TestListener → Bool
is_first_disconnected l = is_first l.id && l.is_disconnected
  where
    is_first : ControllerId → Bool
    is_first first = true
    is_first second = false

abbrev correct_buttons_test : List Line
correct_buttons_test =
    call_buttons btn_cross first
    ∷ assert (last_is key_x true)
    ∷ call_buttons 0 first
    ∷ assert (last_is key_x false)
    ∷ call_buttons btn_start first
    ∷ assert (last_is key_enter true)
    ∷ call_buttons 0 first
    ∷ assert (last_is key_enter false)
    ∷ call_buttons btn_cross second
    ∷ assert (last_is key_space true)
    ∷ call_buttons 0 second
    ∷ assert (last_is key_space false)
    ∷ call_buttons btn_start second
    ∷ assert (last_is key_down true)
    ∷ call_buttons 0 second
    ∷ assert (last_is key_down false)
    ∷ call_buttons btn_triangle first
    ∷ assert is_first_disconnected
    ∷ []

correct_buttons_pass : passes set_up correct_buttons_test ≡ true
unfolding run_test new check_triggers has_lincode handle psmoveinput.Handler.on_buttons
    on_buttons_with update_buttons button_loop report_bit report_key report_entries report_entry
    handle_special_keys
correct_buttons_pass = refl

abbrev incorrect_buttons_test : List Line
incorrect_buttons_test = call_buttons btn_select first ∷ assert (keys_are 0) ∷ []

incorrect_buttons_pass : passes set_up incorrect_buttons_test ≡ true
unfolding run_test new check_triggers has_lincode handle psmoveinput.Handler.on_buttons
    on_buttons_with update_buttons button_loop report_bit report_key report_entries report_entry
    handle_special_keys
incorrect_buttons_pass = refl

abbrev handler_reset_test : List Line
handler_reset_test =
    call_buttons btn_cross first
    ∷ assert (last_is key_x true)
    ∷ reset_handler
    ∷ call_buttons btn_cross first
    ∷ assert (last_is key_x true)
    ∷ reset_handler
    ∷ clear_keys
    ∷ call_buttons 0 first
    ∷ assert (keys_are 0)
    ∷ call_buttons btn_cross second
    ∷ assert (last_is key_space true)
    ∷ reset_handler
    ∷ call_buttons btn_cross second
    ∷ assert (last_is key_space true)
    ∷ reset_handler
    ∷ clear_keys
    ∷ call_buttons 0 second
    ∷ assert (keys_are 0)
    ∷ []

handler_reset_passes : passes set_up handler_reset_test ≡ true
unfolding run_test new check_triggers has_lincode reset handle psmoveinput.Handler.on_buttons
    on_buttons_with update_buttons button_loop report_bit report_key report_entries report_entry
    handle_special_keys
handler_reset_passes = refl

abbrev mwheel_test : List Line
mwheel_test =
    call_buttons btn_square first
    ∷ assert (λ l. l.mwheel_value ==ℤ pos 1)
    ∷ sleep 10
    ∷ call_buttons 0 first
    ∷ call_buttons btn_circle first
    ∷ assert (λ l. l.mwheel_value ==ℤ negsuc 0)
    ∷ []

mouse_wheel_passes : passes set_up mwheel_test ≡ true
unfolding run_test new check_triggers has_lincode handle psmoveinput.Handler.on_buttons
    on_buttons_with update_buttons button_loop report_bit report_key report_entries report_entry
    handle_special_keys
mouse_wheel_passes = refl
