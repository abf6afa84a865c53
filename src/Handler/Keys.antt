-- ===== src/Handler/Keys.antt =====
-- psmove_handler.cpp: from a change of the buttons to key events, `handleSpecialKeys`,
-- `reportKey` and the first part of `onButtons`.
use psmoveinput.Prelude.{
  ℕ, zero, suc, ◌*◌, bit_and, bit_not, Bool, true, false, ◌&&◌, not, [], ◌∷◌, leb, ◌==◌,
  if◌then◌else◌, pos, negsuc,
}
use psmoveinput.Common.{
  KeyMapEntry, KeyMap, ControllerId, first, second, at, put, key_psmove_disconnect,
  key_psmove_move_trigger, key_psmove_gesture_trigger, key_psmove_mwheel_up, key_psmove_mwheel_down,
  btn_gesture_right,
}
use psmoveinput.Handler.State.{key, disconnect, mwheel, Handler, Out, ◌>>=◌}

abbrev is_first : ControllerId → Bool
is_first first = true
is_first second = false

-- The 28 bits up to `BTN_GESTURE_RIGHT`, and the test that ends the loop.
abbrev pub loop_fuel : ℕ
loop_fuel = 29

-- `key_max` is `KEY_MAX` of <linux/input.h>.
module _ {D : Type 0} (key_max : ℕ) where
  -- `handleSpecialKeys`: the result says that the key needs no report.
  unfoldable pub handle_special_keys : ℕ → ControllerId → Bool → Handler D → Out (Handler D × Bool)
  handle_special_keys lincode controller pressed h =
      if lincode == key_psmove_disconnect key_max
      then ((h, true), disconnect controller ∷ [])
      else if is_first controller && lincode == key_psmove_move_trigger key_max
      then ((record h { move_trigger = pressed }, true), [])
      else if not (is_first controller) && lincode == key_psmove_gesture_trigger key_max
      then (
        (
          record h {
            release_gesture_keys =
                if h.gesture_trigger && not pressed then true else h.release_gesture_keys;
            gesture_trigger = pressed;
          },
          true,
        ),
        [],
      )
      else if lincode == key_psmove_mwheel_up key_max && pressed
      then ((h, true), mwheel (pos 1) ∷ [])
      else if lincode == key_psmove_mwheel_down key_max && pressed
      then ((h, true), mwheel (negsuc 0) ∷ [])
      else ((h, false), [])

  -- One round of the loop of `reportKey`.
  unfoldable pub report_entry : ℕ → Bool → ControllerId → KeyMapEntry → Handler D → Out (Handler D)
  report_entry button pressed controller entry h =
      if entry.pscode == button
      then (handle_special_keys entry.lincode controller pressed h >>= λ (h', special).
          if special then (h', []) else (h', key entry.lincode pressed ∷ []))
      else (h, [])

  unfoldable pub report_entries : ℕ → Bool → ControllerId → KeyMap → Handler D → Out (Handler D)
  report_entries button pressed controller [] h = (h, [])
  report_entries button pressed controller (entry ∷ rest) h =
      report_entry button pressed controller entry h
      >>= report_entries button pressed controller rest

  -- `reportKey`.
  unfoldable pub report_key : ℕ → Bool → ControllerId → Handler D → Out (Handler D)
  report_key button pressed controller h =
      report_entries button pressed controller (at h.keymaps controller) h

  -- The body of the loop of `onButtons`.
  unfoldable pub report_bit : ℕ → ℕ → ControllerId → ℕ → Handler D → Out (Handler D)
  report_bit pressed released controller i h =
      if not (bit_and pressed i == 0)
      then report_key i true controller h
      else if not (bit_and released i == 0)
      then report_key i false controller h
      else (h, [])

  -- `for (int i = 1; i <= BTN_GESTURE_RIGHT; i <<= 1)`, with fuel for its rounds.
  unfoldable pub button_loop : ℕ → ℕ → ℕ → ControllerId → ℕ → Handler D → Out (Handler D)
  button_loop zero pressed released controller i h = (h, [])
  button_loop (suc fuel) pressed released controller i h =
      let rest =
        report_bit pressed released controller i h
        >>= button_loop fuel pressed released controller (i * 2) in
      if leb i btn_gesture_right then rest else (h, [])

  -- The first `if` of `onButtons`: report what changed, and remember the new state.
  unfoldable pub update_buttons : ℕ → ControllerId → Handler D → Out (Handler D)
  update_buttons buttons controller h =
      let old = at h.buttons controller in
      if old == buttons
      then (h, [])
      else button_loop loop_fuel (bit_and buttons (bit_not old)) (bit_and old (bit_not buttons))
          controller 1 h
        >>= λ h'. (record h' { buttons = put h'.buttons controller buttons }, [])
