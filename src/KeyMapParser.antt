-- ===== src/KeyMapParser.antt =====
-- conf_keymap_parser.cpp: the two tables, and `createEntry`. The values of the enumerators of
-- psmoveapi and of the macros of <linux/input.h> are parameters, given by name.
pub mod Tables
pub mod Entries
use Prim.Native.String.{String}
use text.Mathlib.Text.{◌==◌ as str_eq}
use psmoveinput.Prelude.{ℕ, List, [], ◌∷◌, Option, none, some, if◌then◌else◌}
use psmoveinput.Common.{
  KeyMapEntry, key_psmove_disconnect, key_psmove_move_trigger, key_psmove_gesture_trigger,
  key_psmove_mwheel_up, key_psmove_mwheel_down, btn_gesture_up, btn_gesture_down, btn_gesture_left,
  btn_gesture_right,
}

-- What <psmoveapi/psmove.h> and <linux/input.h> define: `button` and `key` by the name of the
-- enumerator or macro, `KEY_RESERVED` and `KEY_MAX`.
pub record Macros : Type 0 where
  pub button : String → ℕ
  pub key : String → ℕ
  pub key_reserved : ℕ
  pub key_max : ℕ

-- `std::map::find`.
unfoldable pub find : String → List (String × ℕ) → Option ℕ
find name [] = none
find name ((k, v) ∷ rest) = if str_eq k name then some v else find name rest

module _ (macros : Macros) where
  open macros use {button, key, key_reserved, key_max}

  -- From the name of an option to the code of a button.
  unfoldable pub psmap : List (String × ℕ)
  psmap =
      ("PSBTN_TRIANGLE", button "Btn_TRIANGLE")
      ∷ ("PSBTN_CIRCLE", button "Btn_CIRCLE")
      ∷ ("PSBTN_CROSS", button "Btn_CROSS")
      ∷ ("PSBTN_SQUARE", button "Btn_SQUARE")
      ∷ ("PSBTN_SELECT", button "Btn_SELECT")
      ∷ ("PSBTN_START", button "Btn_START")
      ∷ ("PSBTN_PS", button "Btn_PS")
      ∷ ("PSBTN_MOVE", button "Btn_MOVE")
      ∷ ("PSBTN_T", button "Btn_T")
      ∷ ("PSBTN_1_TRIANGLE", button "Btn_TRIANGLE")
      ∷ ("PSBTN_1_CIRCLE", button "Btn_CIRCLE")
      ∷ ("PSBTN_1_CROSS", button "Btn_CROSS")
      ∷ ("PSBTN_1_SQUARE", button "Btn_SQUARE")
      ∷ ("PSBTN_1_SELECT", button "Btn_SELECT")
      ∷ ("PSBTN_1_START", button "Btn_START")
      ∷ ("PSBTN_1_PS", button "Btn_PS")
      ∷ ("PSBTN_1_MOVE", button "Btn_MOVE")
      ∷ ("PSBTN_1_T", button "Btn_T")
      ∷ ("GESTURE_UP", btn_gesture_up)
      ∷ ("GESTURE_DOWN", btn_gesture_down)
      ∷ ("GESTURE_LEFT", btn_gesture_left)
      ∷ ("GESTURE_RIGHT", btn_gesture_right)
      ∷ []

  -- From the value of an option to the code of a key.
  unfoldable pub linmap : List (String × ℕ)
  linmap =
      ("KEY_ESC", key "KEY_ESC")
      ∷ ("KEY_1", key "KEY_1")
      ∷ ("KEY_2", key "KEY_2")
      ∷ ("KEY_3", key "KEY_3")
      ∷ ("KEY_4", key "KEY_4")
      ∷ ("KEY_5", key "KEY_5")
      ∷ ("KEY_6", key "KEY_6")
      ∷ ("KEY_7", key "KEY_7")
      ∷ ("KEY_8", key "KEY_8")
      ∷ ("KEY_9", key "KEY_9")
      ∷ ("KEY_0", key "KEY_0")
      ∷ ("KEY_MINUS", key "KEY_MINUS")
      ∷ ("KEY_EQUAL", key "KEY_EQUAL")
      ∷ ("KEY_BACKSPACE", key "KEY_BACKSPACE")
      ∷ ("KEY_TAB", key "KEY_TAB")
      ∷ ("KEY_Q", key "KEY_Q")
      ∷ ("KEY_W", key "KEY_W")
      ∷ ("KEY_E", key "KEY_E")
      ∷ ("KEY_R", key "KEY_R")
      ∷ ("KEY_T", key "KEY_T")
      ∷ ("KEY_Y", key "KEY_Y")
      ∷ ("KEY_U", key "KEY_U")
      ∷ ("KEY_I", key "KEY_I")
      ∷ ("KEY_O", key "KEY_O")
      ∷ ("KEY_P", key "KEY_P")
      ∷ ("KEY_LEFTBRACE", key "KEY_LEFTBRACE")
      ∷ ("KEY_RIGHTBRACE", key "KEY_RIGHTBRACE")
      ∷ ("KEY_ENTER", key "KEY_ENTER")
      ∷ ("KEY_LEFTCTRL", key "KEY_LEFTCTRL")
      ∷ ("KEY_RIGHTCTRL", key "KEY_RIGHTCTRL")
      ∷ ("KEY_A", key "KEY_A")
      ∷ ("KEY_S", key "KEY_S")
      ∷ ("KEY_D", key "KEY_D")
      ∷ ("KEY_F", key "KEY_F")
      ∷ ("KEY_G", key "KEY_G")
      ∷ ("KEY_H", key "KEY_H")
      ∷ ("KEY_J", key "KEY_J")
      ∷ ("KEY_K", key "KEY_K")
      ∷ ("KEY_L", key "KEY_L")
      ∷ ("KEY_SEMICOLON", key "KEY_SEMICOLON")
      ∷ ("KEY_APOSTROPHE", key "KEY_APOSTROPHE")
      ∷ ("KEY_GRAVE", key "KEY_GRAVE")
      ∷ ("KEY_LEFTSHIFT", key "KEY_LEFTSHIFT")
      ∷ ("KEY_RIGHTSHIFT", key "KEY_RIGHTSHIFT")
      ∷ ("KEY_BACKSLASH", key "KEY_BACKSLASH")
      ∷ ("KEY_Z", key "KEY_Z")
      ∷ ("KEY_X", key "KEY_X")
      ∷ ("KEY_C", key "KEY_C")
      ∷ ("KEY_V", key "KEY_V")
      ∷ ("KEY_B", key "KEY_B")
      ∷ ("KEY_N", key "KEY_N")
      ∷ ("KEY_M", key "KEY_M")
      ∷ ("KEY_COMMA", key "KEY_COMMA")
      ∷ ("KEY_DOT", key "KEY_DOT")
      ∷ ("KEY_SLASH", key "KEY_SLASH")
      ∷ ("KEY_KPASTERISK", key "KEY_KPASTERISK")
      ∷ ("KEY_LEFTALT", key "KEY_LEFTALT")
      ∷ ("KEY_RIGHTALT", key "KEY_RIGHTALT")
      ∷ ("KEY_SPACE", key "KEY_SPACE")
      ∷ ("KEY_CAPSLOCK", key "KEY_CAPSLOCK")
      ∷ ("KEY_F1", key "KEY_F1")
      ∷ ("KEY_F2", key "KEY_F2")
      ∷ ("KEY_F3", key "KEY_F3")
      ∷ ("KEY_F4", key "KEY_F4")
      ∷ ("KEY_F5", key "KEY_F5")
      ∷ ("KEY_F6", key "KEY_F6")
      ∷ ("KEY_F7", key "KEY_F7")
      ∷ ("KEY_F8", key "KEY_F8")
      ∷ ("KEY_F9", key "KEY_F9")
      ∷ ("KEY_F10", key "KEY_F10")
      ∷ ("KEY_NUMLOCK", key "KEY_NUMLOCK")
      ∷ ("KEY_SCROLLLOCK", key "KEY_SCROLLLOCK")
      ∷ ("KEY_F11", key "KEY_F11")
      ∷ ("KEY_F12", key "KEY_F12")
      ∷ ("KEY_SYSRQ", key "KEY_SYSRQ")
      ∷ ("KEY_LEFTMETA", key "KEY_LEFTMETA")
      ∷ ("KEY_RIGHTMETA", key "KEY_RIGHTMETA")
      ∷ ("KEY_HOME", key "KEY_HOME")
      ∷ ("KEY_UP", key "KEY_UP")
      ∷ ("KEY_PAGEUP", key "KEY_PAGEUP")
      ∷ ("KEY_LEFT", key "KEY_LEFT")
      ∷ ("KEY_RIGHT", key "KEY_RIGHT")
      ∷ ("KEY_END", key "KEY_END")
      ∷ ("KEY_DOWN", key "KEY_DOWN")
      ∷ ("KEY_PAGEDOWN", key "KEY_PAGEDOWN")
      ∷ ("KEY_INSERT", key "KEY_INSERT")
      ∷ ("KEY_DELETE", key "KEY_DELETE")
      ∷ ("KEY_MUTE", key "KEY_MUTE")
      ∷ ("KEY_VOLUMEDOWN", key "KEY_VOLUMEDOWN")
      ∷ ("KEY_VOLUMEUP", key "KEY_VOLUMEUP")
      ∷ ("KEY_PAUSE", key "KEY_PAUSE")
      ∷ ("KEY_STOP", key "KEY_STOP")
      ∷ ("KEY_BACK", key "KEY_BACK")
      ∷ ("KEY_FORWARD", key "KEY_FORWARD")
      ∷ ("KEY_PLAYPAUSE", key "KEY_PLAYPAUSE")
      ∷ ("BTN_MOUSE", key "BTN_MOUSE")
      ∷ ("BTN_LEFT", key "BTN_LEFT")
      ∷ ("BTN_RIGHT", key "BTN_RIGHT")
      ∷ ("BTN_MIDDLE", key "BTN_MIDDLE")
      ∷ ("disconnect", key_psmove_disconnect key_max)
      ∷ ("move_trigger", key_psmove_move_trigger key_max)
      ∷ ("gesture_trigger", key_psmove_gesture_trigger key_max)
      ∷ ("MWHEEL_UP", key_psmove_mwheel_up key_max)
      ∷ ("MWHEEL_DOWN", key_psmove_mwheel_down key_max)
      ∷ []

  -- `createEntry`: what is not found is left at 0 and at `KEY_RESERVED`.
  unfoldable pub create_entry : String → String → KeyMapEntry
  create_entry optname optval = elim (find optname psmap) [
    | none ↦ record { pscode = 0; lincode = key_reserved }
    | some ps ↦ elim (find optval linmap) [
      | none ↦ record { pscode = ps; lincode = key_reserved }
      | some lin ↦ record { pscode = ps; lincode = lin }
    ]
  ]
