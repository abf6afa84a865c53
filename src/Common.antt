-- ===== src/Common.antt =====
-- common.hpp and config_defs.hpp: the types and the constants that the components share.
use psmoveinput.Prelude.{ℕ, ◌+◌, List}

-- `enum class LogLevel`.
pub data LogLevel : Type 0 where
  fatal error info : LogLevel

-- `struct KeyMapEntry`: a button code of psmoveapi and a key code of Linux input.
pub record KeyMapEntry : Type 0 where
  pub pscode : ℕ
  pub lincode : ℕ

-- `typedef std::vector<KeyMapEntry> key_map`.
abbrev pub KeyMap : Type 0
KeyMap = List KeyMapEntry

-- `struct MoveCoeffs`, over the type that stands for `double`.
pub record MoveCoeffs (D : Type 0) : Type 0 where
  pub cx : D
  pub cy : D

-- `enum class OpMode`.
pub data OpMode : Type 0 where
  standalone client : OpMode

-- `enum class ControllerId`.
pub data ControllerId : Type 0 where
  first second : ControllerId

-- `MAX_CONTROLLERS`, the size of every array that a controller indexes.
abbrev pub max_controllers : ℕ
max_controllers = 2

-- An array of `MAX_CONTROLLERS` elements, and its element for a controller.
pub record PerController (A : Type 0) : Type 0 where
  pub fst : A
  pub snd : A

abbrev pub at : {A : Type 0} → PerController A → ControllerId → A
at r first = r.fst
at r second = r.snd

abbrev pub put : {A : Type 0} → PerController A → ControllerId → A → PerController A
put r first a = record r { fst = a }
put r second a = record r { snd = a }

-- The special keys that psmoveinput handles itself lie above `KEY_MAX` of <linux/input.h>.
module _ (key_max : ℕ) where
  abbrev pub key_psmove_disconnect : ℕ
  key_psmove_disconnect = key_max + 1

  abbrev pub key_psmove_move_trigger : ℕ
  key_psmove_move_trigger = key_max + 2

  abbrev pub key_psmove_gesture_trigger : ℕ
  key_psmove_gesture_trigger = key_max + 3

  abbrev pub key_psmove_mwheel_up : ℕ
  key_psmove_mwheel_up = key_max + 4

  abbrev pub key_psmove_mwheel_down : ℕ
  key_psmove_mwheel_down = key_max + 5

-- The gesture buttons, and the mask that takes them off.
abbrev pub btn_gesture_up : ℕ
btn_gesture_up = 0x01000000

abbrev pub btn_gesture_down : ℕ
btn_gesture_down = 0x02000000

abbrev pub btn_gesture_left : ℕ
btn_gesture_left = 0x04000000

abbrev pub btn_gesture_right : ℕ
btn_gesture_right = 0x08000000

abbrev pub btn_gesture_mask : ℕ
btn_gesture_mask = 0x00FFFFFF
