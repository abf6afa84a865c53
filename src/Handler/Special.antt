-- ===== src/Handler/Special.antt =====
-- psmove_handler.cpp, `handleSpecialKeys`: which of the special keys are passed on as keys.
use psmoveinput.Prelude.{ℕ, ◌<◌, Bool, true, false, [], ◌∷◌, ◌≡◌, ◌⊎◌, arith}
use psmoveinput.Common.{
  KeyMapEntry, ControllerId, first, second, key_psmove_move_trigger, key_psmove_gesture_trigger,
  key_psmove_mwheel_up, key_psmove_mwheel_down,
}
use psmoveinput.Handler.State.{Handler, key}
use psmoveinput.Handler.Keys.{handle_special_keys, report_entry}

-- The special keys that are not handled: the wheel's on a release, a trigger's on the other
-- controller, and codes beyond the special ones.
abbrev pub IsPassedOn : ℕ → ControllerId → Bool → ℕ → Type 0
IsPassedOn key_max c pressed code =
    ((pressed ≡ false)
      × ((code ≡ key_psmove_mwheel_up key_max) ⊎ (code ≡ key_psmove_mwheel_down key_max)))
    ⊎ ((c ≡ first) × (code ≡ key_psmove_gesture_trigger key_max))
    ⊎ ((c ≡ second) × (code ≡ key_psmove_move_trigger key_max))
    ⊎ (key_psmove_mwheel_down key_max < code)

-- When a button changes that is mapped to a code above KEY_MAX, that code is reported as a key
-- exactly if it is a wheel code and the button is released, or the trigger of the other controller,
-- or above the special codes.
pub special_key-IsPassedOn :
    {D : Type 0} (key_max button : ℕ) (pressed : Bool) (c : ControllerId) (e : KeyMapEntry)
    (h : Handler D)
    → e.pscode ≡ button
    → key_max < e.lincode
    → ((report_entry key_max button pressed c e h).1 ≡ key e.lincode pressed ∷ []
        → IsPassedOn key_max c pressed e.lincode)
      × (IsPassedOn key_max c pressed e.lincode
          → (report_entry key_max button pressed c e h).1 ≡ key e.lincode pressed ∷ [])
unfolding report_entry handle_special_keys
special_key-IsPassedOn key_max button true first e h same special = ground arith
special_key-IsPassedOn key_max button true second e h same special = ground arith
special_key-IsPassedOn key_max button false first e h same special = ground arith
special_key-IsPassedOn key_max button false second e h same special = ground arith
