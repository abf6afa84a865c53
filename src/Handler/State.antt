-- ===== src/Handler/State.antt =====
-- psmove_handler.hpp, and of psmove_handler.cpp the constructor, `checkTriggers` and `reset`.
use psmoveinput.Prelude.{
  ℕ, Bool, true, false, ◌&&◌, ◌||◌, not, List, [], ◌∷◌, ◌++◌, Option, ◌==◌, if◌then◌else◌, ℤ,
}
use psmoveinput.Common.{
  KeyMap, MoveCoeffs, ControllerId, PerController, key_psmove_move_trigger,
  key_psmove_gesture_trigger,
}

-- A reading of `clock_gettime(CLOCK_MONOTONIC_RAW)`.
pub record Timespec : Type 0 where
  pub tv_sec : ℕ
  pub tv_nsec : ℕ

-- What the handler emits: a call of one of its four signals.
pub data Signal : Type 0 where
  move : ℤ → ℤ → Signal
  key : ℕ → Bool → Signal
  disconnect : ControllerId → Signal
  mwheel : ℤ → Signal

-- The fields of `class PSMoveHandler` that hold state.
pub record Handler (D : Type 0) : Type 0 where
  pub keymaps : PerController KeyMap
  pub coeffs : MoveCoeffs D
  pub buttons : PerController ℕ
  pub move_threshold : ℤ
  pub gesture_threshold : ℤ
  pub last_gyro_tp : Timespec
  pub last_gesture_tp : Timespec
  pub use_move_trigger : Bool
  pub move_trigger : Bool
  pub use_gesture_trigger : Bool
  pub gesture_trigger : Bool
  pub release_gesture_keys : Bool

-- A new state with the signals that were emitted, in order, and their sequencing.
abbrev pub Out : Type 0 → Type 0
Out S = S × List Signal

infixl 5 ◌>>=◌
abbrev pub ◌>>=◌ : {S T : Type 0} → Out S → (S → Out T) → Out T
(s, xs) >>= f = let (t, ys) = f s in (t, xs ++ ys)

-- What `onButtons` and `onGesture` return: `none` means that the clock readings ran out.
abbrev pub Result : Type 0 → Type 0
Result D = Option (Out (Handler D))

abbrev pub zero_time : Timespec
zero_time = record { tv_sec = 0; tv_nsec = 0 }

-- The guard `(tv_sec != 0) && (tv_nsec != 0)`: a previous reading is known.
unfoldable pub has_reading : Timespec → Bool
has_reading tp = not (tp.tv_sec == 0) && not (tp.tv_nsec == 0)

-- One range-for of `checkTriggers`, with its `break`.
unfoldable pub has_lincode : ℕ → KeyMap → Bool
has_lincode code [] = false
has_lincode code (entry ∷ rest) = if entry.lincode == code then true else has_lincode code rest

-- A handler's own guards and its reset.
module _ {D : Type 0} where
  -- `reset`: what the end of all connections clears.
  unfoldable pub reset : Handler D → Handler D
  reset h = record h {
    buttons = record { fst = 0; snd = 0 };
    last_gyro_tp = zero_time;
    last_gesture_tp = zero_time;
    move_trigger = false;
    gesture_trigger = false;
  }

  -- The guard of `onGesture`: a previous reading, and the trigger pressed if one is used.
  unfoldable pub gesture_enabled : Handler D → Bool
  unfolding has_reading
  gesture_enabled h =
      has_reading h.last_gesture_tp
      && (h.use_gesture_trigger && h.gesture_trigger || not h.use_gesture_trigger)

  -- The guard of `onGyroscope`.
  unfoldable pub move_enabled : Handler D → Bool
  unfolding has_reading
  move_enabled h =
      has_reading h.last_gyro_tp && (h.use_move_trigger && h.move_trigger || not h.use_move_trigger)

-- `key_max` is `KEY_MAX` of <linux/input.h>.
module _ {D : Type 0} (key_max : ℕ) where
  -- `checkTriggers`: the two flags say whether a key map names its trigger key.
  unfoldable pub check_triggers : Handler D → Handler D
  unfolding has_lincode
  check_triggers h = record h {
    use_move_trigger =
        if has_lincode (key_psmove_move_trigger key_max) h.keymaps.fst
        then true
        else h.use_move_trigger;
    use_gesture_trigger =
        if has_lincode (key_psmove_gesture_trigger key_max) h.keymaps.snd
        then true
        else h.use_gesture_trigger;
  }

  -- The constructor.
  unfoldable pub new : KeyMap → KeyMap → MoveCoeffs D → ℤ → ℤ → Handler D
  unfolding check_triggers
  new keymap1 keymap2 coeffs move_threshold gesture_threshold = check_triggers (record {
    keymaps = record { fst = keymap1; snd = keymap2 };
    coeffs = coeffs;
    buttons = record { fst = 0; snd = 0 };
    move_threshold = move_threshold;
    gesture_threshold = gesture_threshold;
    last_gyro_tp = zero_time;
    last_gesture_tp = zero_time;
    use_move_trigger = false;
    move_trigger = false;
    use_gesture_trigger = false;
    gesture_trigger = false;
    release_gesture_keys = false;
  })
