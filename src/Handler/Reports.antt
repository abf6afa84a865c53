-- ===== src/Handler/Reports.antt =====
-- psmove_handler.cpp: the slots `onGyroscope`, `onGesture` and `onButtons`.
use psmoveinput.Prelude.{
  ℕ, bit_and, bit_or, false, ◌&&◌, ◌||◌, not, List, [], ◌∷◌, ◌++◌, none, some, if◌then◌else◌, ◌≡◌,
  refl, true, false, ℤ, pos, neg, ◌*ℤ◌, ◌+ℤ◌, quot, sub_ℕ, ltb_ℤ, ◌==ℤ◌,
}
use psmoveinput.Common.{
  ControllerId, second, btn_gesture_up, btn_gesture_down, btn_gesture_left, btn_gesture_right,
  btn_gesture_mask,
}
use psmoveinput.Handler.State.{
  Timespec, Signal, move, Handler, Out, Result, gesture_enabled, move_enabled,
}
use psmoveinput.Handler.Keys.{update_buttons}

-- The milliseconds between two readings, from the nanosecond fields alone.
unfoldable pub time_delta : Timespec → Timespec → ℤ
time_delta now last =
    let d = quot (sub_ℕ now.tv_nsec last.tv_nsec) 1000000 in
    if ltb_ℤ d (pos 0) then d +ℤ pos 1000 else d

-- Movements strictly within the threshold are set to 0.
unfoldable pub apply_threshold : ℤ → ℤ → ℤ
apply_threshold threshold d =
    if ltb_ℤ (pos 0) d && ltb_ℤ d threshold || ltb_ℤ d (pos 0) && ltb_ℤ (neg threshold) d
    then pos 0
    else d

-- `gestureButtons`, from the filtered movement on both axes.
unfoldable pub gesture_buttons : ℤ → ℤ → ℕ
gesture_buttons dx dy =
    let horizontal =
      if ltb_ℤ (pos 0) dx
      then bit_or 0 btn_gesture_right
      else if ltb_ℤ dx (pos 0)
      then bit_or 0 btn_gesture_left
      else 0 in
    if ltb_ℤ (pos 0) dy
    then bit_or horizontal btn_gesture_up
    else if ltb_ℤ dy (pos 0)
    then bit_or horizontal btn_gesture_down
    else horizontal

module _ {D : Type 0} where
  abbrev pub stamp_gesture : Timespec → Out (Handler D) → Out (Handler D)
  stamp_gesture now (h, xs) = (record h { last_gesture_tp = now }, xs)

  abbrev pub stamp_result : Timespec → Result D → Result D
  stamp_result now none = none
  stamp_result now (some r) = some (stamp_gesture now r)

-- The signals that were emitted before a nested call come first.
module _ {D : Type 0} where
  abbrev pub append_result : List Signal → Result D → Result D
  append_result xs none = none
  append_result xs (some (h, ys)) = some (h, xs ++ ys)

-- `scale n c` is `static_cast<int>(n * c)` for a `long` n and a `double` c.
module _ {D : Type 0} (scale : ℤ → D → ℤ) where
  -- The buttons that `onGesture` reports for the reading at `now`.
  unfoldable pub gestures_at : Timespec → ℤ → ℤ → Handler D → ℕ
  gestures_at now gx gy h =
      let delta = time_delta now h.last_gesture_tp in
      let dx = apply_threshold h.gesture_threshold (scale (gx *ℤ delta) h.coeffs.cx) in
      let dy = apply_threshold h.gesture_threshold (scale (gy *ℤ delta) h.coeffs.cy) in
      bit_or (gesture_buttons dx dy) (bit_and h.buttons.snd btn_gesture_mask)

  -- The signal of `onGyroscope`, if the filtered movement is not null.
  unfoldable pub move_signals : Timespec → ℤ → ℤ → Handler D → List Signal
  move_signals now gx gy h =
      let delta = time_delta now h.last_gyro_tp in
      let dx = apply_threshold h.move_threshold (scale (gx *ℤ delta) h.coeffs.cx) in
      let dy = apply_threshold h.move_threshold (scale (gy *ℤ delta) h.coeffs.cy) in
      if not (dx ==ℤ pos 0) || not (dy ==ℤ pos 0) then move dx dy ∷ [] else []

  -- `onGyroscope`, at the reading `now` of the clock.
  unfoldable pub on_gyroscope : Timespec → ℤ → ℤ → Handler D → Out (Handler D)
  on_gyroscope now gx gy h =
      (record h { last_gyro_tp = now }, if move_enabled h then move_signals now gx gy h else [])

-- `key_max` is `KEY_MAX` of <linux/input.h>.
module _ {D : Type 0} (key_max : ℕ) where
  -- `onButtons`; `release` is its call `onGesture(0, 0)`.
  unfoldable pub on_buttons_with : (Handler D → Result D) → ℕ → ControllerId → Handler D → Result D
  on_buttons_with release buttons controller h =
      let (h', xs) = update_buttons key_max buttons controller h in
      let released = release (record h' { release_gesture_keys = false }) in
      if h'.release_gesture_keys then append_result xs released else some (h', xs)

module _ {D : Type 0} (scale : ℤ → D → ℤ) (key_max : ℕ) where
  -- `onGesture`. Each call takes one reading of the clock off the list, its nested calls the next.
  unfoldable pub on_gesture : List Timespec → ℤ → ℤ → Handler D → Result D
  on_gesture [] gx gy h = none
  on_gesture (now ∷ clock) gx gy h =
      let nested =
        on_buttons_with key_max (on_gesture clock (pos 0) (pos 0)) (gestures_at scale now gx gy h)
          second h in
      if gesture_enabled h then stamp_result now nested else some (stamp_gesture now (h, []))

  -- `onButtons`.
  unfoldable pub on_buttons : List Timespec → ℕ → ControllerId → Handler D → Result D
  on_buttons clock buttons controller h =
      on_buttons_with key_max (on_gesture clock (pos 0) (pos 0)) buttons controller h

module _ {D : Type 0} (key_max : ℕ) (release : Handler D → Result D) where
  pub on_buttons_with_releases :
      (buttons : ℕ) (c : ControllerId) (h : Handler D)
      → (update_buttons key_max buttons c h).0.release_gesture_keys ≡ true
      → on_buttons_with key_max release buttons c h
        ≡ append_result (update_buttons key_max buttons c h).1 (
            release
              (record (update_buttons key_max buttons c h).0 { release_gesture_keys = false }))
  unfolding on_buttons_with
  on_buttons_with_releases buttons c h e = rw e refl

  pub on_buttons_with_ends :
      (buttons : ℕ) (c : ControllerId) (h : Handler D)
      → (update_buttons key_max buttons c h).0.release_gesture_keys ≡ false
      → on_buttons_with key_max release buttons c h ≡ some (update_buttons key_max buttons c h)
  unfolding on_buttons_with
  on_buttons_with_ends buttons c h e = simp e
