-- ===== src/Handler/Gestures.antt =====
-- psmove_handler.cpp, `onGesture`: which gesture buttons a reading stands for.
use psmoveinput.Prelude.{
  ◌∙◌, ◌<◌, ◌≤◌, bit_or, bit_and, bit-bit_or, bit-bit_and, bit-low_mask, bit_above, bit-le_one,
  ◌*ℤ◌, ℕ, zero, suc, ◌*◌, ◌/◌, ◌^◌, bit, Bool, ◌≡◌, arith, ℤ, pos, ltb_ℤ, if◌then◌else◌, ap,
}
use native.Mathlib.Nat.{pow-suc}
use psmoveinput.Common.{btn_gesture_mask}
use psmoveinput.Handler.State.{Handler, Timespec}
use psmoveinput.Handler.Valid.{gesture_buttons-lt}
use psmoveinput.Handler.Reports.{time_delta, apply_threshold, gesture_buttons, gestures_at}

-- The digits below w of a multiple of 2 ^ w are 0.
bit_below : (w m k : ℕ) → k < w → bit (m * 2 ^ w) k ≡ 0
bit_below zero m k lt = absurd (omega arith)
bit_below (suc w) m zero lt = omega (arith, ap (λ (t : ℕ). m * t) (pow-suc 2 w))
bit_below (suc w) m (suc k) lt =
    let halved : m * 2 ^ suc w / 2 ≡ m * 2 ^ w =
      omega (arith, ap (λ (t : ℕ). m * t) (pow-suc 2 w)) in
    rw halved (bit_below w m k (omega arith))

gesture_buttons_high : (dx dy : ℤ) → gesture_buttons dx dy ≡ gesture_buttons dx dy / 2 ^ 24 * 2 ^ 24
unfolding gesture_buttons
gesture_buttons_high dx dy = ground arith

gesture_buttons-low : (dx dy : ℤ) (k : ℕ) → k < 24 → bit (gesture_buttons dx dy) k ≡ 0
gesture_buttons-low dx dy k lt =
    rw gesture_buttons_high (bit_below 24 (gesture_buttons dx dy / 2 ^ 24) k lt)

abbrev one_if : Bool → ℕ
one_if b = if b then 1 else 0

gesture_buttons-bits :
    (dx dy : ℤ)
    → (bit (gesture_buttons dx dy) 24 ≡ one_if (ltb_ℤ (pos 0) dy))
      × (bit (gesture_buttons dx dy) 25 ≡ one_if (ltb_ℤ dy (pos 0)))
      × (bit (gesture_buttons dx dy) 26 ≡ one_if (ltb_ℤ dx (pos 0)))
      × (bit (gesture_buttons dx dy) 27 ≡ one_if (ltb_ℤ (pos 0) dx))
unfolding gesture_buttons
gesture_buttons-bits dx dy = ground arith

mask-lt : btn_gesture_mask < 2 ^ 24
mask-lt = omega arith

module _ (dx dy : ℤ) (buttons k : ℕ) where
  -- Below 24 the mask passes the old bit on, and no gesture bit is set.
  kept_bit :
      k < 24
      → bit (bit_or (gesture_buttons dx dy) (bit_and buttons btn_gesture_mask)) k ≡ bit buttons k
  kept_bit lt =
      rw (bit-bit_or, bit-bit_and, gesture_buttons-low dx dy k lt, bit-low_mask 24 k lt)
        (omega (arith, bit-le_one buttons k))

  -- From 24 on it is the other way round.
  gesture_bit :
      24 ≤ k
      → bit (bit_or (gesture_buttons dx dy) (bit_and buttons btn_gesture_mask)) k
        ≡ bit (gesture_buttons dx dy) k
  gesture_bit le =
      rw (bit-bit_or, bit-bit_and, bit_above 24 btn_gesture_mask k mask-lt le) (omega arith)

module _ {D : Type 0} (scale : ℤ → D → ℤ) where
  -- The buttons that a gesture reading reports, if those of the second controller are a 32-bit
  -- pattern. Its own 24 buttons are as they were. Of the gesture bits, up and down tell the sign of
  -- the filtered movement on the y axis, left and right that on the x axis; nothing lies above
  -- them.
  pub gestures_at_bits :
      (now : Timespec) (gx gy : ℤ) (h : Handler D)
      → h.buttons.snd < 2 ^ 32
      → let b = gestures_at scale now gx gy h in
        let delta = time_delta now h.last_gesture_tp in
        let dx = apply_threshold h.gesture_threshold (scale (gx *ℤ delta) h.coeffs.cx) in
        let dy = apply_threshold h.gesture_threshold (scale (gy *ℤ delta) h.coeffs.cy) in
        ((k : ℕ) → k < 24 → bit b k ≡ bit h.buttons.snd k)
        × (bit b 24 ≡ (if ltb_ℤ (pos 0) dy then 1 else 0))
        × (bit b 25 ≡ (if ltb_ℤ dy (pos 0) then 1 else 0))
        × (bit b 26 ≡ (if ltb_ℤ dx (pos 0) then 1 else 0))
        × (bit b 27 ≡ (if ltb_ℤ (pos 0) dx then 1 else 0))
        × ((k : ℕ) → 28 ≤ k → bit b k ≡ 0)
  unfolding gestures_at
  gestures_at_bits now gx gy h r =
      let delta = time_delta now h.last_gesture_tp in
      let dx = apply_threshold h.gesture_threshold (scale (gx *ℤ delta) h.coeffs.cx) in
      let dy = apply_threshold h.gesture_threshold (scale (gy *ℤ delta) h.coeffs.cy) in
      let (up, down, left, right) = gesture_buttons-bits dx dy in
      (
        λ k lt. kept_bit dx dy h.buttons.snd k lt,
        gesture_bit dx dy h.buttons.snd 24 (omega arith) ∙ up,
        gesture_bit dx dy h.buttons.snd 25 (omega arith) ∙ down,
        gesture_bit dx dy h.buttons.snd 26 (omega arith) ∙ left,
        gesture_bit dx dy h.buttons.snd 27 (omega arith) ∙ right,
        λ k le.
            gesture_bit dx dy h.buttons.snd k (omega arith)
            ∙ bit_above 28 _ k (gesture_buttons-lt dx dy) le,
      )
