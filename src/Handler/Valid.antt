-- ===== src/Handler/Valid.antt =====
-- psmove_handler.cpp: what holds of the handler between two calls.
use psmoveinput.Prelude.{
  ℕ, ◌^◌, ◌<◌, ◌≤◌, bit, bit-bit_and, bit-bit_or, bit_and-le, bit_or-lt, true, false, ◌≡◌, refl,
  arith, ℤ, pos, zero-*ℤ, bit-zero,
}
use native.Mathlib.Nat.{le_trans}
use psmoveinput.Common.{
  ControllerId, first, second, KeyMap, key_psmove_gesture_trigger, key_psmove_move_trigger,
  MoveCoeffs, btn_gesture_mask,
}
use psmoveinput.Handler.State.{Handler, Timespec, has_lincode, new, check_triggers}
use psmoveinput.Handler.Keys.{update_buttons}
use psmoveinput.Handler.Reports.{apply_threshold, gesture_buttons, gestures_at}
use psmoveinput.Handler.Held.{update_buttons-Keeps}
use psmoveinput.Handler.Triggers.{update_buttons-release}

-- What holds between two calls: the flag of the gesture trigger agrees with the key map, no release
-- is pending, and the buttons are patterns of 32 bits.
pub record IsValid {D : Type 0} (key_max : ℕ) (h : Handler D) : Type 0 where
  pub move_flag : h.use_move_trigger ≡ has_lincode (key_psmove_move_trigger key_max) h.keymaps.fst
  pub gesture_flag :
      h.use_gesture_trigger ≡ has_lincode (key_psmove_gesture_trigger key_max) h.keymaps.snd
  pub idle : h.release_gesture_keys ≡ false
  pub fst_range : h.buttons.fst < 2 ^ 32
  pub snd_range : h.buttons.snd < 2 ^ 32

pub new-IsValid :
    {D : Type 0} (key_max : ℕ) (m m' : KeyMap) (coeffs : MoveCoeffs D) (t t' : ℤ)
    → IsValid key_max (new key_max m m' coeffs t t')
unfolding new check_triggers
new-IsValid key_max m m' coeffs t t' = record {
  move_flag = ground arith;
  gesture_flag = ground arith;
  idle = refl;
  fst_range = omega arith;
  snd_range = omega arith;
}

apply_threshold-zero : (t : ℤ) → apply_threshold t (pos 0) ≡ pos 0
unfolding apply_threshold
apply_threshold-zero t = ground arith

pub gesture_buttons-lt : (dx dy : ℤ) → gesture_buttons dx dy < 2 ^ 28
unfolding gesture_buttons
gesture_buttons-lt dx dy = ground arith

module _ {D : Type 0} (scale : ℤ → D → ℤ) where
  pub gestures_at-lt :
      (now : Timespec) (gx gy : ℤ) (h : Handler D)
      → h.buttons.snd < 2 ^ 32
      → gestures_at scale now gx gy h < 2 ^ 32
  unfolding gestures_at
  gestures_at-lt now gx gy h r =
      bit_or-lt 32 _ _ (le_trans (gesture_buttons-lt _ _) (omega arith))
        (omega (arith, bit_and-le 32 h.buttons.snd btn_gesture_mask r))

  -- With no movement on either axis the gesture bits are dropped, and no bit is set.
  pub gestures_at_rest :
      (now : Timespec) (h : Handler D)
      → ((c : D) → scale (pos 0) c ≡ pos 0)
      → (k : ℕ) → bit (gestures_at scale now (pos 0) (pos 0) h) k ≤ bit h.buttons.snd k
  unfolding gestures_at gesture_buttons
  gestures_at_rest now h z k =
      rw
        (
          zero-*ℤ,
          z h.coeffs.cx,
          z h.coeffs.cy,
          apply_threshold-zero h.gesture_threshold,
          bit-bit_or,
          bit-bit_and,
          bit-zero,
        )
        (omega arith)

module _ {D : Type 0} (key_max : ℕ) where
  pub update_buttons-IsValid :
      (buttons : ℕ) (c : ControllerId) (h : Handler D)
      → IsValid key_max h
      → buttons < 2 ^ 32
      → IsValid key_max
          (record (update_buttons key_max buttons c h).0 { release_gesture_keys = false })
  update_buttons-IsValid buttons first h v r =
      ground (arith, update_buttons-Keeps key_max buttons first h)
  update_buttons-IsValid buttons second h v r =
      ground (arith, update_buttons-Keeps key_max buttons second h)

  -- Where a release is pending, the gesture trigger is in use.
  pub release_uses_trigger :
      (buttons : ℕ) (c : ControllerId) (h : Handler D)
      → IsValid key_max h
      → buttons < 2 ^ 32
      → (update_buttons key_max buttons c h).0.release_gesture_keys ≡ true
      → (update_buttons key_max buttons c h).0.use_gesture_trigger ≡ true
  release_uses_trigger buttons first h v r e =
      ground (arith, update_buttons-release key_max buttons first h v.fst_range r e)
  release_uses_trigger buttons second h v r e = ground (
    arith,
    update_buttons-release key_max buttons second h v.snd_range r e,
    update_buttons-Keeps key_max buttons second h,
  )
