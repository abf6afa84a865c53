-- ===== src/Threads/Sound.antt =====
-- psmove_handler.cpp: what every action of a thread keeps.
use psmoveinput.Prelude.{
  ℕ, zero, suc, ◌^◌, ◌<◌, true, false, leb, ◌==◌, ◌≡◌, refl, arith, Bool-cases, inl, inr, ℤ, All,
}
use native.Mathlib.Nat.{pow-suc}
use psmoveinput.Common.{
  ControllerId, first, second, KeyMap, PerController, at, btn_gesture_right,
  key_psmove_gesture_trigger,
}
use psmoveinput.Handler.{Handler, Timespec, on_gyroscope, has_lincode, report_bit, report_key}
use psmoveinput.Handler.Changes.{report_bit-Keeps}
use psmoveinput.Handler.Following.{Ready}
use psmoveinput.Handler.Triggers.{report_entries-release}
use psmoveinput.Handler.Valid.{gestures_at-lt}
use psmoveinput.Threads.State.{
  Task, press, bits, check, clear, swing, judge, stamp, gyro, perform, store,
}

-- The buttons of a task are a pattern of 32 bits, and its loop stands at one of them.
abbrev pub TaskFits : Task → Type 0
TaskFits (press buttons c) = buttons < 2 ^ 32
TaskFits (bits fuel p r c i buttons) = (buttons < 2 ^ 32) × (k : ℕ) × (i ≡ 2 ^ k)
TaskFits _ = Unit {0}

module _ {D : Type 0} (scale : ℤ → D → ℤ) (key_max : ℕ) (km : PerController KeyMap) where
  stored-Ready :
      (buttons : ℕ) (c : ControllerId) (h : Handler D)
      → Ready km h
      → buttons < 2 ^ 32
      → Ready km (store buttons c h).0.0
  stored-Ready buttons first h r lt = ground arith
  stored-Ready buttons second h r lt = ground arith

  -- The handler keeps its key maps, and its buttons stay patterns of 32 bits.
  pub perform-Ready :
      (now : Timespec) (t : Task) (h : Handler D)
      → Ready km h
      → TaskFits t
      → Ready km (perform scale key_max now t h).0.0
  unfolding perform on_gyroscope
  perform-Ready now (press buttons c) h r f = ground arith
  perform-Ready now (bits zero p r c i buttons) h ready f = stored-Ready buttons c h ready f.0
  perform-Ready now (bits (suc fuel) p r c i buttons) h ready f =
      elim (Bool-cases (leb i btn_gesture_right)) [
        | inl on ↦ rw on (ground (arith, report_bit-Keeps key_max p r c i h))
        | inr off ↦ rw off (stored-Ready buttons c h ready f.0)
      ]
  perform-Ready now check h r f = r
  perform-Ready now clear h r f = ground arith
  perform-Ready now (swing gx gy) h r f = r
  perform-Ready now (judge t gx gy) h r f = r
  perform-Ready now (stamp t) h r f = ground arith
  perform-Ready now (gyro gx gy) h r f = ground arith

  -- So are those of the tasks that are added.
  pub perform-TaskFits :
      (now : Timespec) (t : Task) (h : Handler D)
      → Ready km h
      → TaskFits t
      → All TaskFits (perform scale key_max now t h).0.1
  unfolding perform
  perform-TaskFits now (press buttons c) h r f = elim (Bool-cases (at h.buttons c == buttons)) [
    | inl e ↦ rw e tt
    | inr e ↦ rw e ((f, 0, refl), tt)
  ]
  perform-TaskFits now (bits zero p r c i buttons) h ready f = tt
  perform-TaskFits now (bits (suc fuel) p r c i buttons) h ready (f, k, e) =
      elim (Bool-cases (leb i btn_gesture_right)) [
        | inl on ↦ rw on ((f, suc k, omega (arith, e, pow-suc 2 k)), tt)
        | inr off ↦ rw off tt
      ]
  perform-TaskFits now check h r f = ground arith
  perform-TaskFits now clear h r f = tt
  perform-TaskFits now (swing gx gy) h r f = ground arith
  perform-TaskFits now (judge t gx gy) h r f =
      (gestures_at-lt scale t gx gy h r.snd_range, (tt, tt))
  perform-TaskFits now (stamp t) h r f = tt
  perform-TaskFits now (gyro gx gy) h r f = tt

  module _ (no_trigger : has_lincode (key_psmove_gesture_trigger key_max) km.snd ≡ false) where
    report_bit_calm :
        (p r : ℕ) (c : ControllerId) (i : ℕ) (h : Handler D)
        → h.keymaps ≡ km
        → h.release_gesture_keys ≡ false
        → (report_bit key_max p r c i h).0.release_gesture_keys ≡ false
    unfolding report_bit report_key
    report_bit_calm p r c i h e calm = ground (
      arith,
      report_entries-release key_max i true c (at h.keymaps c) h,
      report_entries-release key_max i false c (at h.keymaps c) h,
    )

    -- Without a gesture trigger nothing is ever to be released.
    pub perform_calm :
        (now : Timespec) (t : Task) (h : Handler D)
        → h.keymaps ≡ km
        → h.release_gesture_keys ≡ false
        → (perform scale key_max now t h).0.0.release_gesture_keys ≡ false
    unfolding perform on_gyroscope
    perform_calm now (press buttons c) h e calm = ground arith
    perform_calm now (bits zero p r c i buttons) h e calm = calm
    perform_calm now (bits (suc fuel) p r c i buttons) h e calm =
        elim (Bool-cases (leb i btn_gesture_right)) [
          | inl on ↦ rw on (report_bit_calm p r c i h e calm)
          | inr off ↦ rw off calm
        ]
    perform_calm now check h e calm = calm
    perform_calm now clear h e calm = refl
    perform_calm now (swing gx gy) h e calm = calm
    perform_calm now (judge t gx gy) h e calm = calm
    perform_calm now (stamp t) h e calm = calm
    perform_calm now (gyro gx gy) h e calm = calm
