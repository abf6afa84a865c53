-- ===== src/Threads/Actions.antt =====
-- psmove_handler.cpp: an action of a thread works on its controller's part of the handler alone, where
-- no gesture keys are to be released.

use psmoveinput.Prelude.{
  ℕ, zero, suc, bit_and, bit_not, false, List, [], ◌∷◌, leb, ◌==◌, ◌≡◌, refl, ◌∙◌, ap, arith,
  Bool-cases, inl, inr, ℤ, All,
}
use psmoveinput.Common.{ControllerId, first, second, at, btn_gesture_right}
use psmoveinput.Handler.{
  Handler, Timespec, Signal, on_gyroscope, move_signals, move_enabled, has_reading, gesture_enabled,
  gestures_at, loop_fuel,
}
use psmoveinput.Handler.Following.{opposite}
use psmoveinput.Threads.State.{
  Task, press, bits, check, clear, swing, judge, stamp, gyro, perform, store,
}
use psmoveinput.Threads.Local.{
  IsOwn, SameFirst, SameSecond, Same, Same-refl, report_bit-Leaves, report_bit-Same,
}

module _ {D : Type 0} (scale : ℤ → D → ℤ) (key_max : ℕ) where
  -- The same new tasks, the same signals, and the same for the part.
  abbrev pub AlikeTasks :
      ControllerId
      → (Handler D × List Task) × List Signal
      → (Handler D × List Task) × List Signal
      → Type 0
  AlikeTasks c ((h, ts), xs) ((g, us), ys) = Same c h g × (us ≡ ts) × (ys ≡ xs)

  store-Same :
      (c : ControllerId) (buttons : ℕ) (h g : Handler D)
      → Same c h g
      → AlikeTasks c (store buttons c h) (store buttons c g)
  store-Same first buttons h g s = ground arith
  store-Same second buttons h g s = ground arith

  bits-Same :
      (c : ControllerId) (now : Timespec) (fuel p r i buttons : ℕ) (h g : Handler D)
      → Same c h g
      → AlikeTasks c
          (perform scale key_max now (bits fuel p r c i buttons) h)
          (perform scale key_max now (bits fuel p r c i buttons) g)
  unfolding perform
  bits-Same c now zero p r i buttons h g s = store-Same c buttons h g s
  bits-Same c now (suc fuel) p r i buttons h g s = elim (Bool-cases (leb i btn_gesture_right)) [
    | inl on ↦
        let (same, xs) = report_bit-Same key_max c p r i h g s in rw on (same, refl, rw xs refl)
    | inr off ↦ rw off (store-Same c buttons h g s)
  ]

  buttons_agree :
      (c : ControllerId) (h g : Handler D) → Same c h g → at g.buttons c ≡ at h.buttons c
  buttons_agree first h g s = s.buttons
  buttons_agree second h g s = s.buttons

  press-Same :
      (c : ControllerId) (now : Timespec) (buttons : ℕ) (h g : Handler D)
      → Same c h g
      → AlikeTasks c
          (perform scale key_max now (press buttons c) h)
          (perform scale key_max now (press buttons c) g)
  unfolding perform
  press-Same c now buttons h g s =
      let e = buttons_agree c h g s in
      elim (Bool-cases (at h.buttons c == buttons)) [
        | inl old ↦ rw (old, ap (λ x. x == buttons) e ∙ old) (s, refl, refl)
        | inr new ↦
            rw (new, ap (λ x. x == buttons) e ∙ new)
              (
                s,
                ap
                    (λ x.
                      bits loop_fuel (bit_and buttons (bit_not x)) (bit_and x (bit_not buttons)) c 1
                        buttons
                      ∷ [])
                    e,
                refl,
              )
      ]

  enabled_agree : (h g : Handler D) → SameSecond h g → gesture_enabled g ≡ gesture_enabled h
  unfolding gesture_enabled has_reading
  enabled_agree h g s = rw (s.last_gesture_tp, s.use_gesture_trigger, s.gesture_trigger) refl

  gestures_agree :
      (now : Timespec) (gx gy : ℤ) (h g : Handler D)
      → SameSecond h g
      → gestures_at scale now gx gy g ≡ gestures_at scale now gx gy h
  unfolding gestures_at
  gestures_agree now gx gy h g s =
      rw (s.coeffs, s.gesture_threshold, s.last_gesture_tp, s.buttons) refl

  moves_agree :
      (now : Timespec) (gx gy : ℤ) (h g : Handler D)
      → SameFirst h g
      → (on_gyroscope scale now gx gy g).1 ≡ (on_gyroscope scale now gx gy h).1
  unfolding on_gyroscope move_signals move_enabled has_reading
  moves_agree now gx gy h g s =
      rw (s.coeffs, s.move_threshold, s.last_gyro_tp, s.use_move_trigger, s.move_trigger) refl

  gyro_part :
      (now : Timespec) (gx gy : ℤ) (h g : Handler D)
      → SameFirst h g
      → SameFirst (on_gyroscope scale now gx gy h).0 (on_gyroscope scale now gx gy g).0
  unfolding on_gyroscope
  gyro_part now gx gy h g s = ground arith

  pub perform-Same :
      (c : ControllerId) (now : Timespec) (t : Task) (h g : Handler D)
      → IsOwn c t
      → h.release_gesture_keys ≡ false
      → g.release_gesture_keys ≡ false
      → Same c h g
      → AlikeTasks c (perform scale key_max now t h) (perform scale key_max now t g)
  unfolding perform
  perform-Same first now (press buttons first) h g own a b s = press-Same first now buttons h g s
  perform-Same first now (press buttons second) h g own a b s = absurd (ground arith)
  perform-Same second now (press buttons first) h g own a b s = absurd (ground arith)
  perform-Same second now (press buttons second) h g own a b s = press-Same second now buttons h g s
  perform-Same c now (bits fuel p r d i buttons) h g own a b s =
      rw own (bits-Same c now fuel p r i buttons h g s)
  perform-Same first now check h g own a b s = ground arith
  perform-Same second now check h g own a b s = ground arith
  perform-Same first now clear h g own a b s = absurd own
  perform-Same second now clear h g own a b s = absurd own
  perform-Same first now (swing gx gy) h g own a b s = absurd own
  perform-Same second now (swing gx gy) h g own a b s =
      let e = enabled_agree h g s in
      elim (Bool-cases (gesture_enabled h)) [
        | inl on ↦ rw (on, e ∙ on) (s, refl, refl)
        | inr off ↦ rw (off, e ∙ off) (s, refl, refl)
      ]
  perform-Same first now (judge t gx gy) h g own a b s = absurd own
  perform-Same second now (judge t gx gy) h g own a b s =
      (s, ap (λ n. press n second ∷ check ∷ []) (gestures_agree t gx gy h g s), refl)
  perform-Same first now (stamp t) h g own a b s = absurd own
  perform-Same second now (stamp t) h g own a b s = ground arith
  perform-Same first now (gyro gx gy) h g own a b s =
      (gyro_part now gx gy h g s, refl, moves_agree now gx gy h g s)
  perform-Same second now (gyro gx gy) h g own a b s = absurd own

  store-Leaves :
      (o : ControllerId) (buttons : ℕ) (h : Handler D) → Same o h (store buttons (opposite o) h).0.0
  store-Leaves first buttons h = ground arith
  store-Leaves second buttons h = ground arith

  bits-Leaves :
      (o : ControllerId) (now : Timespec) (fuel p r i buttons : ℕ) (h : Handler D)
      → Same o h (perform scale key_max now (bits fuel p r (opposite o) i buttons) h).0.0
  unfolding perform
  bits-Leaves o now zero p r i buttons h = store-Leaves o buttons h
  bits-Leaves o now (suc fuel) p r i buttons h = elim (Bool-cases (leb i btn_gesture_right)) [
    | inl on ↦ rw on (report_bit-Leaves key_max o p r i h)
    | inr off ↦ rw off (store-Leaves o buttons h)
  ]

  press-Leaves :
      (o c : ControllerId) (now : Timespec) (buttons : ℕ) (h : Handler D)
      → Same o h (perform scale key_max now (press buttons c) h).0.0
  unfolding perform
  press-Leaves o c now buttons h = elim (Bool-cases (at h.buttons c == buttons)) [
    | inl old ↦ rw old (Same-refl o h)
    | inr new ↦ rw new (Same-refl o h)
  ]

  -- An action of the other thread leaves the part as it is.
  pub perform-Leaves :
      (o : ControllerId) (now : Timespec) (t : Task) (h : Handler D)
      → IsOwn (opposite o) t
      → Same o h (perform scale key_max now t h).0.0
  unfolding perform on_gyroscope
  perform-Leaves o now (press buttons c) h own = press-Leaves o c now buttons h
  perform-Leaves o now (bits fuel p r d i buttons) h own =
      rw own (bits-Leaves o now fuel p r i buttons h)
  perform-Leaves o now check h own = Same-refl o h
  perform-Leaves first now clear h own = absurd own
  perform-Leaves second now clear h own = absurd own
  perform-Leaves o now (swing gx gy) h own = Same-refl o h
  perform-Leaves o now (judge t gx gy) h own = Same-refl o h
  perform-Leaves first now (stamp t) h own = ground arith
  perform-Leaves second now (stamp t) h own = absurd own
  perform-Leaves first now (gyro gx gy) h own = absurd own
  perform-Leaves second now (gyro gx gy) h own = ground arith

  -- The new tasks are the thread's own again.
  pub perform-IsOwn :
      (o : ControllerId) (now : Timespec) (t : Task) (h : Handler D)
      → IsOwn o t
      → h.release_gesture_keys ≡ false
      → All (IsOwn o) (perform scale key_max now t h).0.1
  unfolding perform
  perform-IsOwn o now (press buttons c) h own calm = elim (Bool-cases (at h.buttons c == buttons)) [
    | inl old ↦ rw old tt
    | inr new ↦ rw new (own, tt)
  ]
  perform-IsOwn o now (bits zero p r c i buttons) h own calm = tt
  perform-IsOwn o now (bits (suc fuel) p r c i buttons) h own calm =
      elim (Bool-cases (leb i btn_gesture_right)) [ inl on ↦ rw on (own, tt) | inr off ↦ rw off tt ]
  perform-IsOwn o now check h own calm = rw calm tt
  perform-IsOwn o now clear h own calm = tt
  perform-IsOwn first now (swing gx gy) h own calm = absurd own
  perform-IsOwn second now (swing gx gy) h own calm = ground arith
  perform-IsOwn first now (judge t gx gy) h own calm = absurd own
  perform-IsOwn second now (judge t gx gy) h own calm = (refl, (tt, tt))
  perform-IsOwn o now (stamp t) h own calm = tt
  perform-IsOwn o now (gyro gx gy) h own calm = tt
