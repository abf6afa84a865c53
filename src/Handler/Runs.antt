-- ===== src/Handler/Runs.antt =====
-- psmove_handler.cpp: over any run of reports a key is down exactly while its button is.
use psmoveinput.Prelude.{
  ℕ, ◌≤◌, Bool, ◌≡◌, inl, inr, refl, arith, Bool-cases, List, [], ◌∷◌, ◌++◌, none, some, ℤ, pos,
  All,
}
use psmoveinput.Common.{ControllerId, second, KeyMap, PerController}
use psmoveinput.Handler.State.{Handler, Timespec, Result, gesture_enabled}
use psmoveinput.Handler.Reports.{on_gyroscope, move_signals, gestures_at, on_gesture, on_buttons}
use psmoveinput.Handler.Changes.{held}
use psmoveinput.Handler.Following.{
  IsOwner, down, Ready, Follows, Follows-append, stamped-Follows, on_buttons_with-Follows,
}
use psmoveinput.Handler.Valid.{IsValid, gestures_at-lt}
use psmoveinput.Handler.Total.{
  Succeeds, on_buttons-Succeeds, on_gesture-Succeeds, on_gesture_disabled, on_gesture_enabled,
}
use psmoveinput.Handler.Session.{Report, gyro, swing, press, IsInt32, handle, run, continue}

module _ {D : Type 0} (key_max code j : ℕ) (plain : code ≤ key_max) (km : PerController KeyMap)
    (o : ControllerId) (owner : IsOwner km o code j) where
  on_gesture-Follows :
      (scale : ℤ → D → ℤ) (clock : List Timespec) (gx gy : ℤ) (h : Handler D)
      → Ready km h
      → Follows km o code j h (on_gesture scale key_max clock gx gy h)
  unfolding held
  on_gesture-Follows scale [] gx gy h ready = unfold on_gesture in tt
  on_gesture-Follows scale (now ∷ clock) gx gy h ready =
      let nested = on_gesture-Follows scale clock (pos 0) (pos 0) in
      let r = gestures_at-lt scale now gx gy h ready.snd_range in
      let whole =
        on_buttons_with-Follows key_max code j plain km o owner
          (on_gesture scale key_max clock (pos 0) (pos 0)) (gestures_at scale now gx gy h) second h
          nested ready r in
      elim (Bool-cases (gesture_enabled h)) [
        | inr off ↦ rw (on_gesture_disabled scale key_max now clock gx gy h off) (ground arith)
        | inl on ↦
            rw (on_gesture_enabled scale key_max now clock gx gy h on)
              (stamped-Follows key_max code j plain km o owner now h _ whole)
      ]

  -- The pointer's signals are no keys.
  gyroscope-held :
      (scale : ℤ → D → ℤ) (now : Timespec) (gx gy : ℤ) (h : Handler D) (b : Bool)
      → held code (on_gyroscope scale now gx gy h).1 b ≡ b
  unfolding held on_gyroscope move_signals
  gyroscope-held scale now gx gy h b = ground arith

  -- Any report keeps the key in step with its button.
  pub handle-Follows :
      (scale : ℤ → D → ℤ) (r : Report) (h : Handler D)
      → IsInt32 r
      → Ready km h
      → Follows km o code j h (handle scale key_max r h)
  unfolding handle on_buttons on_gyroscope
  handle-Follows scale (gyro now gx gy) h i ready = (
    record { maps = ready.maps; fst_range = ready.fst_range; snd_range = ready.snd_range },
    gyroscope-held scale now gx gy h (down o j h),
  )
  handle-Follows scale (swing s t u gx gy) h i ready =
      on_gesture-Follows scale (s ∷ t ∷ u ∷ []) gx gy h ready
  handle-Follows scale (press t u b c) h i ready =
      on_buttons_with-Follows key_max code j plain km o owner _ b c h
        (on_gesture-Follows scale (t ∷ u ∷ []) (pos 0) (pos 0)) ready i

  continue-Follows :
      (r : Result D) (f : Handler D → Result D) (h : Handler D)
      → Follows km o code j h r
      → ((g : Handler D) → Ready km g → Follows km o code j g (f g))
      → Follows km o code j h (continue r f)
  continue-Follows none f h first_part rest = tt
  continue-Follows (some (g, xs)) f h (ready, e) rest =
      Follows-append key_max code j plain km o owner h g xs (f g) e (rest g ready)

  pub run-Follows :
      (scale : ℤ → D → ℤ) (rs : List Report) (h : Handler D)
      → All IsInt32 rs
      → Ready km h
      → Follows km o code j h (run scale key_max rs h)
  unfolding held run
  run-Follows scale [] h i ready = (ready, refl)
  run-Follows scale (r ∷ rs) h i ready =
      continue-Follows _ (run scale key_max rs) h (handle-Follows scale r h i.0 ready)
        (λ g. run-Follows scale rs g i.1)

-- The conversion of a motionless reading is 0, as it is for every finite coefficient.
abbrev pub AtRest : {D : Type 0} → (ℤ → D → ℤ) → Type 0
AtRest {D} scale = (c : D) → scale (pos 0) c ≡ pos 0

module _ {D : Type 0} (scale : ℤ → D → ℤ) (key_max : ℕ) (at_rest : AtRest scale) where
  gyroscope-IsValid :
      (now : Timespec) (gx gy : ℤ) (h : Handler D)
      → IsValid key_max h
      → IsValid key_max (on_gyroscope scale now gx gy h).0
  unfolding on_gyroscope
  gyroscope-IsValid now gx gy h v = ground arith

  pub handle-Succeeds :
      (r : Report) (h : Handler D)
      → IsInt32 r
      → IsValid key_max h
      → Succeeds key_max (handle scale key_max r h)
  unfolding handle
  handle-Succeeds (gyro now gx gy) h i v = (_, refl, gyroscope-IsValid now gx gy h v)
  handle-Succeeds (swing s t u gx gy) h i v =
      on_gesture-Succeeds scale key_max at_rest s t u [] gx gy h v
  handle-Succeeds (press t u b c) h i v = on_buttons-Succeeds scale key_max at_rest t u [] b c h v i

  continue-Succeeds :
      (r : Result D) (f : Handler D → Result D)
      → Succeeds key_max r
      → ((g : Handler D) → IsValid key_max g → Succeeds key_max (f g))
      → Succeeds key_max (continue r f)
  continue-Succeeds r f ((g, xs), e, v) rest =
      let ((g', ys), e', v') = rest g v in ((g', xs ++ ys), rw (e, e') refl, v')

  -- Every sequence of reports is handled to its end, and leaves the handler valid.
  pub run-Succeeds :
      (rs : List Report) (h : Handler D)
      → All IsInt32 rs
      → IsValid key_max h
      → Succeeds key_max (run scale key_max rs h)
  unfolding run
  run-Succeeds [] h i v = (_, refl, v)
  run-Succeeds (r ∷ rs) h i v =
      continue-Succeeds (handle scale key_max r h) (run scale key_max rs)
        (handle-Succeeds r h i.0 v) (λ g. run-Succeeds rs g i.1)
