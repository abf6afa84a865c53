-- ===== src/Handler/Total.antt =====
-- psmove_handler.cpp: `onButtons` and `onGesture` call each other, and always come back.
use psmoveinput.Prelude.{
  sym, ◌∙◌, ℕ, ◌^◌, ◌<◌, true, false, ◌≡◌, inl, inr, refl, arith, Bool-cases, List, [], ◌∷◌, ◌++◌,
  some, ℤ, pos,
}
use mathlib.Core.Bool.{false≢true}
use psmoveinput.Common.{ControllerId, second}
use psmoveinput.Handler.State.{Handler, Timespec, Out, Result, has_reading, gesture_enabled}
use psmoveinput.Handler.Keys.{update_buttons}
use psmoveinput.Handler.Reports.{gestures_at, on_buttons_with, stamp_result, on_gesture, on_buttons}
use psmoveinput.Handler.Triggers.{update_buttons-IsQuiet}
use psmoveinput.Handler.Valid.{
  IsValid, gestures_at-lt, gestures_at_rest, update_buttons-IsValid, release_uses_trigger,
}

module _ {D : Type 0} (key_max : ℕ) where
  -- The call returns, in a valid state.
  abbrev pub Succeeds : Result D → Type 0
  Succeeds r = (o : Out (Handler D)) × (r ≡ some o) × IsValid key_max o.0

  on_buttons_with-Succeeds :
      (release : Handler D → Result D) (buttons : ℕ) (c : ControllerId) (h : Handler D)
      → IsValid key_max h
      → buttons < 2 ^ 32
      → let h' = (update_buttons key_max buttons c h).0 in
        (h'.release_gesture_keys ≡ true
          → Succeeds (release (record h' { release_gesture_keys = false })))
        → Succeeds (on_buttons_with key_max release buttons c h)
  unfolding on_buttons_with
  on_buttons_with-Succeeds release buttons c h v r nested =
      let (h', xs) = update_buttons key_max buttons c h in
      let valid = update_buttons-IsValid key_max buttons c h v r in
      elim (Bool-cases h'.release_gesture_keys) [
        | inl e ↦ let ((h'', ys), p, w) = nested e in ((h'', xs ++ ys), rw (e, p) refl, w)
        | inr e ↦ (
          (h', xs),
          rw e refl,
          record {
            move_flag = valid.move_flag;
            gesture_flag = valid.gesture_flag;
            idle = e;
            fst_range = valid.fst_range;
            snd_range = valid.snd_range;
          },
        )
      ]

module _ {D : Type 0} (scale : ℤ → D → ℤ) (key_max : ℕ) where
  -- A gesture report that its guard keeps out only stamps the time.
  pub on_gesture_disabled :
      (now : Timespec) (clock : List Timespec) (gx gy : ℤ) (h : Handler D)
      → gesture_enabled h ≡ false
      → on_gesture scale key_max (now ∷ clock) gx gy h
        ≡ some (record h { last_gesture_tp = now }, [])
  unfolding on_gesture
  on_gesture_disabled now clock gx gy h e = rw e refl

  pub on_gesture_enabled :
      (now : Timespec) (clock : List Timespec) (gx gy : ℤ) (h : Handler D)
      → gesture_enabled h ≡ true
      → on_gesture scale key_max (now ∷ clock) gx gy h
        ≡ stamp_result now (
            on_buttons_with key_max
              (on_gesture scale key_max clock (pos 0) (pos 0))
              (gestures_at scale now gx gy h)
              second
              h)
  unfolding on_gesture
  on_gesture_enabled now clock gx gy h e = rw e refl

  disabled-Succeeds :
      (now : Timespec) (clock : List Timespec) (gx gy : ℤ) (h : Handler D)
      → IsValid key_max h
      → gesture_enabled h ≡ false
      → Succeeds key_max (on_gesture scale key_max (now ∷ clock) gx gy h)
  disabled-Succeeds now clock gx gy h v e = (
    (record h { last_gesture_tp = now }, []),
    on_gesture_disabled now clock gx gy h e,
    ground arith,
  )

  stamped-Succeeds :
      (now : Timespec) (r : Result D) → Succeeds key_max r → Succeeds key_max (stamp_result now r)
  stamped-Succeeds now r ((h, xs), e, v) =
      ((record h { last_gesture_tp = now }, xs), rw e refl, ground arith)

  -- The trigger is up and one is in use, so that gestures are kept out.
  pub quiet_disabled :
      (h : Handler D)
      → h.use_gesture_trigger ≡ true
      → h.gesture_trigger ≡ false
      → gesture_enabled h ≡ false
  unfolding gesture_enabled has_reading
  quiet_disabled h u t = ground arith

  module _ (at_rest : (c : D) → scale (pos 0) c ≡ pos 0) where
    -- The second nested call finds the trigger up.
    release-Succeeds :
        (t u : Timespec) (clock : List Timespec) (h : Handler D)
        → IsValid key_max h
        → Succeeds key_max (on_gesture scale key_max (t ∷ u ∷ clock) (pos 0) (pos 0) h)
    release-Succeeds t u clock h v = elim (Bool-cases (gesture_enabled h)) [
      | inr off ↦ disabled-Succeeds t (u ∷ clock) (pos 0) (pos 0) h v off
      | inl on ↦
          let buttons = gestures_at scale t (pos 0) (pos 0) h in
          let r = gestures_at-lt scale t (pos 0) (pos 0) h v.snd_range in
          rw (on_gesture_enabled t (u ∷ clock) (pos 0) (pos 0) h on) (
            stamped-Succeeds t _ (
              on_buttons_with-Succeeds key_max _ buttons second h v r λ e.
                disabled-Succeeds u clock (pos 0) (pos 0) _
                  (update_buttons-IsValid key_max buttons second h v r)
                  (quiet_disabled _ (release_uses_trigger key_max buttons second h v r e) (
                    update_buttons-IsQuiet key_max buttons second h v.snd_range r
                      (gestures_at_rest scale t h at_rest)
                      (λ p. absurd (false≢true (sym v.idle ∙ p))) e))))
    ]

    -- Whatever the first call reports, two more readings of the clock end the chain of calls.
    pub on_buttons-Succeeds :
        (t u : Timespec) (clock : List Timespec) (buttons : ℕ) (c : ControllerId) (h : Handler D)
        → IsValid key_max h
        → buttons < 2 ^ 32
        → Succeeds key_max (on_buttons scale key_max (t ∷ u ∷ clock) buttons c h)
    unfolding on_buttons
    on_buttons-Succeeds t u clock buttons c h v r =
        on_buttons_with-Succeeds key_max _ buttons c h v r
          λ e. release-Succeeds t u clock _ (update_buttons-IsValid key_max buttons c h v r)

    pub on_gesture-Succeeds :
        (s t u : Timespec) (clock : List Timespec) (gx gy : ℤ) (h : Handler D)
        → IsValid key_max h
        → Succeeds key_max (on_gesture scale key_max (s ∷ t ∷ u ∷ clock) gx gy h)
    on_gesture-Succeeds s t u clock gx gy h v = elim (Bool-cases (gesture_enabled h)) [
      | inr off ↦ disabled-Succeeds s (t ∷ u ∷ clock) gx gy h v off
      | inl on ↦
          let r = gestures_at-lt scale s gx gy h v.snd_range in
          rw (on_gesture_enabled s (t ∷ u ∷ clock) gx gy h on) (
            stamped-Succeeds s _ (
              on_buttons_with-Succeeds key_max _ (gestures_at scale s gx gy h) second h v r λ e.
                release-Succeeds t u clock _
                  (update_buttons-IsValid key_max (gestures_at scale s gx gy h) second h v r)))
    ]
