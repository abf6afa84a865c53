-- ===== src/Handler/Contract.antt =====
-- psmove_handler.cpp: what the handler promises over a whole run of reports.
use psmoveinput.Prelude.{
  ℕ, ◌^◌, ◌<◌, ◌≤◌, bit-zero, true, false, ◌≡◌, refl, sym, ◌∙◌, arith, List, [], ◌∷◌, ◌++◌, some, ℤ,
  pos, All,
}
use mathlib.Core.List.{append-nil}
use mathlib.Core.Path.{subst}
use mathlib.Core.Option.{some-injective}
use psmoveinput.Common.{ControllerId, first, second, KeyMap, MoveCoeffs, PerController}
use psmoveinput.Handler.State.{Handler, Timespec, Signal, Out, new, reset, check_triggers}
use psmoveinput.Handler.Keys.{update_buttons}
use psmoveinput.Handler.Reports.{on_gesture, on_buttons, on_buttons_with, on_buttons_with_releases}
use psmoveinput.Handler.Changes.{held}
use psmoveinput.Handler.Valid.{IsValid, new-IsValid, release_uses_trigger}
use psmoveinput.Handler.Total.{Succeeds, on_gesture_disabled, quiet_disabled}
use psmoveinput.Handler.Session.{Report, press, IsInt32, handle, run}
use psmoveinput.Handler.Following.{IsOwner, down, Ready}
use psmoveinput.Handler.Runs.{AtRest, run-Succeeds, run-Follows}

pub reset_up : {D : Type 0} (h : Handler D) (o : ControllerId) (j : ℕ) → down o j (reset h) ≡ false
unfolding reset
reset_up h first j = rw (bit-zero j) refl
reset_up h second j = rw (bit-zero j) refl

module _ {D : Type 0} (key_max : ℕ) (m m' : KeyMap) (coeffs : MoveCoeffs D) (t t' : ℤ) where
  -- In a new handler no button is down.
  pub start_up : (o : ControllerId) (j : ℕ) → down o j (new key_max m m' coeffs t t') ≡ false
  unfolding new check_triggers
  start_up first j = rw (bit-zero j) refl
  start_up second j = rw (bit-zero j) refl

  pub start-Ready : Ready (record { fst = m; snd = m' }) (new key_max m m' coeffs t t')
  unfolding new check_triggers
  start-Ready = ground arith

module _ {D : Type 0} (scale : ℤ → D → ℤ) (key_max : ℕ) (at_rest : AtRest scale) where
  -- Let a motionless reading convert to 0. From a new handler, every sequence of reports whose
  -- button states are 32-bit patterns is handled to its end with the clock readings that the calls
  -- have at hand, and afterwards the trigger flags agree with the key maps, no release is pending
  -- and both button states are 32-bit patterns.
  pub run_total :
      (m m' : KeyMap) (coeffs : MoveCoeffs D) (t t' : ℤ) (rs : List Report)
      → All IsInt32 rs
      → Succeeds key_max (run scale key_max rs (new key_max m m' coeffs t t'))
  run_total m m' coeffs t t' rs i =
      run-Succeeds scale key_max at_rest rs (new key_max m m' coeffs t t') i
        (new-IsValid key_max m m' coeffs t t')

  -- After a reset, a report without buttons changes nothing.
  idle_after_reset :
      (h : Handler D) (o : ControllerId) (s u : Timespec)
      → h.release_gesture_keys ≡ false
      → run scale key_max (press s u 0 o ∷ []) (reset h) ≡ some (reset h, [])
  unfolding run handle on_buttons on_buttons_with update_buttons reset
  idle_after_reset h first s u e = rw e refl
  idle_after_reset h second s u e = rw e refl

  module _ (m m' : KeyMap) (coeffs : MoveCoeffs D) (t t' : ℤ) where
    -- Let a motionless reading convert to 0. Take a key code at most KEY_MAX that one button alone,
    -- on one controller, is mapped to. After any sequence of reports whose button states are 32-bit
    -- patterns, the last report of that key was a press if its button is down, and otherwise it was
    -- a release or there was none.
    pub key_follows_button :
        (rs : List Report) (code j : ℕ) (o : ControllerId)
        → code ≤ key_max
        → IsOwner (record { fst = m; snd = m' }) o code j
        → All IsInt32 rs
        → (h : Handler D) × (xs : List Signal) × (run scale key_max rs
              (new key_max m m' coeffs t t')
            ≡ some (h, xs))
          × (held code xs false ≡ down o j h)
    key_follows_button rs code j o plain owner i =
        let km : PerController KeyMap = record { fst = m; snd = m' } in
        let ((h, xs), e, v) = run_total m m' coeffs t t' rs i in
        let follows =
          run-Follows key_max code j plain km o owner scale rs _ i
            (start-Ready key_max m m' coeffs t t') in
        (h, xs, e, rw (sym (start_up key_max m m' coeffs t t' o j)) ((rw e at follows).1))

    run-IsValid :
        (rs : List Report) (h : Handler D) (xs : List Signal)
        → All IsInt32 rs
        → run scale key_max rs (new key_max m m' coeffs t t') ≡ some (h, xs)
        → IsValid key_max h
    run-IsValid rs h xs i e =
        let (o, e', v) = run_total m m' coeffs t t' rs i in
        subst (λ (o : Out (Handler D)). IsValid key_max o.0) (some-injective _ _ (sym e' ∙ e)) v

    -- Let a motionless reading convert to 0. Take such a key after any run of such reports whose
    -- button is down when all controllers disconnect. `reset` clears the buttons, and a next report
    -- that no button of that controller is pressed releases nothing: the button is up, and the last
    -- report of the key is still a press.
    pub reset_keeps_key_down :
        (rs : List Report) (code j : ℕ) (o : ControllerId) (h : Handler D) (xs : List Signal)
        → code ≤ key_max
        → IsOwner (record { fst = m; snd = m' }) o code j
        → All IsInt32 rs
        → run scale key_max rs (new key_max m m' coeffs t t') ≡ some (h, xs)
        → down o j h ≡ true
        → (s u : Timespec)
        → (h' : Handler D) × (ys : List Signal) × (run scale key_max (press s u 0 o ∷ []) (reset h)
            ≡ some (h', ys))
          × (down o j h' ≡ false)
          × (held code (xs ++ ys) false ≡ true)
    reset_keeps_key_down rs code j o h xs plain owner i e d s u =
        let v = run-IsValid rs h xs i e in
        let km : PerController KeyMap = record { fst = m; snd = m' } in
        let follows =
          run-Follows key_max code j plain km o owner scale rs _ i
            (start-Ready key_max m m' coeffs t t') in
        (
          reset h,
          [],
          idle_after_reset h o s u v.idle,
          reset_up h o j,
          rw append-nil
              (rw (sym (start_up key_max m m' coeffs t t' o j)) ((rw e at follows).1 ∙ d)),
        )

  -- Let a motionless reading convert to 0. In a valid handler, for a report of a 32-bit pattern of
  -- buttons with which the gesture trigger is let go: the call `onGesture(0, 0)` that is to release
  -- the gesture keys emits no signal; it only stores its reading of the clock.
  pub release_reports_nothing :
      (t : Timespec) (clock : List Timespec) (buttons : ℕ) (c : ControllerId) (h : Handler D)
      → IsValid key_max h
      → buttons < 2 ^ 32
      → (update_buttons key_max buttons c h).0.release_gesture_keys ≡ true
      → (update_buttons key_max buttons c h).0.gesture_trigger ≡ false
      → on_buttons scale key_max (t ∷ clock) buttons c h
        ≡ some (
          record (update_buttons key_max buttons c h).0 {
            release_gesture_keys = false;
            last_gesture_tp = t;
          },
          (update_buttons key_max buttons c h).1,
        )
  unfolding on_buttons
  release_reports_nothing t clock buttons c h v r released up =
      let g : Handler D = record (update_buttons key_max buttons c h).0 {
        release_gesture_keys = false;
      } in
      let kept_out =
        quiet_disabled scale key_max g (release_uses_trigger key_max buttons c h v r released) up in
      rw
        (
          on_buttons_with_releases key_max (on_gesture scale key_max (t ∷ clock) (pos 0) (pos 0))
              buttons c h released,
          on_gesture_disabled scale key_max t clock (pos 0) (pos 0) g kept_out,
          append-nil,
        )
        refl
