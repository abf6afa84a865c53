-- ===== src/Handler/TriggerRuns.antt =====
-- psmove_handler.cpp: over any run of reports the move trigger is as its button.

use psmoveinput.Prelude.{
  List, none, some, ℤ, pos, All, sym, Bool-cases, inl, inr, ℕ, ◌^◌, ◌<◌, false, ◌≡◌, ◌∙◌, refl,
  arith, [], ◌∷◌,
}
use psmoveinput.Common.{
  PerController, MoveCoeffs, ControllerId, first, second, KeyMap, key_psmove_move_trigger,
}
use psmoveinput.Handler.State.{
  Handler, Signal, Timespec, Result, new, check_triggers, gesture_enabled,
}
use psmoveinput.Handler.Reports.{
  append_result, stamp_result, on_buttons_with, on_buttons_with_releases, on_buttons_with_ends,
  on_gesture, on_buttons, on_gyroscope, gestures_at,
}
use psmoveinput.Handler.Session.{Report, gyro, swing, press, IsInt32, handle, run, continue}
use psmoveinput.Handler.Valid.{gestures_at-lt}
use psmoveinput.Handler.Total.{on_gesture_disabled, on_gesture_enabled}
use psmoveinput.Handler.Runs.{AtRest}
use psmoveinput.Handler.Contract.{run_total, start_up, start-Ready}
use psmoveinput.Handler.Keys.{update_buttons}
use psmoveinput.Handler.Held.{Owns, update_buttons-Keeps}
use psmoveinput.Handler.Following.{down, Ready}
use psmoveinput.Handler.MoveTrigger.{move_trigger_follows}

start_released :
    {D : Type 0} (key_max : ℕ) (m m' : KeyMap) (coeffs : MoveCoeffs D) (t t' : ℤ)
    → (new key_max m m' coeffs t t').move_trigger ≡ false
unfolding new check_triggers
start_released key_max m m' coeffs t t' = refl

module _ {D : Type 0} (scale : ℤ → D → ℤ) (key_max j : ℕ) (km : PerController KeyMap)
    (below : j < 28) (owns : Owns km.fst (key_psmove_move_trigger key_max) j) where
  -- The handler is ready for calls, and the trigger as its button.
  abbrev InStep : Handler D → Type 0
  InStep h = Ready km h × (h.move_trigger ≡ down first j h)

  abbrev LeavesInStep : Result D → Type 0
  LeavesInStep none = Unit {0}
  LeavesInStep (some (h, xs)) = InStep h

  updated :
      (new : ℕ) (c : ControllerId) (h : Handler D)
      → InStep h
      → new < 2 ^ 32
      → InStep (update_buttons key_max new c h).0
  updated new first h (ready, same) r = (
    ground (arith, update_buttons-Keeps key_max new first h),
    move_trigger_follows key_max new j first h below (rw ready.maps owns) ready.fst_range r same,
  )
  updated new second h (ready, same) r = (
    ground (arith, update_buttons-Keeps key_max new second h),
    move_trigger_follows key_max new j second h below (rw ready.maps owns) ready.snd_range r same,
  )

  appended : (xs : List Signal) (r : Result D) → LeavesInStep r → LeavesInStep (append_result xs r)
  appended xs none k = tt
  appended xs (some r) k = k

  stamped : (now : Timespec) (r : Result D) → LeavesInStep r → LeavesInStep (stamp_result now r)
  stamped now none k = tt
  stamped now (some (h, xs)) (ready, same) = (ground arith, same)

  buttons_in_step :
      (release : Handler D → Result D) (new : ℕ) (c : ControllerId) (h : Handler D)
      → ((g : Handler D) → InStep g → LeavesInStep (release g))
      → InStep h
      → new < 2 ^ 32
      → LeavesInStep (on_buttons_with key_max release new c h)
  buttons_in_step release new c h nested k r =
      let (h', xs) = update_buttons key_max new c h in
      let (ready, same) = updated new c h k r in
      elim (Bool-cases h'.release_gesture_keys) [
        | inl e ↦ rw (on_buttons_with_releases key_max release new c h e) (
            appended xs _
              (nested (record h' { release_gesture_keys = false }) (ground (arith, ready), same)))
        | inr e ↦ rw (on_buttons_with_ends key_max release new c h e) (ready, same)
      ]

  gesture_in_step :
      (clock : List Timespec) (gx gy : ℤ) (h : Handler D)
      → InStep h
      → LeavesInStep (on_gesture scale key_max clock gx gy h)
  gesture_in_step [] gx gy h k = unfold on_gesture in tt
  gesture_in_step (now ∷ clock) gx gy h k =
      let nested = gesture_in_step clock (pos 0) (pos 0) in
      let r = gestures_at-lt scale now gx gy h k.0.snd_range in
      let whole =
        buttons_in_step (on_gesture scale key_max clock (pos 0) (pos 0))
          (gestures_at scale now gx gy h) second h nested k r in
      elim (Bool-cases (gesture_enabled h)) [
        | inr off ↦
            rw (on_gesture_disabled scale key_max now clock gx gy h off) (ground (arith, k.0), k.1)
        | inl on ↦ rw (on_gesture_enabled scale key_max now clock gx gy h on) (stamped now _ whole)
      ]

  handle_in_step :
      (r : Report) (h : Handler D) → IsInt32 r → InStep h → LeavesInStep (handle scale key_max r h)
  unfolding handle on_buttons on_gyroscope
  handle_in_step (gyro now gx gy) h i k = (ground (arith, k.0), k.1)
  handle_in_step (swing s t u gx gy) h i k = gesture_in_step (s ∷ t ∷ u ∷ []) gx gy h k
  handle_in_step (press t u b c) h i k =
      buttons_in_step _ b c h (gesture_in_step (t ∷ u ∷ []) (pos 0) (pos 0)) k i

  continued :
      (r : Result D) (f : Handler D → Result D)
      → LeavesInStep r
      → ((g : Handler D) → InStep g → LeavesInStep (f g))
      → LeavesInStep (continue r f)
  continued none f k rest = tt
  continued (some (g, xs)) f k rest = appended xs (f g) (rest g k)

  run_in_step :
      (rs : List Report) (h : Handler D)
      → All IsInt32 rs
      → InStep h
      → LeavesInStep (run scale key_max rs h)
  unfolding run
  run_in_step [] h i k = k
  run_in_step (r ∷ rs) h i k =
      continued _ (run scale key_max rs) (handle_in_step r h i.0 k) (λ g. run_in_step rs g i.1)

-- Let a motionless reading convert to 0, and take a button below 28 that is the only one of the first
-- controller mapped to the move trigger. From a new handler, every sequence of reports whose button
-- states are 32-bit patterns is handled to its end, and afterwards the move trigger is pressed exactly
-- if that button is down.
pub trigger_follows_button :
    {D : Type 0} (scale : ℤ → D → ℤ) (key_max : ℕ) (m m' : KeyMap) (coeffs : MoveCoeffs D)
    (t t' : ℤ) (rs : List Report) (j : ℕ)
    → AtRest scale
    → j < 28
    → Owns m (key_psmove_move_trigger key_max) j
    → All IsInt32 rs
    → (h : Handler D) × (xs : List Signal) × (run scale key_max rs (new key_max m m' coeffs t t')
        ≡ some (h, xs))
      × (h.move_trigger ≡ down first j h)
trigger_follows_button scale key_max m m' coeffs t t' rs j at_rest below owns i =
    let ((h, xs), e, v) = run_total scale key_max at_rest m m' coeffs t t' rs i in
    let up = start_up key_max m m' coeffs t t' first j in
    let k =
      run_in_step scale key_max j (record { fst = m; snd = m' }) below owns rs
        (new key_max m m' coeffs t t') i
        (start-Ready key_max m m' coeffs t t', start_released key_max m m' coeffs t t' ∙ sym up) in
    (h, xs, e, (rw e at k).1)
