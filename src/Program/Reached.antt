-- ===== src/Program/Reached.antt =====
-- psmoveinput.cpp and psmove_listener.cpp: what holds in every state that the program reaches from its
-- start, in whatever order the main loop and the controller threads make their steps.
use mathlib.Core.Path.{subst}
use psmoveinput.Prelude.{ℕ, true, List, ◌≡◌, ◌≢◌, arith, ℤ, All}
use psmoveinput.Common.{ControllerId, first, second, at}
use psmoveinput.Handler.Runs.{AtRest}
use psmoveinput.Handler.Valid.{IsValid, new-IsValid}
use psmoveinput.Listener.{CanDivide, new_listener, new_slot}
use psmoveinput.Config.{Config, get_key_map}
use psmoveinput.App.{init_handler, device_keys}
use psmoveinput.App.Registered.{IsKeyOf, keymaps-MapIn, init_handler_keymaps}
use psmoveinput.Program.State.{Program, Output, Answers, Move, crashed, worker}
use psmoveinput.Program.Step.{initial, went, step}
use psmoveinput.Program.Reach.{Reach, Reach-All, Leads, Leads-both, Fits}
use psmoveinput.Program.Launch.{launch}
use psmoveinput.Program.Sound.{IsSound, is_live}
use psmoveinput.Program.Workers.{step-IsSound, Reach-IsSound}
use psmoveinput.Program.Well.{IsWell, OutputIn}
use psmoveinput.Program.Rounds.{step-Serves, thread_goes}
use psmoveinput.Program.Outputs.{has_reset}
use psmoveinput.Program.Reset.{IsAlone, AloneAtReset, step-Alone}

module _ {D : Type 0} (scale : ℤ → D → ℤ) (key_max : ℕ) (memory : ℤ) (c : Config D) where
  -- The states that the program reaches from its start, and its outputs on the way.
  abbrev pub Reached : Program D → List Output → Type 0
  Reached q xs = Reach scale key_max (launch key_max memory c).0 q xs

  pub launch-IsSound : IsSound (launch key_max memory c).0
  unfolding launch initial new_listener new_slot
  launch-IsSound = ground arith

  -- In every state that the program reaches, the threads that are there have ids below the maximum
  -- that differ, the controllers of their slots and the listener's poll timeout. The main loop joins
  -- threads only with a request to stop them or the listener, and past the join of a thread it is
  -- neither in its loop nor before it; an id with which a device is to be started is free; and when
  -- the main loop has returned, the listener was asked to stop and no thread is in its loop or before
  -- it.
  pub Reached-IsSound : {q : Program D} {xs : List Output} → Reached q xs → IsSound q
  Reached-IsSound r = Reach-IsSound scale key_max launch-IsSound r

  -- A reached state in which the main loop raises the disconnect-complete signal has no thread in its
  -- loop or before it, and no request to stop the listener; the step resets the handler and withdraws
  -- the request to stop the threads, and changes nothing else of the listener.
  pub reset-IsAlone :
      {q q' : Program D} {xs ys : List Output} (m : Move)
      → Reached q xs
      → step scale key_max m q ≡ went q' ys
      → has_reset ys ≡ true
      → IsAlone q q'
  reset-IsAlone {q = q} m r e raised =
      subst (Leads (AloneAtReset q)) e (step-Alone scale key_max m q (Reached-IsSound r)) raised

  module _ (at_rest : AtRest scale)
      (needed : CanDivide c.poll_timeout c.led_timeout c.gesture_timeout) where
    -- What holds in every state.
    abbrev pub Fine : Program D → Type 0
    Fine p = IsSound p × IsWell (IsKeyOf (device_keys c)) key_max c.keymaps p

    launch-IsWell : IsWell (IsKeyOf (device_keys c)) key_max c.keymaps (launch key_max memory c).0
    unfolding launch initial new_listener init_handler
    launch-IsWell = record {
      alive = λ e. absurd (ground arith);
      needed = needed;
      valid =
          new-IsValid key_max (get_key_map first c) (get_key_map second c) c.coeffs c.move_threshold
            c.gesture_threshold;
      maps = init_handler_keymaps scale key_max at_rest c;
    }

    pub step-Fine :
        (m : Move) (p : Program D)
        → Fits m
        → Fine p
        → Leads
            (λ q ys. Fine q × All (OutputIn (IsKeyOf (device_keys c))) ys)
            (step scale key_max m p)
    step-Fine m p fits (s, w) =
        Leads-both (λ q ys. IsSound q)
          (λ q ys.
            IsWell (IsKeyOf (device_keys c)) key_max c.keymaps q
            × All (OutputIn (IsKeyOf (device_keys c))) ys)
          _ _ (λ q ys v (k, l). ((v, k), l)) (step-IsSound scale key_max m p fits s)
          (step-Serves (IsKeyOf (device_keys c)) key_max c.keymaps scale at_rest
            (keymaps-MapIn scale key_max at_rest c) m p fits s w)

    -- In such a state a thread before its loop or in it makes its next step.
    pub live_goes :
        {q : Program D} (o : ControllerId) (a : Answers)
        → Fine q
        → is_live ((at q.listener.slots o).worker) ≡ true
        → (q' : Program D) × (ys : List Output) × (step scale key_max (worker o a) q ≡ went q' ys)
    live_goes {q = q} o a (s, w) live =
        thread_goes (IsKeyOf (device_keys c)) key_max c.keymaps scale at_rest
          (keymaps-MapIn scale key_max at_rest c) o a q live s w

    pub Reached-Fine :
        {q : Program D} {xs : List Output}
        → Reached q xs
        → Fine q × All (OutputIn (IsKeyOf (device_keys c))) xs
    Reached-Fine r =
        Reach-All scale key_max Fine (OutputIn (IsKeyOf (device_keys c))) step-Fine
          (launch-IsSound, launch-IsWell) r

    -- Let a motionless reading convert to 0, and the configured poll timeout be other than 0 and,
    -- if it is - 1, those of the LEDs and of the gestures other than the least `int`. In every
    -- state that the program reaches, no thread has failed in a division, the handler is valid,
    -- and each key that has been reported is one that the device was set up for.
    pub only_registered_keys :
        {q : Program D} {xs : List Output}
        → Reached q xs
        → (q.main ≢ crashed)
          × IsValid key_max q.handler
          × All (OutputIn (IsKeyOf (device_keys c))) xs
    only_registered_keys r =
        let ((s, w), registered) = Reached-Fine r in (w.alive, w.valid, registered)

    -- Let a motionless reading convert to 0, and the configured poll timeout be other than 0 and,
    -- if it is - 1, those of the LEDs and of the gestures other than the least `int`. In every
    -- state that the program reaches, a thread before its loop or in it can make its next step,
    -- whatever the device and the clock answer: no division of a poll fails, and no call of the
    -- handler fails.
    pub live_thread_goes :
        {q : Program D} {xs : List Output} (o : ControllerId) (a : Answers)
        → Reached q xs
        → is_live ((at q.listener.slots o).worker) ≡ true
        → (q' : Program D) × (ys : List Output) × (step scale key_max (worker o a) q ≡ went q' ys)
    live_thread_goes o a r live = live_goes o a (Reached-Fine r).0 live
