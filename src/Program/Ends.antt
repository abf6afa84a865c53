-- ===== src/Program/Ends.antt =====
-- psmoveinput.cpp and psmove_listener.cpp: the program is never stuck, and `stop` brings it to its end.
use mathlib.Core.Path.{subst}
use psmoveinput.Prelude.{
  ℕ, ◌<◌, ◌≤◌, zero, suc, true, List, ◌++◌, ◌≡◌, ◌≢◌, ◌⊎◌, refl, arith, ℤ, All, inl, inr, ◌∙◌, [],
}
use psmoveinput.Handler.Runs.{AtRest}
use psmoveinput.Listener.{CanDivide, Sample, needs_to_stop}
use psmoveinput.Program.Shutdown.{stop_bounds_steps}
use psmoveinput.Program.Outputs.{has_reset, has_reset_append}
use psmoveinput.Program.Cooling.{step-Cools}
use psmoveinput.Program.Rank.{rank, Cools}
use psmoveinput.Program.Reach.{here, Reach, later, Leads, IsPattern}
use psmoveinput.Config.{Config}
use psmoveinput.Program.State.{
  Program, Output, Answers, MainLoop, top, joining, waiting, connecting, starting, finished,
  crashed,
}
use psmoveinput.Program.Step.{went, step}
use psmoveinput.Program.Progress.{next, next-Goes, next-IsOwn, next-Fits}
use psmoveinput.Program.Reached.{Reached, Fine, live_goes, step-Fine, Reached-Fine}
use psmoveinput.App.{device_keys}
use psmoveinput.App.Registered.{IsKeyOf}
use psmoveinput.Program.Well.{OutputIn}

finished_or : (m : MainLoop) → (m ≡ finished) ⊎ (m ≢ finished)
finished_or finished = inl refl
finished_or top = inr (λ e. absurd (ground arith))
finished_or (joining c) = inr (λ e. absurd (ground arith))
finished_or (waiting c late) = inr (λ e. absurd (ground arith))
finished_or connecting = inr (λ e. absurd (ground arith))
finished_or (starting i device) = inr (λ e. absurd (ground arith))
finished_or crashed = inr (λ e. absurd (ground arith))

module _ {D : Type 0} (scale : ℤ → D → ℤ) (key_max : ℕ) (a : Answers)
    (fits : All (λ (s : Sample). IsPattern s.buttons) a.samples) where
  cooled :
      (q t : Program D) (ys : List Output)
      → Cools q t ys
      → q.main ≢ crashed
      → (has_reset ys ≡ true) ⊎ ((needs_to_stop t.listener ≡ true) × (rank t < rank q))
  cooled q t ys cools alive = ground arith

  module _ (memory : ℤ) (c : Config D) (at_rest : AtRest scale)
      (needed : CanDivide c.poll_timeout c.led_timeout c.gesture_timeout) where
    -- What holds in every reached state.
    abbrev Holds : Program D → Type 0
    Holds = Fine scale key_max memory c at_rest needed

    goes_next :
        (q : Program D)
        → Holds q
        → q.main ≢ finished
        → (t : Program D) × (ys : List Output) × (step scale key_max (next a q) q ≡ went t ys)
    goes_next q v going =
        next-Goes scale key_max a q v.0
          (λ o live. live_goes scale key_max memory c at_rest needed o a v live) v.1.alive going

    -- With a request to stop, the next step resets the handler or comes nearer to the end.
    nears_end :
        (q : Program D)
        → Holds q
        → q.main ≢ finished
        → needs_to_stop q.listener ≡ true
        → (t : Program D) × (ys : List Output) × (step scale key_max (next a q) q ≡ went t ys)
          × Holds t
          × ((has_reset ys ≡ true) ⊎ ((needs_to_stop t.listener ≡ true) × (rank t < rank q)))
    nears_end q v going stop =
        let m = next a q in
        let (t, ys, goes) = goes_next q v going in
        let cools =
          subst (Leads (Cools q)) goes
            (step-Cools scale key_max m q (next-IsOwn scale key_max a q) stop) in
        (
          t,
          ys,
          goes,
          (subst (Leads (λ q ys. Holds q × All (OutputIn (IsKeyOf (device_keys c))) ys)) goes (
              step-Fine scale key_max memory c at_rest needed m q (next-Fits scale key_max a q fits)
                v)).0,
          cooled q t ys cools v.1.alive,
        )

    -- The main loop has returned, or the handler has been reset on the way.
    abbrev Settles : Program D → Type 0
    Settles p =
        (q : Program D) × (zs : List Output) × Reach scale key_max p q zs
        × ((q.main ≡ finished) ⊎ (has_reset zs ≡ true))

    raised : (xs ys : List Output) → has_reset ys ≡ true → has_reset (xs ++ ys) ≡ true
    raised xs ys e = has_reset_append xs ys ∙ ground arith

    -- As often as the rank says, the program makes its next step.
    settle :
        (n : ℕ) (p q : Program D) (xs : List Output)
        → Reach scale key_max p q xs
        → rank q ≤ n
        → Holds q
        → needs_to_stop q.listener ≡ true
        → Settles p
    settle zero p q xs r le v stop = elim (finished_or q.main) [
      | inl e ↦ (q, xs, r, inl e)
      | inr going ↦
          let (t, ys, goes, v', ends) = nears_end q v going stop in
          let r' = later r (next a q) (next-Fits scale key_max a q fits) goes in
          elim ends [
            | inl e ↦ (t, xs ++ ys, r', inr (raised xs ys e))
            | inr (stop', less) ↦ absurd (omega (arith, le, less))
          ]
    ]
    settle (suc n) p q xs r le v stop = elim (finished_or q.main) [
      | inl e ↦ (q, xs, r, inl e)
      | inr going ↦
          let (t, ys, goes, v', ends) = nears_end q v going stop in
          let r' = later r (next a q) (next-Fits scale key_max a q fits) goes in
          elim ends [
            | inl e ↦ (t, xs ++ ys, r', inr (raised xs ys e))
            | inr (stop', less) ↦ settle n p t (xs ++ ys) r' (omega (arith, le, less)) v' stop'
          ]
    ]

    -- Let a motionless reading convert to 0, and the configured poll timeout be other than 0 and,
    -- if it is - 1, those of the LEDs and of the gestures other than the least `int`. In every
    -- state that the program reaches before the main loop has returned, the main loop can make a
    -- step, or else the thread can that it waits for, whatever is answered with button states of
    -- 32 bits.
    pub never_stuck :
        {q : Program D} {xs : List Output}
        → Reached scale key_max memory c q xs
        → q.main ≢ finished
        → (q' : Program D) × (ys : List Output) × (step scale key_max (next a q) q ≡ went q' ys)
    never_stuck {q = q} r going =
        goes_next q (Reached-Fine scale key_max memory c at_rest needed r).0 going

    -- Let a motionless reading convert to 0, and the configured poll timeout be other than 0 and,
    -- if it is - 1, those of the LEDs and of the gestures other than the least `int`. From every
    -- state that the program reaches with a request to stop the threads or the listener, its
    -- steps can take it to a state in which the main loop has returned or has raised the
    -- disconnect-complete signal on the way, whatever is answered with button states of 32 bits.
    pub request_settles :
        {q : Program D} {xs : List Output}
        → Reached scale key_max memory c q xs
        → needs_to_stop q.listener ≡ true
        → (q' : Program D) × (zs : List Output) × Reach scale key_max q q' zs
          × ((q'.main ≡ finished) ⊎ (has_reset zs ≡ true))
    request_settles {q = q} r stop =
        settle (rank q) q q [] here (omega arith)
          (Reached-Fine scale key_max memory c at_rest needed r).0 stop

    -- Let a motionless reading convert to 0, and the configured poll timeout be other than 0 and,
    -- if it is - 1, those of the LEDs and of the gestures other than the least `int`. From every
    -- state that the program reaches with a request to stop the listener, its steps can take it
    -- to a state in which the main loop has returned, whatever is answered with button states of
    -- 32 bits.
    pub stop_finishes :
        {q : Program D} {xs : List Output}
        → Reached scale key_max memory c q xs
        → q.listener.stop ≡ true
        → (q' : Program D) × (zs : List Output) × Reach scale key_max q q' zs × (q'.main ≡ finished)
    stop_finishes {q = q} r stop =
        let (q', zs, r', ends) = request_settles r (ground arith) in
        (q', zs, r', finishes q' zs r' ends)
      where
        finishes :
            (q' : Program D) (zs : List Output)
            → Reach scale key_max q q' zs
            → (q'.main ≡ finished) ⊎ (has_reset zs ≡ true)
            → q'.main ≡ finished
        finishes q' zs r' (inl e) = e
        finishes q' zs r' (inr e) = absurd (ground (arith, stop_bounds_steps scale key_max stop r'))
