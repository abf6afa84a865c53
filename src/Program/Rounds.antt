-- ===== src/Program/Rounds.antt =====
-- psmove_listener.cpp and psmove_handler.cpp: the rounds of the controller threads and the handler.
use mathlib.Core.Path.{subst}
use psmoveinput.Prelude.{
  ℕ, List, [], ◌∷◌, ◌≡◌, refl, arith, ℤ, Bool-cases, inl, inr, ◌≢◌, ap, true, false, Option, none,
  some,
}
use psmoveinput.Program.State.{
  MainLoop, top, joining, waiting, connecting, starting, finished, crashed, Program, Output,
  Answers, Move, main_loop, worker, release, notify, release_awaited, notify_awaited, interrupt,
  report,
}
use psmoveinput.Program.Step.{
  if_alive, enter_loop, went, serve, set_worker, led_outputs, detach, handled, handle_next,
  after_round, worker_step, step,
}
use psmoveinput.Listener.{
  CanDivide, Thread, Listener, fresh, absent, returned, handling, Device, Worker, polling, Round,
  Emission, poll_round, needs_to_stop,
}
use psmoveinput.Common.{ControllerId, first, second, at, PerController, KeyMap}
use psmoveinput.Handler.{Handler, Signal}
use psmoveinput.Handler.Session.{Report, IsInt32, handle}
use psmoveinput.Handler.Valid.{IsValid}
use psmoveinput.Handler.Runs.{AtRest, handle-Succeeds}
use psmoveinput.Handler.Emitted.{MapIn, handle-Emits}
use psmoveinput.Listener.Kept.{AreEmitted}
use psmoveinput.Listener.Division.{poll_round_fails_on_zero}
use psmoveinput.Program.Reach.{Leads, if_alive-Leads, IsPattern, Fits}
use psmoveinput.Program.Sound.{IsSound, is_live, Pending}
use psmoveinput.Program.Workers.{own_id}
use psmoveinput.Program.Outputs.{serve_lem}
use psmoveinput.Program.Well.{
  report-IsInt32, serve-OutputIn, IsWell, Serves, main_step-Serves, detach-IsWell,
  release_device-Serves, notify_listener-Serves, release_joined-Serves, notify_joined-Serves,
}

module _ {D : Type 0} (P : ℕ → Type 0) (key_max : ℕ) (km : PerController KeyMap) (scale : ℤ → D → ℤ)
    (at_rest : AtRest scale) (known : (c : ControllerId) → MapIn P (at km c)) where
  -- What a round emits, a valid handler handles.
  served-IsWell :
      (xs : List Signal) (h : Handler D) (p : Program D)
      → IsWell P key_max km p
      → IsValid key_max h
      → h.keymaps ≡ km
      → IsWell P key_max km (record p { listener = (serve xs p.listener).0; handler = h })
  served-IsWell xs h p w v k = rw (serve_lem xs p.listener) (ground arith)

  -- A call of the handler succeeds, and the thread goes on with its round.
  handled-Serves :
      (c : ControllerId) (r : Round) (x : Report) (p : Program D)
      → IsInt32 x
      → IsWell P key_max km p
      → (q : Program D) × (ys : List Output) × (handled c r (handle scale key_max x p.handler) p
          ≡ went q ys)
        × Serves P key_max km q ys
  handled-Serves c r x p i w =
      let ((h, xs), e, v) = handle-Succeeds scale key_max at_rest x p.handler i w.valid in
      let emitted = handle-Emits P key_max km known scale x p.handler w.maps in
      let emits = rw e at emitted in
      let p' : Program D = record p { listener = (serve xs p.listener).0; handler = h } in
      let w' = served-IsWell xs h p w v emits.0 in
      (
        record p' { listener = set_worker c (handling r) p'.listener },
        (serve xs p.listener).1,
        rw e refl,
        (
          record { alive = w'.alive; needed = w'.needed; valid = w'.valid; maps = w'.maps },
          serve-OutputIn P xs p.listener emits.1,
        ),
      )

  -- The next call of a round succeeds, or the round ends.
  handle_next-Serves :
      (c : ControllerId) (a : Answers) (r : Round) (xs : List Emission) (p : Program D)
      → AreEmitted IsPattern c xs
      → IsWell P key_max km p
      → (q : Program D) × (ys : List Output) × (handle_next scale key_max c a r xs p ≡ went q ys)
        × Serves P key_max km q ys
  unfolding handle_next
  handle_next-Serves c a r [] p k w = elim (Bool-cases r.goes_on) [
    | inl on ↦ (
      record p { listener = set_worker c polling p.listener },
      led_outputs c r.leds,
      rw on refl,
      (record { alive = w.alive; needed = w.needed; valid = w.valid; maps = w.maps }, ground arith),
    )
    | inr off ↦ (
      detach c p,
      led_outputs c r.leds,
      rw off refl,
      (detach-IsWell P key_max km c p w, ground arith),
    )
  ]
  handle_next-Serves c a r (e ∷ rest) p k w =
      handled-Serves c (record r { emissions = rest }) (report a.clock e) p
        (report-IsInt32 a.clock c e k.0) w

  -- The timeouts of a thread are those of its listener.
  abbrev SameTimeouts : Thread → Listener → Type 0
  SameTimeouts t l =
      (t.poll_timeout ≡ l.poll_timeout)
      × (t.led_timeout ≡ l.led_timeout)
      × (t.gesture_timeout ≡ l.gesture_timeout)

  fit :
      (c : ControllerId) (p : Program D)
      → SameTimeouts ((at p.listener.slots c).thread) p.listener
      → IsWell P key_max km p
      → let t = (at p.listener.slots c).thread in
        CanDivide t.poll_timeout t.led_timeout t.gesture_timeout
  fit c p same w = rw (same.0, same.1, same.2) w.needed

  -- A thread in its loop polls its device, whatever this answers.
  round_goes :
      (c : ControllerId) (a : Answers) (p : Program D)
      → SameTimeouts ((at p.listener.slots c).thread) p.listener
      → IsWell P key_max km p
      → (q : Program D) × (ys : List Output) × (after_round c
            (poll_round a.samples a.now ((at p.listener.slots c).thread))
            p
          ≡ went q ys)
        × Serves P key_max km q ys
  round_goes c a p same w =
      let t = (at p.listener.slots c).thread in
      let ((t', r), e) =
        (poll_round_fails_on_zero a.samples a.now t).0 (fit c p same w).0 (fit c p same w).1 in
      rw e (
        _,
        _,
        refl,
        (record { alive = w.alive; needed = w.needed; valid = w.valid; maps = w.maps }, tt),
      )

  same_timeouts :
      (c : ControllerId) (p : Program D)
      → IsSound p
      → is_live ((at p.listener.slots c).worker) ≡ true
      → SameTimeouts ((at p.listener.slots c).thread) p.listener
  same_timeouts first p s e = ground arith
  same_timeouts second p s e = ground arith

  -- A thread before its loop or in it makes its next step, whatever is answered.
  live-Serves :
      (c : ControllerId) (a : Answers) (w : Worker) (p : Program D)
      → (at p.listener.slots c).worker ≡ w
      → is_live w ≡ true
      → IsSound p
      → IsWell P key_max km p
      → (q : Program D) × (ys : List Output) × (worker_step scale key_max c a w p ≡ went q ys)
        × Serves P key_max km q ys
  unfolding worker_step enter_loop
  live-Serves c a absent p e live s w = absurd (ground arith)
  live-Serves c a returned p e live s w = absurd (ground arith)
  live-Serves c a fresh p e live s w = entered ((at p.listener.slots c).move)
    where
      entered :
          (o : Option Device)
          → (q : Program D) × (ys : List Output) × (enter_loop c o p ≡ went q ys)
            × Serves P key_max km q ys
      entered none = (
        _,
        _,
        refl,
        (record { alive = w.alive; needed = w.needed; valid = w.valid; maps = w.maps }, tt),
      )
      entered (some device) = (
        _,
        _,
        refl,
        (record { alive = w.alive; needed = w.needed; valid = w.valid; maps = w.maps }, (tt, tt)),
      )
  live-Serves c a polling p e live s w = elim (Bool-cases (needs_to_stop p.listener)) [
    | inl stop ↦ rw stop (detach c p, [], refl, (detach-IsWell P key_max km c p w, tt))
    | inr on ↦ rw on (round_goes c a p (same_timeouts c p s (ap is_live e)) w)
  ]
  live-Serves c a (handling r) p e live s w =
      handle_next-Serves c a r r.emissions p
        (subst (Pending c) e (own_id scale key_max c p (ap is_live e) s).1) w

  worker_step-Serves :
      (c : ControllerId) (a : Answers) (w : Worker) (p : Program D)
      → (at p.listener.slots c).worker ≡ w
      → IsSound p
      → IsWell P key_max km p
      → Leads (Serves P key_max km) (worker_step scale key_max c a w p)
  unfolding worker_step
  worker_step-Serves c a w p e s k = elim (Bool-cases (is_live w)) [
    | inl live ↦ let (q, ys, goes, serves) = live-Serves c a w p e live s k in rw goes serves
    | inr gone ↦ still w gone
  ]
    where
      still :
          (v : Worker)
          → is_live v ≡ false
          → Leads (Serves P key_max km) (worker_step scale key_max c a v p)
      still absent gone = tt
      still returned gone = tt
      still fresh gone = absurd (ground arith)
      still polling gone = absurd (ground arith)
      still (handling r) gone = absurd (ground arith)

  pub thread_goes :
      (c : ControllerId) (a : Answers) (p : Program D)
      → is_live ((at p.listener.slots c).worker) ≡ true
      → IsSound p
      → IsWell P key_max km p
      → (q : Program D) × (ys : List Output) × (step scale key_max (worker c a) p ≡ went q ys)
  unfolding step
  thread_goes c a p e s w = alive p.main w.alive
    where
      goes :
          (q : Program D) × (ys : List Output) × (worker_step scale key_max c a
              ((at p.listener.slots c).worker)
              p
            ≡ went q ys)
      goes = let (q, ys, went_on, serves) = live-Serves c a _ p refl e s w in (q, ys, went_on)

      alive :
          (m : MainLoop)
          → m ≢ crashed
          → (q : Program D) × (ys : List Output) × (if_alive m
                (worker_step scale key_max c a ((at p.listener.slots c).worker) p)
              ≡ went q ys)
      alive crashed k = absurd (k refl)
      alive top k = goes
      alive (joining i) k = goes
      alive (waiting i late) k = goes
      alive connecting k = goes
      alive (starting i device) k = goes
      alive finished k = goes

  -- Every step keeps the handler valid and reports keys with P.
  pub step-Serves :
      (m : Move) (p : Program D)
      → Fits m
      → IsSound p
      → IsWell P key_max km p
      → Leads (Serves P key_max km) (step scale key_max m p)
  unfolding step
  step-Serves (main_loop a) p fits s w = main_step-Serves P key_max km a p.main p w
  step-Serves (worker c a) p fits s w =
      if_alive-Leads _ p.main _ (worker_step-Serves c a _ p refl s w)
  step-Serves (release c) p fits s w =
      if_alive-Leads _ p.main _ (release_device-Serves P key_max km c _ p w)
  step-Serves (notify c) p fits s w =
      if_alive-Leads _ p.main _ (notify_listener-Serves P key_max km c _ p w)
  step-Serves release_awaited p fits s w = release_joined-Serves P key_max km p.main p w
  step-Serves notify_awaited p fits s w = notify_joined-Serves P key_max km p.main p w
  step-Serves interrupt p fits s w = if_alive-Leads _ p.main _ (ground arith)
