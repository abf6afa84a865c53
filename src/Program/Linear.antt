-- ===== src/Program/Linear.antt =====
-- psmove_listener.cpp and psmove_handler.cpp: the threads together use the handler as one client would.
use mathlib.Core.Path.{subst}
use psmoveinput.Prelude.{
  ℕ, Bool, true, false, List, [], ◌∷◌, Option, none, some, ◌≡◌, refl, ap, arith, ℤ, Bool-cases, ◌⊎◌,
  inl, inr,
}
use psmoveinput.Common.{ControllerId, first, second, at}
use psmoveinput.Handler.{Result, reset}
use psmoveinput.Handler.Session.{Report, handle, IsInt32}
use psmoveinput.Listener.{
  Device, Worker, absent, fresh, polling, handling, returned, needs_to_stop, Thread, Round,
  Emission,
}
use psmoveinput.Listener.Kept.{AreEmitted}
use psmoveinput.Program.State.{
  MainLoop, top, joining, waiting, connecting, starting, finished, crashed, Program, Output,
  Answers, Move, main_loop, worker, release, notify, release_awaited, notify_awaited, interrupt,
  report,
}
use psmoveinput.Program.Step.{
  Outcome, blocked, went, after_joins, main_step, detach, enter_loop, release_device,
  notify_listener, release_joined, notify_joined, handled, handle_next, end_round, after_round,
  worker_step, step,
}
use psmoveinput.Program.Reach.{Leads, if_alive-Leads, Reach, here, later, IsPattern}
use psmoveinput.Program.Sound.{IsSound, is_live, Pending}
use psmoveinput.Program.Workers.{own_id, Reach-IsSound}
use psmoveinput.Program.Well.{report-IsInt32}
use psmoveinput.Program.Outputs.{has_reset, has_reset_append, serve_silent}
use psmoveinput.Program.Client.{
  shown, shown_append, shown-serve, Explained, stays-Explained, reset-Explained, handle-Explained,
  then-Explained,
}

module _ {D : Type 0} (scale : ℤ → D → ℤ) (key_max : ℕ) where
  -- What a step does to the handler.
  abbrev Explains : Program D → Program D → List Output → Type 0
  Explains p q ys = Explained scale key_max p.handler q.handler (shown ys) (has_reset ys)

  handled-Explains :
      (c : ControllerId) (r : Round) (x : Report) (p : Program D) (o : Result D)
      → IsInt32 x
      → handle scale key_max x p.handler ≡ o
      → Leads (Explains p) (handled c r o p)
  handled-Explains c r x p none fits e = tt
  handled-Explains c r x p (some (h, xs)) fits e =
      rw (shown-serve xs p.listener, serve_silent xs p.listener)
        (handle-Explained scale key_max x p.handler h xs fits e)

  -- A step that does not call the slots of the handler.
  Simple : Program D → Program D → List Output → Type 0
  Simple p q ys =
      (((q.handler ≡ p.handler) × (has_reset ys ≡ false))
        ⊎ ((q.handler ≡ reset p.handler) × (has_reset ys ≡ true)))
      × (shown ys ≡ [])

  Simple-Explains : (p : Program D) (o : Outcome D) → Leads (Simple p) o → Leads (Explains p) o
  unfolding Simple
  Simple-Explains p blocked k = tt
  Simple-Explains p (went q ys) (inl (e, b), f) =
      rw (e, f, b) (stays-Explained scale key_max p.handler)
  Simple-Explains p (went q ys) (inr (e, b), f) =
      rw (e, f, b) (reset-Explained scale key_max p.handler)

  main_step-Simple :
      (a : Answers) (m : MainLoop) (p : Program D) → Leads (Simple p) (main_step a m p)
  unfolding Simple main_step shown after_joins
  main_step-Simple a top p = ground arith
  main_step-Simple a (joining first) p = ground arith
  main_step-Simple a (joining second) p = ground arith
  main_step-Simple a (waiting first late) p = ground arith
  main_step-Simple a (waiting second late) p = ground arith
  main_step-Simple a connecting p = ground arith
  main_step-Simple a (starting i device) p = ground arith
  main_step-Simple a finished p = tt
  main_step-Simple a crashed p = tt

  others-Simple :
      (c : ControllerId) (o : Option Device) (n : ℕ) (p : Program D)
      → Leads (Simple p) (enter_loop c o p)
        × Leads (Simple p) (release_device c n p)
        × Leads (Simple p) (notify_listener c n p)
        × Leads (Simple p) (release_joined p.main p)
        × Leads (Simple p) (notify_joined p.main p)
        × ((leds : Bool) → Leads (Simple p) (end_round c leds true p))
        × ((leds : Bool) → Leads (Simple p) (end_round c leds false p))
        × Simple p (detach c p) []
  unfolding Simple shown enter_loop release_device notify_listener release_joined notify_joined
      detach
  others-Simple c o n p = ground arith

  handle_next-Explains :
      (c : ControllerId) (a : Answers) (r : Round) (xs : List Emission) (p : Program D)
      → AreEmitted IsPattern c xs
      → Leads (Explains p) (handle_next scale key_max c a r xs p)
  unfolding handle_next
  handle_next-Explains c a r [] p k = elim (Bool-cases r.goes_on) [
    | inl on ↦
        rw on (Simple-Explains p (end_round c r.leds true p) ((others-Simple c none 0 p).5 r.leds))
    | inr off ↦
        rw off
          (Simple-Explains p (end_round c r.leds false p) ((others-Simple c none 0 p).6 r.leds))
  ]
  handle_next-Explains c a r (e ∷ rest) p k =
      handled-Explains c _ (report a.clock e) p _ (report-IsInt32 a.clock c e k.0) refl

  after_round-Explains :
      (c : ControllerId) (o : Option (Thread × Round)) (p : Program D)
      → Leads (Explains p) (after_round c o p)
  unfolding shown
  after_round-Explains c none p = stays-Explained scale key_max p.handler
  after_round-Explains c (some (t, r)) p = stays-Explained scale key_max p.handler

  worker_step-Explains :
      (c : ControllerId) (a : Answers) (w : Worker) (p : Program D)
      → (at p.listener.slots c).worker ≡ w
      → IsSound p
      → Leads (Explains p) (worker_step scale key_max c a w p)
  unfolding worker_step
  worker_step-Explains c a absent p e s = tt
  worker_step-Explains c a fresh p e s = Simple-Explains p _ (others-Simple c _ 0 p).0
  worker_step-Explains c a polling p e s = elim (Bool-cases (needs_to_stop p.listener)) [
    | inl stop ↦ rw stop (Simple-Explains p (went (detach c p) []) (others-Simple c none 0 p).7)
    | inr on ↦ rw on (after_round-Explains c _ p)
  ]
  worker_step-Explains c a (handling r) p e s =
      handle_next-Explains c a r r.emissions p
        (subst (Pending c) e (own_id scale key_max c p (ap is_live e) s).1)
  worker_step-Explains c a returned p e s = tt

  step-Explains :
      (m : Move) (p : Program D) → IsSound p → Leads (Explains p) (step scale key_max m p)
  unfolding step shown
  step-Explains (main_loop a) p s = Simple-Explains p _ (main_step-Simple a p.main p)
  step-Explains (worker c a) p s = if_alive-Leads _ p.main _ (worker_step-Explains c a _ p refl s)
  step-Explains (release c) p s =
      if_alive-Leads _ p.main _ (Simple-Explains p _ (others-Simple c none _ p).1)
  step-Explains (notify c) p s =
      if_alive-Leads _ p.main _ (Simple-Explains p _ (others-Simple c none _ p).2)
  step-Explains release_awaited p s = Simple-Explains p _ (others-Simple first none 0 p).3
  step-Explains notify_awaited p s = Simple-Explains p _ (others-Simple first none 0 p).4
  step-Explains interrupt p s = if_alive-Leads _ p.main _ (stays-Explained scale key_max p.handler)

  -- Where a call of the handler is one step: on every way of the program from a sound state to another,
  -- whatever the order in which its threads poll their devices and call the handler, there is a single
  -- client's sequence of calls of the handler's slots, with button states of 32 bits, and of resets,
  -- which takes the handler from its state at the start to that at the end. Its signals, but for those
  -- that ask for a disconnection, are those that the program has shown, and it has a reset exactly if
  -- the program has raised the disconnect-complete signal.
  pub Reach-Explained :
      {p q : Program D} {xs : List Output}
      → IsSound p
      → Reach scale key_max p q xs
      → Explained scale key_max p.handler q.handler (shown xs) (has_reset xs)
  unfolding shown
  Reach-Explained {p = p} v here = stays-Explained scale key_max p.handler
  Reach-Explained {p = p} v (later {q = q} {r = r} {xs = xs} {ys = ys} way m fits e) =
      rw (shown_append xs ys, has_reset_append xs ys)
        (then-Explained scale key_max p.handler q.handler r.handler (shown xs) (shown ys)
          (has_reset xs) (has_reset ys) (Reach-Explained v way)
          (subst (Leads (Explains q)) e (step-Explains m q (Reach-IsSound scale key_max v way))))
