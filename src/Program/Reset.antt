-- ===== src/Program/Reset.antt =====
-- psmove_listener.cpp: when the main loop raises the disconnect-complete signal.

use psmoveinput.Prelude.{
  Bool, ℕ, true, false, List, [], ◌∷◌, Option, none, some, ◌≡◌, ◌≢◌, refl, arith, ℤ, Bool-cases,
  inl, inr,
}
use psmoveinput.Common.{ControllerId, first, second}
use psmoveinput.Handler.{Result, reset}
use psmoveinput.Listener.{
  Device, Worker, absent, fresh, polling, handling, returned, Emission, needs_to_stop, Thread,
  Round,
}
use psmoveinput.Program.State.{
  MainLoop, top, joining, waiting, connecting, starting, finished, crashed, Program, Output,
  Answers, Move, main_loop, worker, release, notify, release_awaited, notify_awaited, interrupt,
}
use psmoveinput.Program.Step.{
  Outcome, blocked, went, after_joins, main_step, enter_loop, release_device, notify_listener,
  release_joined, notify_joined, handled, handle_next, end_round, after_round, worker_step, step,
}
use psmoveinput.Program.Reach.{Leads, if_alive-Leads}
use psmoveinput.Program.Outputs.{has_reset, serve_silent}
use psmoveinput.Program.Sound.{IsSound, is_live}

module _ {D : Type 0} where
  -- No thread is in its loop or before it, nothing stands of the request, and the handler is reset.
  abbrev pub IsAlone : Program D → Program D → Type 0
  IsAlone p q =
      (p.main ≢ finished)
      × (is_live p.listener.slots.fst.worker ≡ false)
      × (is_live p.listener.slots.snd.worker ≡ false)
      × (q.listener ≡ record (p.listener) { thread_stop = false })
      × (q.listener.stop ≡ false)
      × (q.handler ≡ reset p.handler)

  abbrev pub AloneAtReset : Program D → Program D → List Output → Type 0
  AloneAtReset p q ys = has_reset ys ≡ true → IsAlone p q

  abbrev Silent : Program D → List Output → Type 0
  Silent q ys = has_reset ys ≡ false

  Silent-Alone : (p : Program D) (o : Outcome D) → Leads Silent o → Leads (AloneAtReset p) o
  Silent-Alone p blocked s = tt
  Silent-Alone p (went q ys) s = ground arith

  main_step-Alone :
      (a : Answers) (m : MainLoop) (p : Program D)
      → p.main ≡ m
      → IsSound p
      → Leads (AloneAtReset p) (main_step a m p)
  unfolding main_step after_joins
  main_step-Alone a top p e v = ground arith
  main_step-Alone a (joining first) p e v = ground arith
  main_step-Alone a (joining second) p e v = ground arith
  main_step-Alone a (waiting first late) p e v = ground arith
  main_step-Alone a (waiting second late) p e v = ground arith
  main_step-Alone a connecting p e v = ground arith
  main_step-Alone a (starting i device) p e v = ground arith
  main_step-Alone a finished p e v = tt
  main_step-Alone a crashed p e v = tt

  quiet :
      (c : ControllerId) (o : Option Device) (n : ℕ) (p : Program D)
      → Leads Silent (enter_loop c o p)
        × Leads Silent (release_device c n p)
        × Leads Silent (notify_listener c n p)
        × Leads Silent (release_joined p.main p)
        × Leads Silent (notify_joined p.main p)
  unfolding enter_loop release_device notify_listener release_joined notify_joined
  quiet c o n p = ground arith

  handled-Silent :
      (c : ControllerId) (r : Round) (o : Result D) (p : Program D) → Leads Silent (handled c r o p)
  handled-Silent c r none p = tt
  handled-Silent c r (some (h, xs)) p = serve_silent xs p.listener

  round-Silent :
      (c : ControllerId) (leds goes_on : Bool) (p : Program D)
      → Leads Silent (end_round c leds goes_on p)
  round-Silent c leds goes_on p = ground arith

  after_round-Silent :
      (c : ControllerId) (o : Option (Thread × Round)) (p : Program D)
      → Leads Silent (after_round c o p)
  after_round-Silent c none p = refl
  after_round-Silent c (some (t, r)) p = refl

module _ {D : Type 0} (scale : ℤ → D → ℤ) (key_max : ℕ) where
  handle_next-Silent :
      (c : ControllerId) (a : Answers) (r : Round) (xs : List Emission) (p : Program D)
      → Leads Silent (handle_next scale key_max c a r xs p)
  unfolding handle_next
  handle_next-Silent c a r [] p = round-Silent c r.leds r.goes_on p
  handle_next-Silent c a r (e ∷ rest) p = handled-Silent c (record r { emissions = rest }) _ p

  worker_step-Silent :
      (c : ControllerId) (a : Answers) (w : Worker) (p : Program D)
      → Leads Silent (worker_step scale key_max c a w p)
  unfolding worker_step
  worker_step-Silent c a absent p = tt
  worker_step-Silent c a fresh p = (quiet c _ 0 p).0
  worker_step-Silent c a polling p = elim (Bool-cases (needs_to_stop p.listener)) [
    | inl stop ↦ rw stop refl
    | inr on ↦ rw on (after_round-Silent c _ p)
  ]
  worker_step-Silent c a (handling r) p = handle_next-Silent c a r r.emissions p
  worker_step-Silent c a returned p = tt

  -- Only the main loop raises the signal, and then it is alone.
  pub step-Alone :
      (m : Move) (p : Program D) → IsSound p → Leads (AloneAtReset p) (step scale key_max m p)
  unfolding step
  step-Alone (main_loop a) p v = main_step-Alone a p.main p refl v
  step-Alone (worker c a) p v =
      if_alive-Leads _ p.main _ (Silent-Alone p _ (worker_step-Silent c a _ p))
  step-Alone (release c) p v = if_alive-Leads _ p.main _ (Silent-Alone p _ (quiet c none _ p).1)
  step-Alone (notify c) p v = if_alive-Leads _ p.main _ (Silent-Alone p _ (quiet c none _ p).2)
  step-Alone release_awaited p v = Silent-Alone p _ (quiet first none 0 p).3
  step-Alone notify_awaited p v = Silent-Alone p _ (quiet first none 0 p).4
  step-Alone interrupt p v = if_alive-Leads _ p.main _ (ground arith)
