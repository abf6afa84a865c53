-- ===== src/Program/Lost.antt =====
-- psmove_listener.cpp: a thread that has returned at once keeps its slot.

use psmoveinput.Prelude.{
  ℕ, List, Option, none, some, ◌≡◌, refl, arith, ap, true, [], ◌∷◌, ℤ, Bool-cases, inl, inr,
}
use psmoveinput.Common.{ControllerId, first, second, at}
use psmoveinput.Handler.{Handler, Signal, Result}
use psmoveinput.Listener.{
  Device, Worker, absent, fresh, polling, handling, returned, Emission, needs_to_stop, Thread,
  Round, handle_new_device, start, on_disconnect,
}
use psmoveinput.Program.State.{
  MainLoop, top, joining, waiting, connecting, starting, finished, crashed, Program, Output,
  Answers, Move, main_loop, worker, release, notify, release_awaited, notify_awaited, interrupt,
}
use psmoveinput.Program.Step.{
  serve, after_joins, joined, main_step, detach, enter_loop, release_device, notify_listener,
  release_joined, notify_joined, handled, handle_next, after_round, set_slot, worker_step, step,
}
use psmoveinput.Program.Reach.{Leads, if_alive-Leads, Reach, Reach-keeps}
use psmoveinput.Program.Outputs.{serve_lem}
use psmoveinput.Program.Sound.{is_live}

module _ {D : Type 0} where
  -- The thread has returned at once and has left `thread_` as it was.
  abbrev pub IsLost : ControllerId → Program D → Type 0
  IsLost c p = (at p.listener.slots c).worker ≡ returned

  abbrev pub Lost : ControllerId → Program D → List Output → Type 0
  Lost c q ys = IsLost c q

  joined-Lost : (c d : ControllerId) (p : Program D) → IsLost c p → Leads (Lost c) (joined d p)
  unfolding after_joins
  joined-Lost c d p e = ground arith

  main_step-Lost :
      (c : ControllerId) (a : Answers) (m : MainLoop) (p : Program D)
      → IsLost c p
      → Leads (Lost c) (main_step a m p)
  unfolding main_step handle_new_device start
  main_step-Lost c a top p e = ground arith
  main_step-Lost c a (joining d) p e = ground (arith, joined-Lost c d p e)
  main_step-Lost c a (waiting d late) p e = ground (arith, joined-Lost c d p e)
  main_step-Lost c a connecting p e = ground arith
  main_step-Lost first a (starting i device) p e = ground arith
  main_step-Lost second a (starting i device) p e = ground arith
  main_step-Lost c a finished p e = tt
  main_step-Lost c a crashed p e = tt

  detach-Lost :
      (c d : ControllerId) (p : Program D)
      → is_live ((at p.listener.slots d).worker) ≡ true
      → IsLost c p
      → IsLost c (detach d p)
  unfolding detach
  detach-Lost first first p w e = absurd (ground arith)
  detach-Lost first second p w e = e
  detach-Lost second first p w e = e
  detach-Lost second second p w e = absurd (ground arith)

  -- Another thread gets to another place of its loop.
  moved-Lost :
      (c d : ControllerId) (t : Thread) (v : Worker) (p : Program D)
      → is_live ((at p.listener.slots d).worker) ≡ true
      → IsLost c p
      → IsLost c (record p {
        listener =
            set_slot d (record (at p.listener.slots d) { thread = t; worker = v }) p.listener;
      })
  moved-Lost first first t v p w e = absurd (ground arith)
  moved-Lost first second t v p w e = e
  moved-Lost second first t v p w e = e
  moved-Lost second second t v p w e = absurd (ground arith)

  enter_loop-Lost :
      (c d : ControllerId) (o : Option Device) (p : Program D)
      → (at p.listener.slots d).worker ≡ fresh
      → IsLost c p
      → Leads (Lost c) (enter_loop d o p)
  unfolding enter_loop
  enter_loop-Lost first first o p w e = absurd (ground arith)
  enter_loop-Lost first second o p w e = ground arith
  enter_loop-Lost second first o p w e = ground arith
  enter_loop-Lost second second o p w e = absurd (ground arith)

  leave-Lost :
      (c d : ControllerId) (n : ℕ) (p : Program D)
      → IsLost c p
      → Leads (Lost c) (release_device d n p)
        × Leads (Lost c) (notify_listener d n p)
        × Leads (Lost c) (release_joined p.main p)
        × Leads (Lost c) (notify_joined p.main p)
  unfolding release_device notify_listener release_joined notify_joined on_disconnect
  leave-Lost c d n p e = ground arith

module _ {D : Type 0} (scale : ℤ → D → ℤ) (key_max : ℕ) where
  served-Lost :
      (c : ControllerId) (xs : List Signal) (h : Handler D) (p : Program D)
      → IsLost c p
      → IsLost c (record p { listener = (serve xs p.listener).0; handler = h })
  served-Lost c xs h p e = rw (serve_lem xs p.listener) e

  handled-Lost :
      (c d : ControllerId) (r : Round) (o : Result D) (p : Program D)
      → is_live ((at p.listener.slots d).worker) ≡ true
      → IsLost c p
      → Leads (Lost c) (handled d r o p)
  handled-Lost c d r none p w e = tt
  handled-Lost c d r (some (h, xs)) p w e =
      let p' : Program D = record p { listener = (serve xs p.listener).0; handler = h } in
      moved-Lost c d (at p'.listener.slots d).thread (handling r) p'
        (rw (serve_lem xs p.listener) w) (served-Lost c xs h p e)

  handle_next-Lost :
      (c d : ControllerId) (a : Answers) (r : Round) (xs : List Emission) (p : Program D)
      → is_live ((at p.listener.slots d).worker) ≡ true
      → IsLost c p
      → Leads (Lost c) (handle_next scale key_max d a r xs p)
  unfolding handle_next
  handle_next-Lost c d a r [] p w e = elim (Bool-cases r.goes_on) [
    | inl on ↦ rw on (moved-Lost c d (at p.listener.slots d).thread polling p w e)
    | inr off ↦ rw off (detach-Lost c d p w e)
  ]
  handle_next-Lost c d a r (x ∷ rest) p w e = handled-Lost c d _ _ p w e

  after_round-Lost :
      (c d : ControllerId) (o : Option (Thread × Round)) (p : Program D)
      → is_live ((at p.listener.slots d).worker) ≡ true
      → IsLost c p
      → Leads (Lost c) (after_round d o p)
  after_round-Lost c d none p w e = e
  after_round-Lost c d (some (t, r)) p w e = moved-Lost c d t (handling r) p w e

  worker_step-Lost :
      (c d : ControllerId) (a : Answers) (w : Worker) (p : Program D)
      → (at p.listener.slots d).worker ≡ w
      → IsLost c p
      → Leads (Lost c) (worker_step scale key_max d a w p)
  unfolding worker_step
  worker_step-Lost c d a absent p w e = tt
  worker_step-Lost c d a fresh p w e = enter_loop-Lost c d _ p w e
  worker_step-Lost c d a polling p w e = elim (Bool-cases (needs_to_stop p.listener)) [
    | inl stop ↦ rw stop (detach-Lost c d p (ap is_live w) e)
    | inr on ↦ rw on (after_round-Lost c d _ p (ap is_live w) e)
  ]
  worker_step-Lost c d a (handling r) p w e = handle_next-Lost c d a r _ p (ap is_live w) e
  worker_step-Lost c d a returned p w e = tt

  step-Lost :
      (c : ControllerId) (m : Move) (p : Program D)
      → IsLost c p
      → Leads (Lost c) (step scale key_max m p)
  unfolding step
  step-Lost c (main_loop a) p e = main_step-Lost c a p.main p e
  step-Lost c (worker d a) p e = if_alive-Leads _ p.main _ (worker_step-Lost c d a _ p refl e)
  step-Lost c (release d) p e = if_alive-Leads _ p.main _ (leave-Lost c d _ p e).0
  step-Lost c (notify d) p e = if_alive-Leads _ p.main _ (leave-Lost c d _ p e).1
  step-Lost c release_awaited p e = (leave-Lost c c 0 p e).2
  step-Lost c notify_awaited p e = (leave-Lost c c 0 p e).3
  step-Lost c interrupt p e = if_alive-Leads _ p.main _ e

  -- A thread that has returned for want of a device keeps its slot for good.
  pub reach-Lost :
      {p q : Program D} {xs : List Output} (c : ControllerId)
      → IsLost c p
      → Reach scale key_max p q xs
      → IsLost c q
  reach-Lost c e r = Reach-keeps scale key_max (IsLost c) (λ m s fits k. step-Lost c m s k) e r
