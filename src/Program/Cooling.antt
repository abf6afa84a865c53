-- ===== src/Program/Cooling.antt =====
-- psmove_listener.cpp: each step of a thread after a request to stop brings the program nearer to its
-- end.
use psmoveinput.Prelude.{
  ap, ◌||◌, none, some, ℕ, ◌<◌, Bool, true, false, List, [], ◌∷◌, Option, ◌≡◌, refl, arith, ℤ,
  Bool-cases, inl, inr,
}
use psmoveinput.Common.{ControllerId, first, second, at}
use psmoveinput.Handler.{Handler, Result}
use psmoveinput.Listener.{
  Device, Worker, absent, fresh, polling, handling, returned, Round, Emission, on_disconnect,
  needs_to_stop,
}
use psmoveinput.Program.State.{
  MainLoop, Program, Output, Answers, Move, main_loop, worker, release, notify, release_awaited,
  notify_awaited, interrupt,
}
use psmoveinput.Program.Step.{
  serve, led_outputs, set_worker, detach, detach_slot, release_device, notify_listener,
  release_joined, notify_joined, enter_loop, worker_step, step, handled, handle_next,
}
use psmoveinput.Program.Outputs.{has_disconnect, has_reset, serve_lem, serve_silent}
use psmoveinput.Program.Reach.{Leads, if_alive-Leads}
use psmoveinput.Program.Sound.{is_live}
use psmoveinput.Program.Rank.{worker_rank, IsOwn, Cools, main_step-Cools}

module _ {D : Type 0} where
  detach-Cools :
      (c : ControllerId) (m : MainLoop) (p : Program D) (ys : List Output)
      → p.main ≡ m
      → is_live ((at p.listener.slots c).worker) ≡ true
      → has_reset ys ≡ false
      → needs_to_stop p.listener ≡ true
      → Cools p (detach c p) ys
  unfolding detach detach_slot
  detach-Cools first m p ys e w quiet n = ground arith
  detach-Cools second m p ys e w quiet n = ground arith

  -- A worker gets nearer to its end.
  moved-Cools :
      (c : ControllerId) (w : Worker) (p : Program D) (ys : List Output)
      → worker_rank w < worker_rank ((at p.listener.slots c).worker)
      → has_reset ys ≡ false
      → needs_to_stop p.listener ≡ true
      → Cools p (record p { listener = set_worker c w p.listener }) ys
  moved-Cools first w p ys lt quiet n = ground arith
  moved-Cools second w p ys lt quiet n = ground arith

  enter_loop-Cools :
      (c : ControllerId) (o : Option Device) (p : Program D)
      → (at p.listener.slots c).worker ≡ fresh
      → needs_to_stop p.listener ≡ true
      → Leads (Cools p) (enter_loop c o p)
  unfolding enter_loop
  enter_loop-Cools c o p w n = ground arith

  release_device-Cools :
      (c : ControllerId) (n : ℕ) (p : Program D)
      → (at p.leavers c).detached ≡ n
      → needs_to_stop p.listener ≡ true
      → Leads (Cools p) (release_device c n p)
  unfolding release_device
  release_device-Cools c n p e s = ground arith

  notify_listener-Cools :
      (c : ControllerId) (n : ℕ) (p : Program D)
      → (at p.leavers c).released ≡ n
      → needs_to_stop p.listener ≡ true
      → Leads (Cools p) (notify_listener c n p)
  unfolding notify_listener on_disconnect
  notify_listener-Cools c n p e s = ground arith

  release_joined-Cools :
      (m : MainLoop) (p : Program D)
      → p.main ≡ m
      → needs_to_stop p.listener ≡ true
      → Leads (Cools p) (release_joined m p)
  unfolding release_joined
  release_joined-Cools m p e n = ground arith

  notify_joined-Cools :
      (m : MainLoop) (p : Program D)
      → p.main ≡ m
      → needs_to_stop p.listener ≡ true
      → Leads (Cools p) (notify_joined m p)
  unfolding notify_joined on_disconnect
  notify_joined-Cools m p e n = ground arith

  served-Cools :
      (p : Program D) (h : Handler D) (b : Bool) (q : Program D) (ys : List Output)
      → needs_to_stop p.listener ≡ true
      → Cools
          (record p {
            listener = record (p.listener) { thread_stop = p.listener.thread_stop || b };
            handler = h;
          })
          q
          ys
      → Cools p q ys
  served-Cools p h b q ys n k = ground arith

  handled-Cools :
      (c : ControllerId) (r : Round) (o : Result D) (p : Program D)
      → worker_rank (handling r) < worker_rank ((at p.listener.slots c).worker)
      → needs_to_stop p.listener ≡ true
      → Leads (Cools p) (handled c r o p)
  handled-Cools c r none p lt n = tt
  handled-Cools c r (some (h, xs)) p lt n =
      let b = has_disconnect xs in
      let p' : Program D = record p {
        listener = record (p.listener) { thread_stop = p.listener.thread_stop || b };
        handler = h;
      } in
      let ys = (serve xs p.listener).1 in
      let q : Program D = record p' { listener = set_worker c (handling r) p'.listener } in
      rw (serve_lem xs p.listener) (
        served-Cools p h b q ys n
          (moved-Cools c (handling r) p' ys lt (serve_silent xs p.listener) (ground arith)))

module _ {D : Type 0} (scale : ℤ → D → ℤ) (key_max : ℕ) where
  handle_next-Cools :
      (c : ControllerId) (a : Answers) (r : Round) (xs : List Emission) (p : Program D)
      → (at p.listener.slots c).worker ≡ handling r
      → r.emissions ≡ xs
      → needs_to_stop p.listener ≡ true
      → Leads (Cools p) (handle_next scale key_max c a r xs p)
  unfolding handle_next
  handle_next-Cools c a r [] p w e n = elim (Bool-cases r.goes_on) [
    | inl on ↦
        rw on (moved-Cools c polling p (led_outputs c r.leds) (ground arith) (ground arith) n)
    | inr off ↦
        rw off (detach-Cools c p.main p (led_outputs c r.leds) refl (ap is_live w) (ground arith) n)
  ]
  handle_next-Cools c a r (x ∷ rest) p w e n =
      handled-Cools c (record r { emissions = rest }) _ p (rw (w, e) (omega arith)) n

  worker_step-Cools :
      (c : ControllerId) (a : Answers) (w : Worker) (p : Program D)
      → (at p.listener.slots c).worker ≡ w
      → needs_to_stop p.listener ≡ true
      → Leads (Cools p) (worker_step scale key_max c a w p)
  unfolding worker_step
  worker_step-Cools c a absent p e n = tt
  worker_step-Cools c a fresh p e n = enter_loop-Cools c _ p e n
  worker_step-Cools c a polling p e n = rw n (detach-Cools c p.main p [] refl (ap is_live e) refl n)
  worker_step-Cools c a (handling r) p e n = handle_next-Cools c a r r.emissions p e refl n
  worker_step-Cools c a returned p e n = tt

  pub step-Cools :
      (m : Move) (p : Program D)
      → IsOwn m
      → needs_to_stop p.listener ≡ true
      → Leads (Cools p) (step scale key_max m p)
  unfolding step
  step-Cools (main_loop a) p own n = main_step-Cools a p.main p refl n
  step-Cools (worker c a) p own n = if_alive-Leads _ p.main _ (worker_step-Cools c a _ p refl n)
  step-Cools (release c) p own n = if_alive-Leads _ p.main _ (release_device-Cools c _ p refl n)
  step-Cools (notify c) p own n = if_alive-Leads _ p.main _ (notify_listener-Cools c _ p refl n)
  step-Cools release_awaited p own n = release_joined-Cools p.main p refl n
  step-Cools notify_awaited p own n = notify_joined-Cools p.main p refl n
  step-Cools interrupt p own n = absurd own
