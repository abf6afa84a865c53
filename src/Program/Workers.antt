-- ===== src/Program/Workers.antt =====
-- psmove_listener.cpp: the steps of the controller threads keep the listener sound.
use psmoveinput.Prelude.{
  ℕ, zero, suc, Bool, true, ◌||◌, List, [], ◌∷◌, Option, none, some, ◌≡◌, refl, arith, ℤ,
  Bool-cases, inl, inr, All,
}
use mathlib.Core.Path.{subst, ap}
use psmoveinput.Common.{ControllerId, first, second, at}
use psmoveinput.Handler.{Handler, Result}
use psmoveinput.Listener.{
  Device, Worker, absent, fresh, polling, handling, returned, Emission, on_disconnect, Thread,
  Round, needs_to_stop, begin, end_thread,
}
use psmoveinput.Listener.Kept.{Kept, AreEmitted, IsSame, RoundEmits, poll_round-Kept}
use psmoveinput.Program.State.{
  MainLoop, Program, Output, Answers, Move, main_loop, worker, release, notify, release_awaited,
  notify_awaited, interrupt,
}
use psmoveinput.Program.Step.{
  set_slot, detach, detach_slot, release_device, notify_listener, release_joined, notify_joined,
  enter_loop, handled, handle_next, after_round, worker_step, step,
}
use psmoveinput.Program.Outputs.{has_disconnect, serve_lem}
use psmoveinput.Program.Reach.{Leads, if_alive-Leads, IsPattern, Fits, Reach, Reach-keeps}
use psmoveinput.Program.Sound.{IsSound, is_live, Pending, main_step-IsSound}

module _ {D : Type 0} where
  detach-IsSound :
      (c : ControllerId) (m : MainLoop) (p : Program D)
      → p.main ≡ m
      → is_live ((at p.listener.slots c).worker) ≡ true
      → IsSound p
      → IsSound (detach c p)
  unfolding detach detach_slot end_thread
  detach-IsSound first m p e w v = ground arith
  detach-IsSound second m p e w v = ground arith

  -- Clearing `move_` touches nothing that soundness speaks of.
  release_device-IsSound :
      (c : ControllerId) (n : ℕ) (p : Program D)
      → IsSound p
      → Leads (λ q ys. IsSound q) (release_device c n p)
  unfolding release_device
  release_device-IsSound c zero p v = tt
  release_device-IsSound first (suc n) p v = ground arith
  release_device-IsSound second (suc n) p v = ground arith

  notify_listener-IsSound :
      (c : ControllerId) (n : ℕ) (p : Program D)
      → IsSound p
      → Leads (λ q ys. IsSound q) (notify_listener c n p)
  unfolding notify_listener on_disconnect
  notify_listener-IsSound c zero p v = tt
  notify_listener-IsSound c (suc n) p v = ground arith

  release_joined-IsSound :
      (m : MainLoop) (p : Program D)
      → p.main ≡ m
      → IsSound p
      → Leads (λ q ys. IsSound q) (release_joined m p)
  unfolding release_joined
  release_joined-IsSound m p e v = ground arith

  notify_joined-IsSound :
      (m : MainLoop) (p : Program D)
      → p.main ≡ m
      → IsSound p
      → Leads (λ q ys. IsSound q) (notify_joined m p)
  unfolding notify_joined on_disconnect
  notify_joined-IsSound m p e v = ground arith

  enter_loop-IsSound :
      (c : ControllerId) (o : Option Device) (p : Program D)
      → (at p.listener.slots c).worker ≡ fresh
      → IsSound p
      → Leads (λ q ys. IsSound q) (enter_loop c o p)
  unfolding enter_loop begin
  enter_loop-IsSound c o p w v = ground arith

  served-IsSound :
      (p : Program D) (h : Handler D) (b : Bool)
      → IsSound p
      → IsSound (record p {
        listener = record (p.listener) { thread_stop = p.listener.thread_stop || b };
        handler = h;
      })
  served-IsSound p h b v = ground arith

  -- A thread in its loop or before it goes to another place there.
  moved-IsSound :
      (c : ControllerId) (t : Thread) (w : Worker) (p : Program D)
      → is_live ((at p.listener.slots c).worker) ≡ true
      → is_live w ≡ true
      → Pending c w
      → IsSame ((at p.listener.slots c).thread) t
      → IsSound p
      → IsSound (record p {
        listener =
            set_slot c (record (at p.listener.slots c) { thread = t; worker = w }) p.listener;
      })
  moved-IsSound first t w p e live pending same v = ground arith
  moved-IsSound second t w p e live pending same v = ground arith

  handled-IsSound :
      (c : ControllerId) (r : Round) (o : Result D) (p : Program D)
      → is_live ((at p.listener.slots c).worker) ≡ true
      → AreEmitted IsPattern c r.emissions
      → IsSound p
      → Leads (λ q ys. IsSound q) (handled c r o p)
  handled-IsSound c r none p w k v = tt
  handled-IsSound c r (some (h, signals)) p w k v =
      let p' : Program D = record p {
        listener = record (p.listener) {
          thread_stop = p.listener.thread_stop || has_disconnect signals;
        };
        handler = h;
      } in
      rw (serve_lem signals p.listener) (
        moved-IsSound c (at p'.listener.slots c).thread (handling r) p' w refl k
          (refl, refl, refl, refl) (served-IsSound p h (has_disconnect signals) v))

  after_round-IsSound :
      (c : ControllerId) (o : Option (Thread × Round)) (p : Program D)
      → (at p.listener.slots c).worker ≡ polling
      → (at p.listener.slots c).thread.id ≡ c
      → Kept
          (RoundEmits IsPattern ((at p.listener.slots c).thread.id))
          ((at p.listener.slots c).thread)
          o
      → IsSound p
      → Leads (λ q ys. IsSound q) (after_round c o p)
  after_round-IsSound c none p w i k v = ground arith
  after_round-IsSound c (some (t, r)) p w i (same, emitted) v =
      moved-IsSound c t (handling r) p (ap is_live w) refl
        (subst (λ d. AreEmitted IsPattern d r.emissions) i emitted) same v

module _ {D : Type 0} (scale : ℤ → D → ℤ) (key_max : ℕ) where
  handle_next-IsSound :
      (c : ControllerId) (a : Answers) (r : Round) (xs : List Emission) (p : Program D)
      → is_live ((at p.listener.slots c).worker) ≡ true
      → AreEmitted IsPattern c xs
      → IsSound p
      → Leads (λ q ys. IsSound q) (handle_next scale key_max c a r xs p)
  unfolding handle_next
  handle_next-IsSound c a r [] p w k v = elim (Bool-cases r.goes_on) [
    | inl on ↦ rw on (
        moved-IsSound c (at p.listener.slots c).thread polling p w refl tt (refl, refl, refl, refl)
          v)
    | inr off ↦ rw off (detach-IsSound c p.main p refl w v)
  ]
  handle_next-IsSound c a r (e ∷ rest) p w k v =
      handled-IsSound c (record r { emissions = rest }) _ p w k.1 v

  -- The thread of a sound slot is its controller's.
  pub own_id :
      (c : ControllerId) (p : Program D)
      → is_live ((at p.listener.slots c).worker) ≡ true
      → IsSound p
      → ((at p.listener.slots c).thread.id ≡ c) × Pending c ((at p.listener.slots c).worker)
  own_id first p w v = ground arith
  own_id second p w v = ground arith

  worker_step-IsSound :
      (c : ControllerId) (a : Answers) (w : Worker) (p : Program D)
      → All (λ s. IsPattern s.buttons) a.samples
      → (at p.listener.slots c).worker ≡ w
      → IsSound p
      → Leads (λ q ys. IsSound q) (worker_step scale key_max c a w p)
  unfolding worker_step
  worker_step-IsSound c a absent p fits e v = tt
  worker_step-IsSound c a fresh p fits e v = enter_loop-IsSound c _ p e v
  worker_step-IsSound c a polling p fits e v = elim (Bool-cases (needs_to_stop p.listener)) [
    | inl stop ↦ rw stop (detach-IsSound c p.main p refl (ap is_live e) v)
    | inr on ↦ rw on (
        after_round-IsSound c _ p e (own_id c p (ap is_live e) v).0
          (poll_round-Kept IsPattern a.samples a.now ((at p.listener.slots c).thread) fits) v)
  ]
  worker_step-IsSound c a (handling r) p fits e v =
      handle_next-IsSound c a r r.emissions p (ap is_live e)
        (subst (Pending c) e (own_id c p (ap is_live e) v).1) v
  worker_step-IsSound c a returned p fits e v = tt

  -- Every step keeps the listener sound.
  pub step-IsSound :
      (m : Move) (p : Program D)
      → Fits m
      → IsSound p
      → Leads (λ q ys. IsSound q) (step scale key_max m p)
  unfolding step
  step-IsSound (main_loop a) p fits v = main_step-IsSound a p.main p refl v
  step-IsSound (worker c a) p fits v =
      if_alive-Leads _ p.main _ (worker_step-IsSound c a _ p fits refl v)
  step-IsSound (release c) p fits v = if_alive-Leads _ p.main _ (release_device-IsSound c _ p v)
  step-IsSound (notify c) p fits v = if_alive-Leads _ p.main _ (notify_listener-IsSound c _ p v)
  step-IsSound release_awaited p fits v = release_joined-IsSound p.main p refl v
  step-IsSound notify_awaited p fits v = notify_joined-IsSound p.main p refl v
  step-IsSound interrupt p fits v = if_alive-Leads _ p.main _ (ground arith)

  pub Reach-IsSound :
      {p q : Program D} {xs : List Output} → IsSound p → Reach scale key_max p q xs → IsSound q
  Reach-IsSound = Reach-keeps scale key_max (λ p. IsSound p) step-IsSound
