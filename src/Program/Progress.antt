-- ===== src/Program/Progress.antt =====
-- psmove_listener.cpp: a step that the program can make next.
use mathlib.Core.Path.{subst}
use psmoveinput.Prelude.{
  ℕ, true, false, List, Option, none, some, ◌≡◌, ◌≢◌, refl, arith, ℤ, Bool-cases, inl, inr, All,
  if◌then◌else◌,
}
use mathlib.Core.Path.{sym}
use psmoveinput.Common.{ControllerId, first, second, at}
use psmoveinput.Listener.{
  Device, Worker, absent, fresh, polling, handling, returned, is_present, is_full_capacity, Sample,
}
use psmoveinput.Program.State.{
  Late, active, detached, released, ended, MainLoop, top, joining, waiting, connecting, starting,
  finished, crashed, Program, Output, Answers, Move, main_loop, worker, release_awaited,
  notify_awaited,
}
use psmoveinput.Program.Step.{
  Outcome, went, is_joined, after_joins, joined, started, main_step, release_joined, notify_joined,
  step,
}
use psmoveinput.Program.Reach.{IsPattern, Fits}
use psmoveinput.Program.Rank.{IsOwn}
use psmoveinput.Program.Sound.{IsSound, is_live}

-- The main loop goes on, or the thread that it waits for.
abbrev pub next_in : Answers → MainLoop → (ControllerId → Worker) → Move
next_in a (waiting c active) w = if is_joined active (w c) then main_loop a else worker c a
next_in a (waiting c detached) w = release_awaited
next_in a (waiting c released) w = notify_awaited
next_in a _ w = main_loop a

module _ {D : Type 0} where
  unfoldable pub next : Answers → Program D → Move
  next a p = next_in a p.main (λ c. (at p.listener.slots c).worker)

  -- The step is possible.
  abbrev pub Goes : Outcome D → Type 0
  Goes o = (q : Program D) × (ys : List Output) × (o ≡ went q ys)

module _ {D : Type 0} (scale : ℤ → D → ℤ) (key_max : ℕ) where
  joined-Goes : (c : ControllerId) (p : Program D) → Goes (joined c p)
  unfolding after_joins
  joined-Goes first p = (_, _, refl)
  joined-Goes second p = elim (Bool-cases p.listener.stop) [
    | inl e ↦ rw e (_, _, refl)
    | inr e ↦ rw e (_, _, refl)
  ]

  started-Goes : (o : Option Device) (i : ℕ) (p : Program D) → Goes (started o i p)
  started-Goes none i p = (_, _, refl)
  started-Goes (some device) i p = (_, _, refl)

  connecting-Goes : (a : Answers) (p : Program D) → Goes (main_step a connecting p)
  unfolding main_step
  connecting-Goes a p = elim (Bool-cases (is_full_capacity p.listener)) [
    | inl full ↦ rw full (_, _, refl)
    | inr free ↦ rw free (started-Goes _ _ p)
  ]

  joining-Goes : (a : Answers) (c : ControllerId) (p : Program D) → Goes (main_step a (joining c) p)
  unfolding main_step
  joining-Goes a c p = elim (Bool-cases (is_present ((at p.listener.slots c).worker))) [
    | inl there ↦ rw there (_, _, refl)
    | inr gone ↦ rw gone (joined-Goes c p)
  ]

  -- A thread that is there and has not returned is before its loop or in it.
  there-IsLive : (w : Worker) → is_present w ≡ true → is_joined active w ≡ false → is_live w ≡ true
  there-IsLive absent e j = absurd (ground arith)
  there-IsLive fresh e j = refl
  there-IsLive polling e j = refl
  there-IsLive (handling r) e j = refl
  there-IsLive returned e j = absurd (ground arith)

  joined_thread-Goes :
      (c : ControllerId) (late : Late) (a : Answers) (p : Program D)
      → is_joined late ((at p.listener.slots c).worker) ≡ true
      → Goes (main_step a (waiting c late) p)
  unfolding main_step
  joined_thread-Goes c late a p j = rw j (joined-Goes c p)

  main_loop-Goes :
      (a : Answers) (m : MainLoop) (p : Program D)
      → p.main ≡ m
      → Goes (main_step a m p)
      → Goes (step scale key_max (main_loop a) p)
  unfolding step
  main_loop-Goes a m p e g = subst (λ k. Goes (main_step a k p)) (sym e) g

  is_there :
      (c : ControllerId) (p : Program D)
      → p.main ≡ waiting c active
      → IsSound p
      → is_present ((at p.listener.slots c).worker) ≡ true
  is_there first p e v = ground arith
  is_there second p e v = ground arith

  -- Each thread before its loop or in it can make its next step.
  abbrev pub ThreadsGo : Answers → Program D → Type 0
  ThreadsGo a p =
      (c : ControllerId)
      → is_live ((at p.listener.slots c).worker) ≡ true
      → Goes (step scale key_max (worker c a) p)

  awaited-Goes :
      (c : ControllerId) (a : Answers) (p : Program D)
      → p.main ≡ waiting c active
      → IsSound p
      → ThreadsGo a p
      → Goes (
          step scale key_max
            (if is_joined active ((at p.listener.slots c).worker) then main_loop a else worker c a)
            p)
  awaited-Goes c a p e v threads =
      elim (Bool-cases (is_joined active ((at p.listener.slots c).worker))) [
        | inl j ↦ rw j (main_loop-Goes a (waiting c active) p e (joined_thread-Goes c active a p j))
        | inr j ↦ rw j (threads c (there-IsLive _ (is_there c p e v) j))
      ]

  release-Goes :
      (c : ControllerId) (p : Program D)
      → p.main ≡ waiting c detached
      → Goes (step scale key_max release_awaited p)
  unfolding step release_joined
  release-Goes c p e = subst (λ k. Goes (release_joined k p)) (sym e) (_, _, refl)

  notify-Goes :
      (c : ControllerId) (p : Program D)
      → p.main ≡ waiting c released
      → Goes (step scale key_max notify_awaited p)
  unfolding step notify_joined
  notify-Goes c p e = subst (λ k. Goes (notify_joined k p)) (sym e) (_, _, refl)

  ended-Goes :
      (c : ControllerId) (a : Answers) (p : Program D)
      → p.main ≡ waiting c ended
      → Goes (step scale key_max (main_loop a) p)
  ended-Goes c a p e = main_loop-Goes a (waiting c ended) p e (joined_thread-Goes c ended a p refl)

  next_in-Goes :
      (a : Answers) (m : MainLoop) (p : Program D)
      → p.main ≡ m
      → IsSound p
      → ThreadsGo a p
      → m ≢ crashed
      → m ≢ finished
      → Goes (step scale key_max (next_in a m (λ c. (at p.listener.slots c).worker)) p)
  unfolding main_step
  next_in-Goes a top p e v threads alive going = main_loop-Goes a top p e (_, _, refl)
  next_in-Goes a (joining c) p e v threads alive going =
      main_loop-Goes a (joining c) p e (joining-Goes a c p)
  next_in-Goes a (waiting c active) p e v threads alive going = awaited-Goes c a p e v threads
  next_in-Goes a (waiting c detached) p e v threads alive going = release-Goes c p e
  next_in-Goes a (waiting c released) p e v threads alive going = notify-Goes c p e
  next_in-Goes a (waiting c ended) p e v threads alive going = ended-Goes c a p e
  next_in-Goes a connecting p e v threads alive going =
      main_loop-Goes a connecting p e (connecting-Goes a p)
  next_in-Goes a (starting i device) p e v threads alive going =
      main_loop-Goes a (starting i device) p e (_, _, refl)
  next_in-Goes a finished p e v threads alive going = absurd (going refl)
  next_in-Goes a crashed p e v threads alive going = absurd (alive refl)

  -- Where the threads can go on, the main loop goes on or the thread that it waits for.
  pub next-Goes :
      (a : Answers) (p : Program D)
      → IsSound p
      → ThreadsGo a p
      → p.main ≢ crashed
      → p.main ≢ finished
      → Goes (step scale key_max (next a p) p)
  unfolding next
  next-Goes a p v threads alive going = next_in-Goes a p.main p refl v threads alive going

  -- It is a step of the program itself.
  pub next-IsOwn : (a : Answers) (p : Program D) → IsOwn (next a p)
  unfolding next
  next-IsOwn a p = ground arith

  next_in-Fits :
      (a : Answers) (m : MainLoop) (w : ControllerId → Worker)
      → All (λ (s : Sample). IsPattern s.buttons) a.samples
      → Fits (next_in a m w)
  next_in-Fits a (waiting c active) w fits = elim (Bool-cases (is_joined active (w c))) [
    | inl j ↦ rw j tt
    | inr j ↦ rw j fits
  ]
  next_in-Fits a (waiting c detached) w fits = tt
  next_in-Fits a (waiting c released) w fits = tt
  next_in-Fits a (waiting c ended) w fits = tt
  next_in-Fits a top w fits = tt
  next_in-Fits a (joining c) w fits = tt
  next_in-Fits a connecting w fits = tt
  next_in-Fits a (starting i device) w fits = tt
  next_in-Fits a finished w fits = tt
  next_in-Fits a crashed w fits = tt

  pub next-Fits :
      (a : Answers) (p : Program D)
      → All (λ (s : Sample). IsPattern s.buttons) a.samples
      → Fits (next a p)
  unfolding next
  next-Fits a p fits = next_in-Fits a p.main _ fits
