-- ===== src/Program/Races.antt =====
-- psmove_listener.cpp: what a thread that has left its loop still does to the next one.
use mathlib.Core.Path.{subst}
use psmoveinput.Prelude.{ℕ, zero, suc, List, none, ◌≡◌, refl, ℤ}
use psmoveinput.Common.{ControllerId, first, second, at}
use psmoveinput.Listener.{fresh}
use psmoveinput.Program.State.{Program, Output, Answers, worker, release}
use psmoveinput.Program.Step.{went, enter_loop, release_device, worker_step, step}
use psmoveinput.Program.Reach.{Leads, if_alive-Leads, Reach}
use psmoveinput.Program.Lost.{IsLost, Lost, reach-Lost}

module _ {D : Type 0} (scale : ℤ → D → ℤ) (key_max : ℕ) where
  -- A new thread without its device.
  abbrev IsRobbed : ControllerId → Program D → Type 0
  IsRobbed c q = ((at q.listener.slots c).worker ≡ fresh) × ((at q.listener.slots c).move ≡ none)

  released-IsRobbed :
      (c : ControllerId) (n : ℕ) (p : Program D)
      → (at p.listener.slots c).worker ≡ fresh
      → Leads (λ q ys. IsRobbed c q) (release_device c n p)
  unfolding release_device
  released-IsRobbed c zero p w = tt
  released-IsRobbed first (suc n) p w = (w, refl)
  released-IsRobbed second (suc n) p w = (w, refl)

  entered-IsLost :
      (c : ControllerId) (a : Answers) (q : Program D)
      → IsRobbed c q
      → Leads (Lost c) (worker_step scale key_max c a ((at q.listener.slots c).worker) q)
  unfolding worker_step enter_loop
  entered-IsLost first a q (w, m) = rw (w, m) refl
  entered-IsLost second a q (w, m) = rw (w, m) refl

  release-IsRobbed :
      (c : ControllerId) (p : Program D)
      → (at p.listener.slots c).worker ≡ fresh
      → Leads (λ q ys. IsRobbed c q) (step scale key_max (release c) p)
  unfolding step
  release-IsRobbed c p w = if_alive-Leads _ p.main _ (released-IsRobbed c _ p w)

  robbed-IsLost :
      (c : ControllerId) (a : Answers) (q : Program D)
      → IsRobbed c q
      → Leads (Lost c) (step scale key_max (worker c a) q)
  unfolding step
  robbed-IsLost c a q r = if_alive-Leads _ q.main _ (entered-IsLost c a q r)

  -- Let a thread be started while an older one of its slot has left its loop and not yet cleared
  -- `move_`. If the older one does that before the new one makes its first step, then that step is
  -- also its last, and in every state that the program reaches from there the slot is taken by the
  -- pointer to the thread that has returned.
  pub early_start_loses_slot :
      (c : ControllerId) (a : Answers) (p q : Program D) {r t : Program D} {xs ys zs : List Output}
      → (at p.listener.slots c).worker ≡ fresh
      → step scale key_max (release c) p ≡ went q xs
      → step scale key_max (worker c a) q ≡ went r ys
      → Reach scale key_max r t zs
      → IsLost c t
  early_start_loses_slot c a p q w e e' k =
      let robbed = subst (Leads (λ q ys. IsRobbed c q)) e (release-IsRobbed c p w) in
      reach-Lost scale key_max c (subst (Leads (Lost c)) e' (robbed-IsLost c a q robbed)) k
