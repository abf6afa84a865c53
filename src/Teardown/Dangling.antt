-- ===== src/Teardown/Dangling.antt =====
-- psmoveinput.cpp: what is touched after the instance has been deleted.
use mathlib.Core.Path.{subst}
use psmoveinput.Prelude.{
  List, [], ◌∷◌, ℕ, zero, suc, false, ◌≡◌, ◌⊎◌, inl, inr, refl, sym, arith, ℤ, ◌≢◌, ap, ◌∙◌,
}
use psmoveinput.Common.{ControllerId, first, second, at}
use psmoveinput.Listener.{Worker, absent, fresh, polling, handling, returned}
use psmoveinput.Config.{Config}
use psmoveinput.Program.{
  Program, Answers, main_loop, worker, release, notify, release_awaited, notify_awaited, interrupt,
  Outcome, blocked, if_alive, step, worker_step, finished, release_device, notify_listener,
  release_joined, notify_joined, main_step,
}
use psmoveinput.Program.Sound.{IsSound, is_live}
use psmoveinput.Teardown.Objects.{Object, slot_object, listener_object, Memory, nothing_left}
use psmoveinput.Teardown.Phases.{
  down, Action, moves, deletes, Result, dangles, dangles_in_destructor, act, touched, outlives,
}
use psmoveinput.Teardown.Run.{Comes, Comes-Sound, none_there}

module _ {D : Type 0} (scale : ℤ → D → ℤ) (key_max : ℕ) (memory : ℤ) (c : Config D) where
  -- Where an action uses what is gone, it is a step of a thread that has left its loop without being
  -- waited for: it writes to its slot, or then calls the listener.
  abbrev pub IsLate : Program D → Action → List Object → Type 0
  IsLate p x os =
      (d : ControllerId) × ((x ≡ moves (release d))
          × ((at p.leavers d).detached ≢ 0)
          × (os ≡ slot_object d ∷ [])
        ⊎ (x ≡ moves (notify d))
          × ((at p.leavers d).released ≢ 0)
          × (os ≡ slot_object d ∷ listener_object ∷ []))

  abbrev pub ByLeaver : Program D → Action → Result D → Type 0
  ByLeaver p x (dangles os) = IsLate p x os
  ByLeaver p x dangles_in_destructor = ⊥
  ByLeaver p x _ = Unit {0}

  blocked_ByLeaver :
      (p : Program D) (x : Action) (os : List Object) (r : Outcome D)
      → r ≡ blocked
      → ByLeaver p x (outlives p nothing_left os r)
  blocked_ByLeaver p x os r e = rw e tt

  not_live :
      (d : ControllerId) (a : Answers) (w : Worker) (p : Program D)
      → is_live w ≡ false
      → worker_step scale key_max d a w p ≡ blocked
  unfolding worker_step
  not_live d a absent p e = refl
  not_live d a fresh p e = absurd (ground arith)
  not_live d a polling p e = absurd (ground arith)
  not_live d a (handling r) p e = absurd (ground arith)
  not_live d a returned p e = refl

  no_step :
      (d : ControllerId) (a : Answers) (p : Program D)
      → p.main ≡ finished
      → is_live ((at p.listener.slots d).worker) ≡ false
      → step scale key_max (worker d a) p ≡ blocked
  unfolding step
  no_step d a p e w =
      let o = worker_step scale key_max d a (at p.listener.slots d).worker p in
      ap (λ m. if_alive m o) e ∙ not_live d a _ p w

  release_alone :
      (d : ControllerId) (p : Program D)
      → p.main ≡ finished
      → step scale key_max (release d) p ≡ release_device d ((at p.leavers d).detached) p
  unfolding step
  release_alone d p e = ap (λ m. if_alive m (release_device d ((at p.leavers d).detached) p)) e

  notify_alone :
      (d : ControllerId) (p : Program D)
      → p.main ≡ finished
      → step scale key_max (notify d) p ≡ notify_listener d ((at p.leavers d).released) p
  unfolding step
  notify_alone d p e = ap (λ m. if_alive m (notify_listener d ((at p.leavers d).released) p)) e

  -- The two steps of a leaver, if there is one.
  release_cases :
      (d : ControllerId) (n : ℕ) (p : Program D)
      → ((n ≡ 0) × (release_device d n p ≡ blocked))
        ⊎ ((n ≢ 0)
            × (outlives p nothing_left (slot_object d ∷ []) (release_device d n p)
                ≡ dangles (slot_object d ∷ [])))
  unfolding release_device
  release_cases d zero p = inl (refl, refl)
  release_cases d (suc n) p =
      inr (λ z. absurd (omega (arith, z)), rw (none_there (slot_object d ∷ [])) refl)

  notify_cases :
      (d : ControllerId) (n : ℕ) (p : Program D)
      → ((n ≡ 0) × (notify_listener d n p ≡ blocked))
        ⊎ ((n ≢ 0)
            × (outlives p nothing_left
                  (slot_object d ∷ listener_object ∷ [])
                  (notify_listener d n p)
                ≡ dangles (slot_object d ∷ listener_object ∷ [])))
  unfolding notify_listener
  notify_cases d zero p = inl (refl, refl)
  notify_cases d (suc n) p =
      inr (
        λ z. absurd (omega (arith, z)),
        rw (none_there (slot_object d ∷ listener_object ∷ [])) refl,
      )

  release_ByLeaver :
      (d : ControllerId) (p : Program D)
      → p.main ≡ finished
      → ByLeaver p
          (moves (release d))
          (outlives p nothing_left (slot_object d ∷ []) (step scale key_max (release d) p))
  release_ByLeaver d p e = elim (release_cases d ((at p.leavers d).detached) p) [
    | inl (z, none_left) ↦ blocked_ByLeaver p _ _ _ (release_alone d p e ∙ none_left)
    | inr (nz, falls) ↦
        subst (ByLeaver p (moves (release d)))
          (sym (ap (outlives p nothing_left (slot_object d ∷ [])) (release_alone d p e) ∙ falls))
          (d, inl (refl, nz, refl))
  ]

  notify_ByLeaver :
      (d : ControllerId) (p : Program D)
      → p.main ≡ finished
      → ByLeaver p (moves (notify d)) (
          outlives p nothing_left
            (slot_object d ∷ listener_object ∷ [])
            (step scale key_max (notify d) p))
  notify_ByLeaver d p e = elim (notify_cases d ((at p.leavers d).released) p) [
    | inl (z, none_left) ↦ blocked_ByLeaver p _ _ _ (notify_alone d p e ∙ none_left)
    | inr (nz, falls) ↦
        subst (ByLeaver p (moves (notify d)))
          (sym (
            ap (outlives p nothing_left (slot_object d ∷ listener_object ∷ [])) (notify_alone d p e)
            ∙ falls))
          (d, inr (refl, nz, refl))
  ]

  gone_ByLeaver :
      (x : Action) (p : Program D)
      → IsSound p
      → p.main ≡ finished
      → ByLeaver p x (act scale key_max x (down p nothing_left))
  unfolding act touched step main_step release_joined notify_joined
  gone_ByLeaver deletes p v e = tt
  gone_ByLeaver (moves (main_loop a)) p v e = rw e tt
  gone_ByLeaver (moves (worker first a)) p v e =
      blocked_ByLeaver p _ _ _ (no_step first a p e (ground arith))
  gone_ByLeaver (moves (worker second a)) p v e =
      blocked_ByLeaver p _ _ _ (no_step second a p e (ground arith))
  gone_ByLeaver (moves (release d)) p v e = release_ByLeaver d p e
  gone_ByLeaver (moves (notify d)) p v e = notify_ByLeaver d p e
  gone_ByLeaver (moves release_awaited) p v e = rw e tt
  gone_ByLeaver (moves notify_awaited) p v e = rw e tt
  gone_ByLeaver (moves interrupt) p v e = tt

  all_ByLeaver :
      {p : Program D} {m : Memory} (x : Action)
      → Comes scale key_max memory c (down p m)
      → ByLeaver p x (act scale key_max x (down p m))
  all_ByLeaver {p = p} x r =
      let (v, e, left) = Comes-Sound scale key_max memory c r in
      subst (λ (n : Memory). ByLeaver p x (act scale key_max x (down p n))) (sym left)
        (gone_ByLeaver x p v e)

  late_release :
      (d : ControllerId) (p : Program D)
      → p.main ≡ finished
      → (at p.leavers d).detached ≢ 0
      → act scale key_max (moves (release d)) (down p nothing_left) ≡ dangles (slot_object d ∷ [])
  unfolding act touched
  late_release d p e nz = elim (release_cases d ((at p.leavers d).detached) p) [
    | inl (z, none_left) ↦ absurd (nz z)
    | inr (_, falls) ↦
        ap (outlives p nothing_left (slot_object d ∷ [])) (release_alone d p e) ∙ falls
  ]

  late_notify :
      (d : ControllerId) (p : Program D)
      → p.main ≡ finished
      → (at p.leavers d).released ≢ 0
      → act scale key_max (moves (notify d)) (down p nothing_left)
        ≡ dangles (slot_object d ∷ listener_object ∷ [])
  unfolding act touched
  late_notify d p e nz = elim (notify_cases d ((at p.leavers d).released) p) [
    | inl (z, none_left) ↦ absurd (nz z)
    | inr (_, falls) ↦
        ap (outlives p nothing_left (slot_object d ∷ listener_object ∷ [])) (notify_alone d p e)
        ∙ falls
  ]

  -- What an action does once the instance is gone does not depend on what was noted of the memory.
  emptied :
      (p : Program D) {m : Memory}
      → m ≡ nothing_left
      → (x : Action) (r : Result D) → act scale key_max x (down p nothing_left) ≡ r
      → act scale key_max x (down p m) ≡ r
  emptied p left x r e = ap (λ (n : Memory). act scale key_max x (down p n)) left ∙ e

  -- In every phase that the program reaches after main has deleted the instance: if a step uses the
  -- listener or a slot though it is gone, it is the step of a thread that had left its loop without
  -- the main loop waiting for it. Either the thread then frees its device, and uses its slot, or it
  -- has done so and calls the listener, and uses its slot and the listener. And if there is such a
  -- thread, this step of it is possible.
  pub only_leavers_dangle :
      {p : Program D} {m : Memory}
      → Comes scale key_max memory c (down p m)
      → ((x : Action) (os : List Object)
          → act scale key_max x (down p m) ≡ dangles os
          → (d : ControllerId) × ((x ≡ moves (release d))
                × ((at p.leavers d).detached ≢ 0)
                × (os ≡ slot_object d ∷ [])
              ⊎ (x ≡ moves (notify d))
                × ((at p.leavers d).released ≢ 0)
                × (os ≡ slot_object d ∷ listener_object ∷ [])))
        × ((d : ControllerId)
            → ((at p.leavers d).detached ≢ 0
                → act scale key_max (moves (release d)) (down p m) ≡ dangles (slot_object d ∷ []))
              × ((at p.leavers d).released ≢ 0
                  → act scale key_max (moves (notify d)) (down p m)
                    ≡ dangles (slot_object d ∷ listener_object ∷ [])))
  only_leavers_dangle {p = p} r =
      let (v, e, left) = Comes-Sound scale key_max memory c r in
      (
        λ x os falls. subst (ByLeaver p x) falls (all_ByLeaver x r),
        λ d. (
          λ nz. emptied p left _ _ (late_release d p e nz),
          λ nz. emptied p left _ _ (late_notify d p e nz),
        ),
      )
