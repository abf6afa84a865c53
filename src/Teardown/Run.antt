-- ===== src/Teardown/Run.antt =====
-- psmoveinput.cpp: the phases that the program reaches from its start, past the end of main.
use mathlib.Core.Path.{subst}
use psmoveinput.Prelude.{List, [], ◌∷◌, ℕ, ◌≡◌, refl, sym, arith, ℤ, ap}
use psmoveinput.Config.{Config}
use psmoveinput.Program.{
  Program, Output, main_loop, worker, release, notify, release_awaited, notify_awaited, interrupt,
  Outcome, blocked, went, MainLoop, top, joining, waiting, connecting, starting, finished, crashed,
}
use psmoveinput.Program.Launch.{launch}
use psmoveinput.Program.Reach.{Leads, Fits, here, later}
use psmoveinput.Program.Sound.{IsSound}
use psmoveinput.Program.Workers.{step-IsSound}
use psmoveinput.Program.Reached.{Reached, launch-IsSound}
use psmoveinput.Teardown.Objects.{Object, Memory, nothing_left, is_there}
use psmoveinput.Teardown.Phases.{
  Phase, up, down, Action, moves, deletes, Result, gets, act, touched, missing, delete_instance,
  still_up, outlives, parts_of,
}
use psmoveinput.Teardown.Freed.{destroy_frees_all}

-- Where an action is possible, its next phase has Q.
abbrev pub Gets : {D : Type 0} → (Phase D → Type 0) → Result D → Type 0
Gets Q (gets ph) = Q ph
Gets Q _ = Unit {0}

abbrev pub ActionFits : Action → Type 0
ActionFits (moves m) = Fits m
ActionFits deletes = Unit {0}

pub none_there : (os : List Object) → missing os nothing_left ≡ os
unfolding missing is_there
none_there [] = refl
none_there (o ∷ os) = ground (arith, none_there os)

module _ {D : Type 0} (scale : ℤ → D → ℤ) (key_max : ℕ) (memory : ℤ) (c : Config D) where
  -- The phases that the program reaches from its start, also past the end of main.
  pub data Comes : Phase D → Type 0 where
    begins : Comes (up (launch key_max memory c).0)
    goes :
        {ph ph' : Phase D}
        → Comes ph
        → (x : Action) → ActionFits x
        → act scale key_max x ph ≡ gets ph'
        → Comes ph'

  -- The program is sound; once the instance is deleted, nothing of it is left, and the main loop has
  -- returned.
  abbrev pub PhaseSound : Phase D → Type 0
  PhaseSound (up p) = IsSound p
  PhaseSound (down p m) = IsSound p × (p.main ≡ finished) × (m ≡ nothing_left)

  delete-Sound :
      (p : Program D) (m : MainLoop)
      → p.main ≡ m
      → IsSound p
      → Gets PhaseSound (delete_instance p m)
  unfolding delete_instance
  delete-Sound p finished e v = rw (destroy_frees_all (parts_of p)) (v, e, refl)
  delete-Sound p top e v = tt
  delete-Sound p (joining d) e v = tt
  delete-Sound p (waiting d late) e v = tt
  delete-Sound p connecting e v = tt
  delete-Sound p (starting i device) e v = tt
  delete-Sound p crashed e v = tt

  up-Sound : (o : Outcome D) → Leads (λ q ys. IsSound q) o → Gets PhaseSound (still_up o)
  up-Sound blocked k = tt
  up-Sound (went q ys) k = k

  -- With nothing left, a step of the program is not possible, or it dangles.
  dead :
      (p : Program D) (o : Object) (os : List Object) (r : Outcome D)
      → Gets PhaseSound (outlives p nothing_left (o ∷ os) r)
  dead p o os blocked = tt
  dead p o os (went q ys) = rw (none_there (o ∷ os)) tt

  gone_Sound :
      (x : Action) (p : Program D)
      → IsSound p
      → p.main ≡ finished
      → Gets PhaseSound (act scale key_max x (down p nothing_left))
  unfolding act touched
  gone_Sound deletes p v e = tt
  gone_Sound (moves (main_loop a)) p v e = dead p _ _ _
  gone_Sound (moves (worker d a)) p v e = dead p _ _ _
  gone_Sound (moves (release d)) p v e = dead p _ _ _
  gone_Sound (moves (notify d)) p v e = dead p _ _ _
  gone_Sound (moves release_awaited) p v e = rw e (dead p _ _ _)
  gone_Sound (moves notify_awaited) p v e = rw e (dead p _ _ _)
  gone_Sound (moves interrupt) p v e = (v, e, refl)

  act-Sound :
      (x : Action) (ph : Phase D)
      → ActionFits x
      → PhaseSound ph
      → Gets PhaseSound (act scale key_max x ph)
  unfolding act
  act-Sound deletes (up p) fits v = delete-Sound p p.main refl v
  act-Sound (moves m) (up p) fits v = up-Sound _ (step-IsSound scale key_max m p fits v)
  act-Sound x (down p m) fits (v, e, left) =
      subst (λ (n : Memory). Gets PhaseSound (act scale key_max x (down p n))) (sym left)
        (gone_Sound x p v e)

  pub Comes-Sound : {ph : Phase D} → Comes ph → PhaseSound ph
  Comes-Sound begins = launch-IsSound scale key_max memory c
  Comes-Sound (goes r x fits e) = subst (Gets PhaseSound) e (act-Sound x _ fits (Comes-Sound r))

  -- What the program reaches while the instance is there.
  unfoldable pub Reach-Comes :
      {q : Program D} {xs : List Output} → Reached scale key_max memory c q xs → Comes (up q)
  unfolding act
  Reach-Comes here = begins
  Reach-Comes (later {q = q} {r = r} s m fits e) =
      goes (Reach-Comes s) (moves m) fits (ap still_up e)
