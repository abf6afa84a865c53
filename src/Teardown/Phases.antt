-- ===== src/Teardown/Phases.antt =====
-- psmoveinput.cpp: the program before and after `releaseRef` deletes the instance. The threads are not
-- asked: those that are still at work go on.
use psmoveinput.Common.{first, second}
use psmoveinput.Prelude.{List, [], ◌∷◌, ℕ, true, Option, none, some, if◌then◌else◌, ℤ}
use psmoveinput.Listener.{is_present}
use psmoveinput.Program.{
  Program, Move, MainLoop, main_loop, worker, release, notify, release_awaited, notify_awaited,
  interrupt, waiting, finished,
}
use psmoveinput.Program.{Outcome, blocked, went, step}
use psmoveinput.Teardown.Objects.{
  Object, listener_object, slot_object, Memory, is_there, does, Parts, made, destroy_instance,
}

-- `up`: the instance is there. `down`: it has been deleted, and the threads stand where they stood.
pub data Phase (D : Type 0) : Type 0 where
  up : Program D → Phase D
  down : Program D → Memory → Phase D

-- A step of the program, or the `delete` of main's `releaseRef`.
pub data Action : Type 0 where
  moves : Move → Action
  deletes : Action

-- `stuck`: impossible. `dangles`: these objects are used, and are not there any more.
pub data Result (D : Type 0) : Type 0 where
  stuck : Result D
  gets : Phase D → Result D
  dangles : List Object → Result D
  dangles_in_destructor : Result D

-- Of the listener and its slots, those whose members a step uses. `onDisconnect` is called through the
-- pointer that the slot keeps, and locks the listener's mutex.
unfoldable pub touched : Move → MainLoop → List Object
touched (main_loop a) m = listener_object ∷ slot_object first ∷ slot_object second ∷ []
touched (worker c a) m = slot_object c ∷ listener_object ∷ []
touched (release c) m = slot_object c ∷ []
touched (notify c) m = slot_object c ∷ listener_object ∷ []
touched release_awaited (waiting c late) = slot_object c ∷ []
touched notify_awaited (waiting c late) = slot_object c ∷ listener_object ∷ []
touched _ m = listener_object ∷ []

-- Those of the objects that are not there.
unfoldable pub missing : List Object → Memory → List Object
missing [] m = []
missing (o ∷ os) m = let rest = missing os m in if is_there o m then rest else o ∷ rest

module _ {D : Type 0} where
  -- At the end of `run` all parts are there.
  abbrev pub parts_of : Program D → Parts
  parts_of p = record {
    log = true;
    device = true;
    handler = true;
    listener = true;
    threads = record {
      fst = is_present p.listener.slots.fst.worker;
      snd = is_present p.listener.slots.snd.worker;
    };
  }

  abbrev pub deleted : Program D → Option Memory → Result D
  deleted p none = dangles_in_destructor
  deleted p (some m) = gets (down p m)

  -- `main` deletes the instance when `run` has returned.
  unfoldable pub delete_instance : Program D → MainLoop → Result D
  delete_instance p finished = deleted p (does (destroy_instance (parts_of p)) (made (parts_of p)))
  delete_instance p _ = stuck

  abbrev pub still_up : Outcome D → Result D
  still_up blocked = stuck
  still_up (went q ys) = gets (up q)

  -- What a thread does is done to what is left of the instance.
  abbrev pub survives : Phase D → List Object → Result D
  survives ph [] = gets ph
  survives ph (o ∷ os) = dangles (o ∷ os)

  abbrev pub outlives : Program D → Memory → List Object → Outcome D → Result D
  outlives p m os blocked = stuck
  outlives p m os (went q ys) = survives (down q m) (missing os m)

module _ {D : Type 0} (scale : ℤ → D → ℤ) (key_max : ℕ) where
  -- A signal that comes after the deletion gets an instance of its own, with no listener to stop.
  unfoldable pub act : Action → Phase D → Result D
  act deletes (up p) = delete_instance p p.main
  act deletes (down p m) = stuck
  act (moves m) (up p) = still_up (step scale key_max m p)
  act (moves interrupt) (down p m) = gets (down p m)
  act (moves m) (down p memory) = outlives p memory (touched m p.main) (step scale key_max m p)
