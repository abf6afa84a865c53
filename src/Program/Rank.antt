-- ===== src/Program/Rank.antt =====
-- psmove_listener.cpp: how many steps are left once the threads are asked to stop.
use psmoveinput.Prelude.{
  length, ℕ, ◌+◌, ◌*◌, ◌≤◌, suc, ◌<◌, true, false, List, [], Option, ◌≡◌, ◌⊎◌, arith, Bool-cases,
  inl, inr,
}
use psmoveinput.Common.{ControllerId, first, second, at}
use psmoveinput.Listener.{
  Device, Worker, absent, fresh, polling, handling, returned, is_present, needs_to_stop,
  is_full_capacity, handle_new_device, start,
}
use psmoveinput.Program.State.{
  Late, active, detached, released, ended, MainLoop, top, joining, waiting, connecting, starting,
  finished, crashed, Program, Output, Answers, Leavers, Move, interrupt,
}
use psmoveinput.Program.Step.{is_joined, after_joins, joined, started, main_step}
use psmoveinput.Program.Outputs.{has_reset}
use psmoveinput.Program.Reach.{Leads}

abbrev pub late_rank : Late → ℕ
late_rank active = 3
late_rank detached = 2
late_rank released = 1
late_rank ended = 0

abbrev pub main_rank : MainLoop → ℕ
main_rank top = 11
main_rank (joining first) = 10
main_rank (joining second) = 5
main_rank (waiting first late) = 6 + late_rank late
main_rank (waiting second late) = 1 + late_rank late
main_rank connecting = 17
main_rank (starting i device) = 16
main_rank finished = 0
main_rank crashed = 0

abbrev pub worker_rank : Worker → ℕ
worker_rank absent = 0
worker_rank fresh = 4
worker_rank polling = 3
worker_rank (handling r) = 4 + length r.emissions
worker_rank returned = 0

-- The reports that a thread still has to make of its round.
abbrev pub pending : Worker → ℕ
pending (handling r) = length r.emissions
pending _ = 0

-- Each thread that nobody waits for has one or two steps left.
abbrev pub leavers_rank : Leavers → ℕ
leavers_rank v = 2 * v.detached + v.released

-- What bounds the steps after a request: those of the main loop and of the threads in their loops,
-- with the reports that these still have to make, and those of the threads that have left theirs.
abbrev pub steps_left : {D : Type 0} → Program D → ℕ
steps_left p =
    25
    + (pending p.listener.slots.fst.worker + pending p.listener.slots.snd.worker)
    + (leavers_rank p.leavers.fst + leavers_rank p.leavers.snd)

-- A step of the program itself.
abbrev pub IsOwn : Move → Type 0
IsOwn interrupt = ⊥
IsOwn _ = Unit {0}

module _ {D : Type 0} where
  abbrev pub rank : Program D → ℕ
  rank p =
      main_rank p.main
      + (worker_rank p.listener.slots.fst.worker + worker_rank p.listener.slots.snd.worker)
      + (leavers_rank p.leavers.fst + leavers_rank p.leavers.snd)

  -- The program goes on with a lower rank and the same requests, or it resets the handler.
  abbrev pub Cools : Program D → Program D → List Output → Type 0
  Cools p q ys =
      (q.listener.stop ≡ p.listener.stop)
      × (((q.main ≡ crashed → p.main ≡ crashed)
            × (has_reset ys ≡ false)
            × (needs_to_stop q.listener ≡ true)
            × (rank q < rank p))
          ⊎ ((has_reset ys ≡ true) × (p.listener.stop ≡ false)))

  -- `main_rank` is above that of the second `join`, for the first thread, or above 0.
  joined-Cools :
      (c : ControllerId) (p : Program D)
      → main_rank (joining c) ≤ suc (suc (suc (suc (main_rank p.main))))
      → needs_to_stop p.listener ≡ true
      → Leads (Cools p) (joined c p)
  unfolding after_joins
  joined-Cools first p e n = ground arith
  joined-Cools second p e n = ground arith

  started-Cools :
      (o : Option Device) (i : ℕ) (p : Program D)
      → p.main ≡ connecting
      → needs_to_stop p.listener ≡ true
      → Leads (Cools p) (started o i p)
  started-Cools o i p e n = ground arith

  starting-Cools :
      (i : ℕ) (device : Device) (p : Program D)
      → p.main ≡ starting i device
      → needs_to_stop p.listener ≡ true
      → Cools p (record p { main = top; listener = handle_new_device i device p.listener }) []
  unfolding handle_new_device start
  starting-Cools i device p e n = ground arith

  pub main_step-Cools :
      (a : Answers) (m : MainLoop) (p : Program D)
      → p.main ≡ m
      → needs_to_stop p.listener ≡ true
      → Leads (Cools p) (main_step a m p)
  unfolding main_step
  main_step-Cools a top p e n = ground arith
  main_step-Cools a (joining c) p e n =
      elim (Bool-cases (is_present ((at p.listener.slots c).worker))) [
        | inl there ↦ rw there (ground arith)
        | inr gone ↦ rw gone (joined-Cools c p (ground arith) n)
      ]
  main_step-Cools a (waiting c late) p e n =
      elim (Bool-cases (is_joined late ((at p.listener.slots c).worker))) [
        | inl j ↦ rw j (joined-Cools c p (ground arith) n)
        | inr j ↦ rw j tt
      ]
  main_step-Cools a connecting p e n = elim (Bool-cases (is_full_capacity p.listener)) [
    | inl full ↦ rw full (ground arith)
    | inr free ↦ rw free (started-Cools _ _ p e n)
  ]
  main_step-Cools a (starting i device) p e n = starting-Cools i device p e n
  main_step-Cools a finished p e n = tt
  main_step-Cools a crashed p e n = tt
