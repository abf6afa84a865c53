-- ===== src/Program/Sound.antt =====
-- psmove_listener.cpp: what holds of the listener and its main loop between two steps.
use psmoveinput.Prelude.{
  ℕ, ◌+◌, zero, suc, ◌<◌, Bool, true, false, Option, none, some, ◌≡◌, ◌≢◌, refl, arith, ◌⊎◌,
  Bool-cases, inl, inr,
}
use psmoveinput.Common.{ControllerId, first, second, at, max_controllers}
use psmoveinput.Listener.{
  Device, Slot, Worker, absent, fresh, polling, handling, Listener, is_present, is_full_capacity,
  is_taken, needs_to_stop, start, handle_new_device, connect, connect_from, Connection,
}
use psmoveinput.Listener.Kept.{AreEmitted}
use psmoveinput.Program.State.{
  Late, active, detached, released, ended, MainLoop, top, joining, waiting, connecting, starting,
  finished, crashed, Program, Answers,
}
use psmoveinput.Program.Step.{is_joined, after_joins, joined, started, main_step}
use psmoveinput.Program.Reach.{Leads, IsPattern}

-- A thread before its loop or in it.
abbrev pub is_live : Worker → Bool
is_live fresh = true
is_live polling = true
is_live (handling r) = true
is_live _ = false

-- A thread that is there has an id below the maximum, the controller of its slot, and the listener's
-- timeouts.
abbrev pub SlotSound : ControllerId → Listener → Slot → Type 0
SlotSound c l s =
    (s.worker ≡ absent)
    ⊎ ((s.psmove_id < max_controllers)
        × (s.thread.id ≡ c)
        × (s.thread.poll_timeout ≡ l.poll_timeout)
        × (s.thread.led_timeout ≡ l.led_timeout)
        × (s.thread.gesture_timeout ≡ l.gesture_timeout))

-- The emissions that a thread still has to make are its controller's, with buttons of 32 bits.
abbrev pub Pending : ControllerId → Worker → Type 0
Pending c (handling r) = AreEmitted IsPattern c r.emissions
Pending c _ = Unit {0}

-- What the place of the main loop says about the threads, from the first `join` to the last.
abbrev pub JoinSound : Listener → MainLoop → Type 0
JoinSound l (joining second) = is_live l.slots.fst.worker ≡ false
JoinSound l (waiting first active) = is_present l.slots.fst.worker ≡ true
JoinSound l (waiting first late) = l.slots.fst.worker ≡ absent
JoinSound l (waiting second active) =
    (is_live l.slots.fst.worker ≡ false) × (is_present l.slots.snd.worker ≡ true)
JoinSound l (waiting second late) =
    (is_live l.slots.fst.worker ≡ false) × (l.slots.snd.worker ≡ absent)
JoinSound l _ = Unit {0}

-- The same for all places. The joins are for a request to stop.
abbrev pub MainSound : Listener → MainLoop → Type 0
MainSound l (joining c) = (needs_to_stop l ≡ true) × JoinSound l (joining c)
MainSound l (waiting c late) = (needs_to_stop l ≡ true) × JoinSound l (waiting c late)
MainSound l (starting i device) =
    (i < max_controllers)
    × ((l.slots.fst.worker ≡ absent) ⊎ (l.slots.fst.psmove_id ≢ i))
    × ((l.slots.snd.worker ≡ absent) ⊎ (l.slots.snd.psmove_id ≢ i))
MainSound l finished =
    (l.stop ≡ true) × (is_live l.slots.fst.worker ≡ false) × (is_live l.slots.snd.worker ≡ false)
MainSound l _ = Unit {0}

pub record IsSound {D : Type 0} (p : Program D) : Type 0 where
  pub fst_slot : SlotSound first p.listener p.listener.slots.fst
  pub snd_slot : SlotSound second p.listener p.listener.slots.snd
  pub ids_differ :
      (p.listener.slots.fst.worker ≡ absent)
      ⊎ (p.listener.slots.snd.worker ≡ absent)
      ⊎ (p.listener.slots.fst.psmove_id ≢ p.listener.slots.snd.psmove_id)
  pub fst_pending : Pending first p.listener.slots.fst.worker
  pub snd_pending : Pending second p.listener.slots.snd.worker
  pub place : MainSound p.listener p.main

-- An id that `connect` returns with a device is free and below the bound.
connect_from_free :
    (by_id : ℕ → Connection) (l : Listener) (fuel i : ℕ) (device : Device)
    → (connect_from by_id l fuel i).move ≡ some device
    → ((connect_from by_id l fuel i).psmove_id < fuel + i)
      × (is_taken ((connect_from by_id l fuel i).psmove_id) l ≡ false)
unfolding connect_from
connect_from_free by_id l zero i device e = absurd (ground arith)
connect_from_free by_id l (suc fuel) i device e =
    ground (arith, connect_from_free by_id l fuel (suc i) device)

connect_free :
    (by_id : ℕ → Connection) (l : Listener) (device : Device)
    → (connect by_id l).move ≡ some device
    → let i = (connect by_id l).psmove_id in
      (i < max_controllers)
      × ((l.slots.fst.worker ≡ absent) ⊎ (l.slots.fst.psmove_id ≢ i))
      × ((l.slots.snd.worker ≡ absent) ⊎ (l.slots.snd.psmove_id ≢ i))
unfolding connect is_taken
connect_free by_id l device e = ground (arith, connect_from_free by_id l max_controllers 0 device e)

module _ {D : Type 0} where
  waiting-IsSound :
      (c : ControllerId) (late : Late) (p : Program D)
      → p.main ≡ waiting c late
      → IsSound p
      → is_joined late ((at p.listener.slots c).worker) ≡ true
      → Leads (λ q ys. IsSound q) (joined c p)
  unfolding after_joins
  waiting-IsSound first active p e v j = ground arith
  waiting-IsSound first detached p e v j = ground arith
  waiting-IsSound first released p e v j = ground arith
  waiting-IsSound first ended p e v j = ground arith
  waiting-IsSound second active p e v j = ground arith
  waiting-IsSound second detached p e v j = ground arith
  waiting-IsSound second released p e v j = ground arith
  waiting-IsSound second ended p e v j = ground arith

  started-IsSound :
      (a : Answers) (p : Program D) (o : Option Device)
      → (connect a.by_id p.listener).move ≡ o
      → IsSound p
      → Leads (λ q ys. IsSound q) (started o ((connect a.by_id p.listener).psmove_id) p)
  started-IsSound a p none e v = ground arith
  started-IsSound a p (some device) e v = record {
    fst_slot = v.fst_slot;
    snd_slot = v.snd_slot;
    ids_differ = v.ids_differ;
    fst_pending = v.fst_pending;
    snd_pending = v.snd_pending;
    place = connect_free a.by_id p.listener device e;
  }

  starting-IsSound :
      (i : ℕ) (device : Device) (p : Program D)
      → p.main ≡ starting i device
      → IsSound p
      → IsSound (record p { main = top; listener = handle_new_device i device p.listener })
  unfolding handle_new_device start
  starting-IsSound i device p e v = ground arith

  pub main_step-IsSound :
      (a : Answers) (m : MainLoop) (p : Program D)
      → p.main ≡ m
      → IsSound p
      → Leads (λ q ys. IsSound q) (main_step a m p)
  unfolding main_step after_joins
  main_step-IsSound a top p e v = ground arith
  main_step-IsSound a (joining first) p e v = ground arith
  main_step-IsSound a (joining second) p e v = ground arith
  main_step-IsSound a (waiting c late) p e v =
      elim (Bool-cases (is_joined late ((at p.listener.slots c).worker))) [
        | inl j ↦ rw j (waiting-IsSound c late p e v j)
        | inr j ↦ rw j tt
      ]
  main_step-IsSound a connecting p e v = elim (Bool-cases (is_full_capacity p.listener)) [
    | inl full ↦ rw full (ground arith)
    | inr free ↦ rw free (started-IsSound a p _ refl v)
  ]
  main_step-IsSound a (starting i device) p e v = starting-IsSound i device p e v
  main_step-IsSound a finished p e v = tt
  main_step-IsSound a crashed p e v = tt
