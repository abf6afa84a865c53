-- ===== src/UnitTests/Overlap.antt =====
-- test/psmove_handler_mt_test.cpp: two threads that press and release one button each.
mod Places
mod Rounds
mod Actions
mod Kept
pub mod Passes
mod Examples
use psmoveinput.Prelude.{
  ℕ, suc, ◌+◌, ◌*◌, ◌%◌, ◌^◌, List, [], ◌∷◌, ltb, ◌==◌, if◌then◌else◌, pos, ℤ,
}
use psmoveinput.Common.{ControllerId, first, second, PerController, at, put, MoveCoeffs, KeyMap}
use psmoveinput.Handler.{Handler, Timespec, Signal, key, Out, ◌>>=◌, new}
use psmoveinput.Threads.{Task, changed, Threads, call, work, turn, idle}

-- `TestListener::keyEvents_`, by its size.
unfoldable pub key_events : List Signal → ℕ
key_events [] = 0
key_events (key code pressed ∷ rest) = 1 + key_events rest
key_events (_ ∷ rest) = key_events rest

-- The button of a controller's thread, and the key that it is mapped to.
pub record Keys : Type 0 where
  pub buttons : PerController ℕ
  pub codes : PerController ℕ

abbrev pub map_of : Keys → ControllerId → KeyMap
map_of k c = record { pscode = 2 ^ at k.buttons c; lincode = at k.codes c } ∷ []

-- The buttons of a thread's call number i: pressed, released, pressed and so on.
abbrev pub buttons_at : Keys → ControllerId → ℕ → ℕ
buttons_at k c i = if i % 2 == 0 then 2 ^ at k.buttons c else 0

-- The handler with the two threads, and how many calls each of these has made.
pub record Test (D : Type 0) : Type 0 where
  pub threads : Threads D
  pub calls : PerController ℕ

module _ {D : Type 0} (key_max : ℕ) (k : Keys) (coeffs : MoveCoeffs D) where
  -- `PSMoveHandlerMtTest::SetUp`.
  unfoldable pub set_up_threads : Test D
  set_up_threads = record {
    threads = idle (new key_max (map_of k first) (map_of k second) coeffs (pos 0) (pos 0));
    calls = record { fst = 0; snd = 0 };
  }

module _ {D : Type 0} (scale : ℤ → D → ℤ) (key_max : ℕ) (k : Keys) (num_key_evts : ℕ) where
  -- `TestThread::operator ()`: a thread goes on with its call, or makes the next one.
  unfoldable pub next_turn : ControllerId → Timespec → List Task → Test D → Out (Test D)
  next_turn c now (t ∷ ts) s =
      let (threads, xs) = turn scale key_max (work c now) s.threads in
      (record s { threads = threads }, xs)
  next_turn c now [] s =
      let i = at s.calls c in
      let (threads, xs) = turn scale key_max (call c (changed (buttons_at k c i))) s.threads in
      if ltb i num_key_evts
      then (record s { threads = threads; calls = put s.calls c (suc i) }, xs)
      else (s, [])

  -- The threads make their turns in this order.
  unfoldable pub run_threads : List (ControllerId × Timespec) → Test D → Out (Test D)
  run_threads [] s = (s, [])
  run_threads ((c, now) ∷ rest) s = next_turn c now (at s.threads.tasks c) s >>= run_threads rest

-- How often a thread has its turn.
unfoldable pub turns_for : ControllerId → List (ControllerId × Timespec) → ℕ
turns_for first [] = 0
turns_for second [] = 0
turns_for first ((first, now) ∷ rest) = 1 + turns_for first rest
turns_for second ((second, now) ∷ rest) = 1 + turns_for second rest
turns_for first ((second, now) ∷ rest) = turns_for first rest
turns_for second ((first, now) ∷ rest) = turns_for second rest
