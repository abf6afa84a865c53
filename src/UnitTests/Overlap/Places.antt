-- ===== src/UnitTests/Overlap/Places.antt =====
-- test/psmove_handler_mt_test.cpp: where a thread of the test stands, and how far it has come.
use psmoveinput.Prelude.{
  ℕ, zero, suc, ◌-◌, ◌^◌, ◌≤◌, bit_and, bit_not, false, List, [], ◌∷◌, ltb, leb, if◌then◌else◌, ◌≡◌,
  refl, arith, inl,
}
use psmoveinput.Common.{ControllerId, at}
use psmoveinput.Handler.{Handler}
use psmoveinput.Handler.Following.{opposite}
use psmoveinput.Threads.{Task, press, bits, check}
use psmoveinput.UnitTests.Overlap.{Keys, map_of, buttons_at, Test}
use psmoveinput.UnitTests.Overlap.Rounds.{Toggles}

-- After n calls, or in call number n: at its start, in round i of its loop, or past the loop.
pub data Place : Type 0 where
  outside entering checking : ℕ → Place
  looping : ℕ → ℕ → Place

abbrev pub calls_of : Place → ℕ
calls_of (outside n) = n
calls_of (entering n) = suc n
calls_of (looping n i) = suc n
calls_of (checking n) = suc n

-- The round of the last bit is number 27, and round 28 ends the loop.
abbrev pub IsPlace : Place → Type 0
IsPlace (looping n i) = i ≤ 28
IsPlace _ = Unit {0}

-- The turns until the call returns.
abbrev pub turns_left : Place → ℕ
turns_left (outside n) = 0
turns_left (entering n) = 31
turns_left (looping n i) = 30 - i
turns_left (checking n) = 1

abbrev pub next_place : ℕ → Place → Place
next_place num (outside n) = if ltb n num then entering n else outside n
next_place num (entering n) = looping n 0
next_place num (looping n i) = if ltb i 28 then looping n (suc i) else checking n
next_place num (checking n) = outside (suc n)

module _ (k : Keys) (c : ControllerId) where
  -- The buttons after n calls.
  abbrev pub after_calls : ℕ → ℕ
  after_calls zero = 0
  after_calls (suc n) = buttons_at k c n

  -- Whether the key event of the call is still to come.
  abbrev pub owed : Place → ℕ
  owed (outside n) = 0
  owed (entering n) = 1
  owed (looping n i) = if leb i (at k.buttons c) then 1 else 0
  owed (checking n) = 0

  abbrev pub stored_at : Place → ℕ
  stored_at (outside n) = after_calls n
  stored_at (entering n) = after_calls n
  stored_at (looping n i) = after_calls n
  stored_at (checking n) = after_calls (suc n)

  abbrev pub tasks_at : Place → List Task
  tasks_at (outside n) = []
  tasks_at (entering n) = press (buttons_at k c n) c ∷ check ∷ []
  tasks_at (looping n i) =
      let old = after_calls n in
      let new = buttons_at k c n in
      bits (29 - i) (bit_and new (bit_not old)) (bit_and old (bit_not new)) c (2 ^ i) new
      ∷ check
      ∷ []
  tasks_at (checking n) = check ∷ []

  -- Each call changes the thread's button.
  pub call-Toggles : (n : ℕ) → Toggles (at k.buttons c) (after_calls n) (buttons_at k c n)
  call-Toggles zero = inl (refl, refl)
  call-Toggles (suc n) = ground arith

  -- A thread stands at a place.
  pub record Stands {D : Type 0} (pl : Place) (s : Test D) : Type 0 where
    pub tasks : at s.threads.tasks c ≡ tasks_at pl
    pub calls : at s.calls c ≡ calls_of pl
    pub stored : at s.threads.handler.buttons c ≡ stored_at pl
    pub placed : IsPlace pl

-- What no thread changes of the handler.
pub record Calm {D : Type 0} (k : Keys) (h : Handler D) : Type 0 where
  pub maps : (c : ControllerId) → at h.keymaps c ≡ map_of k c
  pub release : h.release_gesture_keys ≡ false

-- What one thread leaves as it is for the other.
pub record Elsewhere {D : Type 0} (c : ControllerId) (s s' : Test D) : Type 0 where
  pub tasks : at s'.threads.tasks (opposite c) ≡ at s.threads.tasks (opposite c)
  pub calls : at s'.calls (opposite c) ≡ at s.calls (opposite c)
  pub stored :
      at s'.threads.handler.buttons (opposite c) ≡ at s.threads.handler.buttons (opposite c)
