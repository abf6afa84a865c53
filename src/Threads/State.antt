-- ===== src/Threads/State.antt =====
-- psmove_handler.cpp: `onGyroscope`, `onGesture` and `onButtons` as the actions of two threads, each of
-- which works through what is left of its call.
use psmoveinput.Prelude.{
  ℕ, zero, suc, ◌*◌, bit_and, bit_not, false, List, [], ◌∷◌, ◌++◌, leb, ◌==◌, if◌then◌else◌, ℤ, pos,
}
use psmoveinput.Common.{ControllerId, first, second, PerController, at, put, btn_gesture_right}
use psmoveinput.Handler.{
  Handler, Timespec, Out, ◌>>=◌, gesture_enabled, on_gyroscope, gestures_at, report_bit, loop_fuel,
}

-- What a thread has to do next. `press`: enter `onButtons` and compare the buttons. `bits`: the rounds of
-- its loop that are left, each under the mutex, and then the store to `buttons_`. `check`: look at
-- `releaseGestureKeys_`. `clear`: set it to false. `swing`: enter `onGesture`, read the clock and test
-- the triggers. `judge`: find the gesture buttons. `stamp`: store the reading. `gyro`: `onGyroscope`.
pub data Task : Type 0 where
  press : ℕ → ControllerId → Task
  bits : ℕ → ℕ → ℕ → ControllerId → ℕ → ℕ → Task
  check clear : Task
  swing : ℤ → ℤ → Task
  judge : Timespec → ℤ → ℤ → Task
  stamp : Timespec → Task
  gyro : ℤ → ℤ → Task

-- What a thread calls: the slot of its gyroscope readings, or `onButtons`.
pub data Call : Type 0 where
  moved : ℤ → ℤ → Call
  changed : ℕ → Call

-- The gyroscope of the first controller moves the pointer, that of the second makes gestures.
unfoldable pub tasks_of : ControllerId → Call → List Task
tasks_of first (moved gx gy) = gyro gx gy ∷ []
tasks_of second (moved gx gy) = swing gx gy ∷ []
tasks_of c (changed buttons) = press buttons c ∷ check ∷ []

-- The handler and what is left of the two threads' calls.
pub record Threads (D : Type 0) : Type 0 where
  pub handler : Handler D
  pub tasks : PerController (List Task)

-- A thread makes a call, or goes on with it, with a reading of the clock if it takes one.
pub data Turn : Type 0 where
  call : ControllerId → Call → Turn
  work : ControllerId → Timespec → Turn

-- The end of the loop of `onButtons`.
abbrev pub store : ℕ → ControllerId → {D : Type 0} → Handler D → Out (Handler D × List Task)
store buttons c h = ((record h { buttons = put h.buttons c buttons }, []), [])

module _ {D : Type 0} (scale : ℤ → D → ℤ) (key_max : ℕ) where
  -- An action, with what it puts before the rest of the call.
  unfoldable pub perform : Timespec → Task → Handler D → Out (Handler D × List Task)
  perform now (press buttons c) h =
      let old = at h.buttons c in
      if old == buttons then ((h, []), []) else (
        (
          h,
          bits loop_fuel (bit_and buttons (bit_not old)) (bit_and old (bit_not buttons)) c 1 buttons
              ∷ [],
        ),
        [],
      )
  perform now (bits zero pressed released c i buttons) h = store buttons c h
  perform now (bits (suc fuel) pressed released c i buttons) h =
      if leb i btn_gesture_right
      then (report_bit key_max pressed released c i h >>= λ h'.
          ((h', bits fuel pressed released c (i * 2) buttons ∷ []), []))
      else store buttons c h
  perform now check h =
      ((h, if h.release_gesture_keys then clear ∷ swing (pos 0) (pos 0) ∷ [] else []), [])
  perform now clear h = ((record h { release_gesture_keys = false }, []), [])
  perform now (swing gx gy) h =
      ((h, if gesture_enabled h then judge now gx gy ∷ stamp now ∷ [] else stamp now ∷ []), [])
  perform now (judge t gx gy) h = ((h, press (gestures_at scale t gx gy h) second ∷ check ∷ []), [])
  perform now (stamp t) h = ((record h { last_gesture_tp = t }, []), [])
  perform now (gyro gx gy) h = let (h', xs) = on_gyroscope scale now gx gy h in ((h', []), xs)

  -- The next task of a thread.
  unfoldable pub work_on : ControllerId → Timespec → List Task → Threads D → Out (Threads D)
  work_on c now [] s = (s, [])
  work_on c now (t ∷ rest) s =
      let ((h, ts), xs) = perform now t s.handler in
      (record s { handler = h; tasks = put s.tasks c (ts ++ rest) }, xs)

  -- A thread in a call makes no other, and one without a call has nothing to go on with.
  abbrev pub begin_call : ControllerId → List Task → List Task → Threads D → Out (Threads D)
  begin_call c ts [] s = (record s { tasks = put s.tasks c ts }, [])
  begin_call c ts (t ∷ rest) s = (s, [])

  unfoldable pub turn : Turn → Threads D → Out (Threads D)
  turn (call c k) s = begin_call c (tasks_of c k) (at s.tasks c) s
  turn (work c now) s = work_on c now (at s.tasks c) s

  -- The turns of the two threads in any order.
  unfoldable pub play : List Turn → Threads D → Out (Threads D)
  play [] s = (s, [])
  play (t ∷ rest) s = turn t s >>= play rest

module _ {D : Type 0} where
  -- No thread is in a call.
  abbrev pub idle : Handler D → Threads D
  idle h = record { handler = h; tasks = record { fst = []; snd = [] } }
