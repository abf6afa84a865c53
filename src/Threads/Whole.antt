-- ===== src/Threads/Whole.antt =====
-- psmove_handler.cpp: the model of a call as a function and that by its actions agree.

use psmoveinput.Prelude.{ℕ, List, [], ◌∷◌, ◌++◌, map, some, ◌≡◌, refl, sym, ◌∙◌, ap, ℤ, pos}
use psmoveinput.Common.{ControllerId, first, second, PerController, at, put}
use psmoveinput.Handler.{Handler, Timespec, Signal, Result, on_buttons}
use psmoveinput.Handler.Session.{Report, handle}
use psmoveinput.Threads.State.{
  Call, moved, changed, tasks_of, Threads, call, work, work_on, turn, play, Task, gyro, perform,
}
use psmoveinput.Handler.Valid.{IsValid}
use psmoveinput.Handler.Total.{Succeeds}
use psmoveinput.Handler.Runs.{AtRest, handle-Succeeds}
use psmoveinput.Threads.Calls.{TurnFits, at-put, put-at, put-put}
use psmoveinput.Threads.Alone.{alone, Ends, acts_so, alone_none, buttons_Ends, gesture_Ends}

-- A thread's place before a call is its place after it.
restored :
    (c : ControllerId) (p : PerController (List Task)) (ts : List Task)
    → at p c ≡ []
    → put (put p c ts) c [] ≡ p
restored c p ts e = put-put c p ts [] ∙ ap (put p c) (sym e) ∙ put-at c p

module _ {D : Type 0} (scale : ℤ → D → ℤ) (key_max : ℕ) where
  -- What a call does in one piece, with the readings of the clock that it may take.
  unfoldable pub whole_call :
      ControllerId → Call → Timespec → Timespec → Timespec → Handler D → Result D
  whole_call first (moved gx gy) now t u h = handle scale key_max (Report.gyro now gx gy) h
  whole_call second (moved gx gy) now t u h = handle scale key_max (Report.swing now t u gx gy) h
  whole_call c (changed buttons) now t u h = handle scale key_max (Report.press now t buttons c) h

  call_Ends :
      (c : ControllerId) (k : Call) (now t u : Timespec) (h : Handler D)
      → Ends scale key_max (tasks_of c k) h [] (whole_call c k now t u h)
  unfolding whole_call tasks_of handle on_buttons perform
  call_Ends first (moved gx gy) now t u h = acts_so scale key_max now (gyro gx gy) [] [] h _ _ refl
  call_Ends second (moved gx gy) now t u h =
      gesture_Ends scale key_max (now ∷ t ∷ u ∷ []) gx gy [] h
  call_Ends first (changed buttons) now t u h =
      buttons_Ends scale key_max _ buttons first [] h
        (gesture_Ends scale key_max (now ∷ t ∷ []) (pos 0) (pos 0) [])
  call_Ends second (changed buttons) now t u h =
      buttons_Ends scale key_max _ buttons second [] h
        (gesture_Ends scale key_max (now ∷ t ∷ []) (pos 0) (pos 0) [])

  -- The turns of a thread, one after the other.
  play-alone :
      (c : ControllerId) (clock : List Timespec) (ts : List Task) (s : Threads D)
      → at s.tasks c ≡ ts
      → let ((ts', h'), xs) = alone scale key_max clock ts s.handler in
        play scale key_max (map (work c) clock) s
        ≡ (record { handler = h'; tasks = put s.tasks c ts' }, xs)
  unfolding play alone turn work_on
  play-alone c [] ts s e = rw (sym e, put-at c s.tasks) refl
  play-alone c (now ∷ clock) [] s e =
      rw e (play-alone c clock [] s e ∙ rw (alone_none scale key_max clock s.handler) refl)
  play-alone c (now ∷ clock) (t ∷ ts) s e =
      let ((h', new), xs) = perform scale key_max now t s.handler in
      let s' : Threads D = record s { handler = h'; tasks = put s.tasks c (new ++ ts) } in
      let ih = play-alone c clock (new ++ ts) s' (at-put c s.tasks (new ++ ts)) in
      rw e (rw ih (rw (put-put c s.tasks (new ++ ts)) refl))

  module _ (at_rest : AtRest scale) where
    whole_call-Succeeds :
        (c : ControllerId) (k : Call) (now t u : Timespec) (h : Handler D)
        → IsValid key_max h
        → TurnFits (call c k)
        → Succeeds key_max (whole_call c k now t u h)
    unfolding whole_call
    whole_call-Succeeds first (moved gx gy) now t u h v f =
        handle-Succeeds scale key_max at_rest _ h tt v
    whole_call-Succeeds second (moved gx gy) now t u h v f =
        handle-Succeeds scale key_max at_rest _ h tt v
    whole_call-Succeeds first (changed buttons) now t u h v f =
        handle-Succeeds scale key_max at_rest (Report.press now t buttons first) h f v
    whole_call-Succeeds second (changed buttons) now t u h v f =
        handle-Succeeds scale key_max at_rest (Report.press now t buttons second) h f v

    -- Let a motionless reading convert to 0, and the handler be valid. A thread that is not in a call
    -- makes one, with a 32-bit pattern where it has buttons, wherever the other thread stands, and
    -- makes all the turns until it returns: then it has done just what the function does that models
    -- the slot in one piece, with the same signals and the same handler in the end.
    pub undisturbed_call :
        (c : ControllerId) (k : Call) (now t u : Timespec) (s : Threads D)
        → IsValid key_max s.handler
        → TurnFits (call c k)
        → at s.tasks c ≡ []
        → (h' : Handler D) × (xs : List Signal) × (whole_call c k now t u s.handler ≡ some (h', xs))
          × (clock : List Timespec) × (play scale key_max (call c k ∷ map (work c) clock) s
              ≡ (record s { handler = h' }, xs))
    unfolding play turn
    undisturbed_call c k now t u s v f e =
        let ((h', xs), same, w) = whole_call-Succeeds c k now t u s.handler v f in
        let (clock, done) = rw same at (call_Ends c k now t u s.handler) in
        let s' : Threads D = record s { tasks = put s.tasks c (tasks_of c k) } in
        let played = play-alone c clock (tasks_of c k) s' (at-put c s.tasks (tasks_of c k)) in
        (h', xs, same, clock, rw e (played ∙ rw (done, restored c s.tasks (tasks_of c k) e) refl))
