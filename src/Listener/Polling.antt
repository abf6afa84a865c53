-- ===== src/Listener/Polling.antt =====
-- psmove_listener.cpp: the main loop of `ControllerThread`, between its tests for the end. What
-- psmoveapi reports is given.
use psmoveinput.Prelude.{
  ◌&&◌, ◌≡◌, ◌≢◌, false, ℕ, suc, Bool, true, not, List, [], ◌∷◌, ◌++◌, Option, none, some, ◌==◌,
  if◌then◌else◌, ℤ, pos, negsuc, neg, quot, sub_ℕ, ltb_ℤ,
}
use psmoveinput.Common.{ControllerId, first, second}
use psmoveinput.Handler.{Timespec, zero_time}

-- What the thread reads after a successful `psmove_poll`: the gyroscope as converted to integers,
-- the buttons, and the clock.
pub record Sample : Type 0 where
  pub gx : ℤ
  pub gz : ℤ
  pub buttons : ℕ
  pub tp : Timespec

-- A call of a signal of the listener.
pub data Emission : Type 0 where
  gyro gesture : ℤ → ℤ → Emission
  button : ℕ → ControllerId → Emission

-- The fields of `ControllerThread` that its loop uses, with the loop's own `gestureCount`.
pub record Thread : Type 0 where
  pub id : ControllerId
  pub poll_timeout : ℤ
  pub disconnect_timeout : ℤ
  pub led_timeout : ℤ
  pub gesture_timeout : ℤ
  pub buttons : ℕ
  pub last_tp : Timespec
  pub poll_count : ℕ
  pub gesture_count : ℕ

-- The least `int`, - 2 ^ 31.
abbrev pub int_min : ℤ
int_min = negsuc 2147483647

abbrev pub is_int_min : ℤ → Bool
is_int_min (pos n) = false
is_int_min (negsuc n) = n == 2147483647

-- C++ division of two `int`s; `none`: the divisor is 0, or the quotient is 2 ^ 31, which is no `int`.
unfoldable pub divide : ℤ → ℤ → Option ℤ
divide a (pos n) = if n == 0 then none else some (quot a n)
divide a (negsuc n) = if n == 0 && is_int_min a then none else some (neg (quot a (suc n)))

-- What the timeouts have to be for the divisions.
abbrev pub CanDivide : ℤ → ℤ → ℤ → Type 0
CanDivide poll led gestures =
    (poll ≢ pos 0) × (poll ≡ negsuc 0 → (led ≢ int_min) × (gestures ≢ int_min))

-- The start of `operator ()`: the counter of gestures is local to it.
unfoldable pub begin : Thread → Thread
begin t = record t { gesture_count = 0 }

-- The gesture branch; `period` is `gestureTimeout_ / pollTimeout_`.
unfoldable pub count_gesture : ℤ → Sample → Thread → Thread × List Emission
count_gesture period s t =
    if ltb_ℤ period (pos (suc t.gesture_count))
    then (record t { gesture_count = 0 }, gesture (neg s.gz) s.gx ∷ [])
    else (record t { gesture_count = suc t.gesture_count }, [])

abbrev pub count_if : Option ℤ → Sample → Thread → Option (Thread × List Emission)
count_if none s t = none
count_if (some period) s t = some (count_gesture period s t)

-- The first controller moves the pointer, the second makes gestures.
unfoldable pub report_motion : ControllerId → Sample → Thread → Option (Thread × List Emission)
report_motion first s t = some (t, gyro (neg s.gz) (neg s.gx) ∷ [])
report_motion second s t = count_if (divide t.gesture_timeout t.poll_timeout) s t

-- The buttons are reported when they change.
unfoldable pub report_buttons : Sample → Thread → Thread × List Emission
report_buttons s t =
    if t.buttons == s.buttons
    then (t, [])
    else (record t { buttons = s.buttons }, button s.buttons t.id ∷ [])

abbrev pub finish_sample :
    Sample → Option (Thread × List Emission) → Option (Thread × List Emission)
finish_sample s none = none
finish_sample s (some (t, xs)) =
    let (t', ys) = report_buttons s t in some (record t' { last_tp = s.tp }, xs ++ ys)

-- The body of `while (psmove_poll(move_))`. `none`: a division has failed.
unfoldable pub take_sample : Sample → Thread → Option (Thread × List Emission)
take_sample s t = finish_sample s (report_motion t.id s t)

abbrev pub then_drain :
    Option (Thread × List Emission)
    → (Thread → Option (Thread × List Emission))
    → Option (Thread × List Emission)
then_drain none f = none
then_drain (some (t, xs)) f = elim (f t) [ none ↦ none | some r ↦ some (r.0, xs ++ r.1) ]

-- The loop, over what `psmove_poll` finds.
unfoldable pub drain : List Sample → Thread → Option (Thread × List Emission)
drain [] t = some (t, [])
drain (s ∷ rest) t = then_drain (take_sample s t) (drain rest)

-- `updateLeds`: the flag tells whether psmoveapi is called.
abbrev pub leds_due : Option ℤ → Thread → Option (Thread × Bool)
leds_due none t = none
leds_due (some period) t =
    if ltb_ℤ period (pos (suc t.poll_count))
    then some (record t { poll_count = 0 }, true)
    else some (record t { poll_count = suc t.poll_count }, false)

unfoldable pub update_leds : Thread → Option (Thread × Bool)
update_leds t = leds_due (divide t.led_timeout t.poll_timeout) t

-- The test that takes a silent controller for disconnected.
unfoldable pub is_silent : Timespec → Thread → Bool
is_silent now t =
    if not (t.last_tp.tv_sec == 0)
    then ltb_ℤ t.disconnect_timeout (sub_ℕ now.tv_sec t.last_tp.tv_sec)
    else false

-- The end of `operator ()`.
unfoldable pub end_thread : Thread → Thread
end_thread t = record t { last_tp = zero_time }

-- What a round of the main loop has done: the emissions, whether the LEDs were updated, and whether
-- the thread goes on.
pub record Round : Type 0 where
  pub emissions : List Emission
  pub leds : Bool
  pub goes_on : Bool

abbrev pub end_round : Timespec → List Emission → Option (Thread × Bool) → Option (Thread × Round)
end_round now xs none = none
end_round now xs (some (t, leds)) =
    some (t, record { emissions = xs; leds = leds; goes_on = not (is_silent now t) })

abbrev pub after_drain : Timespec → Option (Thread × List Emission) → Option (Thread × Round)
after_drain now none = none
after_drain now (some (t, xs)) = end_round now xs (update_leds t)

-- A round of the main loop that is not stopped by the listener; `now` is its reading of the clock.
unfoldable pub poll_round : List Sample → Timespec → Thread → Option (Thread × Round)
poll_round samples now t = after_drain now (drain samples t)
