-- ===== src/Handler/Session.antt =====
-- A run of the handler: the reports of both controllers, one after the other, in the order in which
-- the threads deliver them.
use psmoveinput.Prelude.{ℕ, ◌<◌, ◌^◌, List, [], ◌∷◌, none, some, ℤ}
use psmoveinput.Common.{ControllerId}
use psmoveinput.Handler.State.{Handler, Timespec, Result}
use psmoveinput.Handler.Reports.{append_result, on_buttons, on_gesture, on_gyroscope}

-- A call of one of the three slots. `onGesture` reads the clock once and at most twice more in
-- nested calls, `onButtons` at most twice.
pub data Report : Type 0 where
  gyro : Timespec → ℤ → ℤ → Report
  swing : Timespec → Timespec → Timespec → ℤ → ℤ → Report
  press : Timespec → Timespec → ℕ → ControllerId → Report

-- The buttons of a report are a pattern of 32 bits.
abbrev pub IsInt32 : Report → Type 0
IsInt32 (press t u b c) = b < 2 ^ 32
IsInt32 _ = Unit {0}

-- The rest of a run goes on in the state where the first part ended.
abbrev pub continue : {D : Type 0} → Result D → (Handler D → Result D) → Result D
continue none f = none
continue (some (h, xs)) f = append_result xs (f h)

module _ {D : Type 0} (scale : ℤ → D → ℤ) (key_max : ℕ) where
  unfoldable pub handle : Report → Handler D → Result D
  handle (gyro now gx gy) h = some (on_gyroscope scale now gx gy h)
  handle (swing s t u gx gy) h = on_gesture scale key_max (s ∷ t ∷ u ∷ []) gx gy h
  handle (press t u b c) h = on_buttons scale key_max (t ∷ u ∷ []) b c h

  unfoldable pub run : List Report → Handler D → Result D
  run [] h = some (h, [])
  run (r ∷ rs) h = continue (handle r h) (run rs)
