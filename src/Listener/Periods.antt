-- ===== src/Listener/Periods.antt =====
-- psmove_listener.cpp: how often the second controller's gestures are reported, and its buttons.
use psmoveinput.Prelude.{
  ℕ, suc, ◌+◌, ◌*◌, ◌≤◌, List, [], ◌∷◌, ◌++◌, some, ◌≡◌, refl, sym, ap, ◌∙◌, arith, pos,
}
use native.Mathlib.Nat.{add-mul}
use psmoveinput.Common.{second}
use psmoveinput.Listener.Polling.{
  Sample, Emission, gyro, gesture, button, Thread, divide, count_gesture, report_motion,
  report_buttons, take_sample, drain,
}

-- The number of samples.
unfoldable pub sample_count : List Sample → ℕ
sample_count [] = 0
sample_count (s ∷ rest) = suc (sample_count rest)

unfoldable pub gestures : List Emission → ℕ
gestures [] = 0
gestures (gesture gx gy ∷ rest) = suc (gestures rest)
gestures (_ ∷ rest) = gestures rest

-- The buttons that a receiver of the signals knows.
unfoldable pub known_buttons : List Emission → ℕ → ℕ
known_buttons [] before = before
known_buttons (button b c ∷ rest) before = known_buttons rest b
known_buttons (_ ∷ rest) before = known_buttons rest before

-- The buttons of the last sample.
unfoldable pub last_buttons : List Sample → ℕ → ℕ
last_buttons [] before = before
last_buttons (s ∷ rest) before = last_buttons rest s.buttons

gestures-append : (xs ys : List Emission) → gestures (xs ++ ys) ≡ gestures xs + gestures ys
unfolding gestures
gestures-append [] ys = omega arith
gestures-append (gesture gx gy ∷ xs) ys = omega (arith, gestures-append xs ys)
gestures-append (gyro gx gy ∷ xs) ys = gestures-append xs ys
gestures-append (button b c ∷ xs) ys = gestures-append xs ys

known_buttons-append :
    (xs ys : List Emission) (b : ℕ)
    → known_buttons (xs ++ ys) b ≡ known_buttons ys (known_buttons xs b)
unfolding known_buttons
known_buttons-append [] ys b = refl
known_buttons-append (gesture gx gy ∷ xs) ys b = known_buttons-append xs ys b
known_buttons-append (gyro gx gy ∷ xs) ys b = known_buttons-append xs ys b
known_buttons-append (button b' c ∷ xs) ys b = known_buttons-append xs ys b'

-- What a sample of the second controller does, with a period p.
abbrev Counted : ℕ → Sample → Thread → Thread × List Emission → Type 0
Counted p s t (t', xs) =
    (t'.id ≡ second)
    × (t'.gesture_timeout ≡ t.gesture_timeout)
    × (t'.poll_timeout ≡ t.poll_timeout)
    × (gestures xs * suc p + t'.gesture_count ≡ suc t.gesture_count)
    × (t'.gesture_count ≤ p)
    × (known_buttons xs t.buttons ≡ s.buttons)
    × (t'.buttons ≡ s.buttons)

take_sample-Counted :
    (p : ℕ) (s : Sample) (t : Thread)
    → t.id ≡ second
    → divide t.gesture_timeout t.poll_timeout ≡ some (pos p)
    → t.gesture_count ≤ p
    → (r : Thread × List Emission) × (take_sample s t ≡ some r) × Counted p s t r
unfolding take_sample report_motion count_gesture report_buttons gestures known_buttons
take_sample-Counted p s t e d le =
    let (t', xs) = count_gesture (pos p) s t in
    let (t'', ys) = report_buttons s t' in
    ((record t'' { last_tp = s.tp }, xs ++ ys), rw (e, d) refl, ground arith)

-- Take a thread of the second controller whose gesture timeout over its poll timeout is p, from 0
-- up, and whose counter is at most p. It goes through every list of samples without a division by
-- 0. Exactly one gesture is reported for each p + 1 samples, counting those that the counter had at
-- the start and without those that it has at the end, at most p. A receiver that knew the thread's
-- buttons before knows those of the last sample after.
pub drain_reports :
    (p : ℕ) (samples : List Sample) (t : Thread)
    → t.id ≡ second
    → divide t.gesture_timeout t.poll_timeout ≡ some (pos p)
    → t.gesture_count ≤ p
    → (t' : Thread) × (xs : List Emission) × (drain samples t ≡ some (t', xs))
      × (gestures xs * suc p + t'.gesture_count ≡ sample_count samples + t.gesture_count)
      × (t'.gesture_count ≤ p)
      × (known_buttons xs t.buttons ≡ last_buttons samples t.buttons)
      × (t'.buttons ≡ last_buttons samples t.buttons)
unfolding drain gestures sample_count known_buttons last_buttons
drain_reports p [] t e d le = (t, [], refl, omega arith, le, refl, refl)
drain_reports p (s ∷ rest) t e d le =
    let ((t₁, xs), step, (same, gt, pt, rate, low, known, kept)) =
      take_sample-Counted p s t e d le in
    let (t₂, ys, steps, rates, lows, knowns, kepts) =
      drain_reports p rest t₁ same (rw (gt, pt) d) low in
    (
      t₂,
      xs ++ ys,
      rw (step, steps) refl,
      omega (
        arith,
        rate,
        rates,
        ap (λ (n : ℕ). n * suc p) (gestures-append xs ys),
        add-mul (gestures xs) (gestures ys) (suc p),
      ),
      lows,
      known_buttons-append xs ys t.buttons
          ∙ ap (known_buttons ys) (known ∙ sym kept)
          ∙ knowns
          ∙ ap (last_buttons rest) kept,
      kepts ∙ ap (last_buttons rest) kept,
    )
