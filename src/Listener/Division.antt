-- ===== src/Listener/Division.antt =====
-- psmove_listener.cpp: when a division of the thread fails.
use psmoveinput.Prelude.{
  zero, suc, Bool, true, false, not, List, [], ◌∷◌, ◌++◌, Option, some, none, ◌≡◌, ◌≢◌, Bool-cases,
  inl, inr, refl, arith, ℤ, pos, negsuc, neg, quot, ltb_ℤ,
}
use psmoveinput.Common.{ControllerId, first, second}
use psmoveinput.Handler.{Timespec}
use psmoveinput.Listener.Polling.{
  Sample, Emission, gyro, Thread, divide, int_min, CanDivide, count_gesture, report_motion,
  report_buttons, take_sample, drain, update_leds, is_silent, Round, after_drain, poll_round,
}
use psmoveinput.Listener.Kept.{Kept, AreEmitted, AreSampled, drain-Kept}

divide_total :
    (a b : ℤ) → b ≢ pos 0 → (b ≡ negsuc 0 → a ≢ int_min) → (q : ℤ) × (divide a b ≡ some q)
unfolding divide
divide_total a (pos zero) ne small = absurd (ne refl)
divide_total a (pos (suc n)) ne small = (quot a (suc n), ground arith)
divide_total (pos m) (negsuc n) ne small = (neg (quot (pos m) (suc n)), ground arith)
divide_total (negsuc m) (negsuc n) ne small = (neg (quot (negsuc m) (suc n)), ground arith)

-- The timeouts of a thread are such that it can divide.
abbrev IsFit : Thread → Type 0
IsFit t = CanDivide t.poll_timeout t.led_timeout t.gesture_timeout

-- A result there is, and its thread can divide.
abbrev Goes : {A : Type 0} → Option (Thread × A) → Type 0
Goes {A = A} o = (r : Thread × A) × (o ≡ some r) × IsFit r.0

take_sample_total : (s : Sample) (t : Thread) → IsFit t → Goes (take_sample s t)
unfolding take_sample report_motion report_buttons count_gesture
take_sample_total s t fit = by_id t.id refl
  where
    by_id : (c : ControllerId) → t.id ≡ c → Goes (take_sample s t)
    by_id first e =
        let (t', ys) = report_buttons s t in
        ((record t' { last_tp = s.tp }, gyro (neg s.gz) (neg s.gx) ∷ ys), rw e refl, ground arith)
    by_id second e =
        let (q, divided) =
          divide_total t.gesture_timeout t.poll_timeout fit.0 (λ one. (fit.1 one).1) in
        let (t', xs) = count_gesture q s t in
        let (t'', ys) = report_buttons s t' in
        ((record t'' { last_tp = s.tp }, xs ++ ys), rw (e, divided) refl, ground arith)

drain_total : (samples : List Sample) (t : Thread) → IsFit t → Goes (drain samples t)
unfolding drain
drain_total [] t fit = ((t, []), refl, fit)
drain_total (s ∷ rest) t fit =
    let ((t', xs), step, fit') = take_sample_total s t fit in
    let ((t'', ys), steps, fit'') = drain_total rest t' fit' in
    ((t'', xs ++ ys), rw (step, steps) refl, fit'')

leds_total : (t : Thread) → IsFit t → (r : Thread × Bool) × (update_leds t ≡ some r)
unfolding update_leds
leds_total t fit =
    let (q, divided) = divide_total t.led_timeout t.poll_timeout fit.0 (λ one. (fit.1 one).0) in
    elim (Bool-cases (ltb_ℤ q (pos (suc t.poll_count)))) [
      | inl due ↦ ((record t { poll_count = 0 }, true), rw (divided, due) refl)
      | inr later ↦ ((record t { poll_count = suc t.poll_count }, false), rw (divided, later) refl)
    ]

any_sampled : (samples : List Sample) → AreSampled (λ n. Unit {0}) samples
any_sampled [] = tt
any_sampled (s ∷ rest) = (tt, any_sampled rest)

fails_after :
    (now : Timespec) (t : Thread) (o : Option (Thread × List Emission))
    → Kept (AreEmitted (λ n. Unit {0}) t.id) t o
    → divide t.led_timeout t.poll_timeout ≡ none
    → after_drain now o ≡ none
unfolding update_leds
fails_after now t none k z = refl
fails_after now t (some (u, xs)) (same, emitted) z = rw (same.1, same.2, z) refl

-- A round of the thread's main loop goes through its samples, whatever they are, to its end, if the
-- poll timeout is not 0, and either not - 1 or the timeouts of the LEDs and of the gestures are not
-- the least `int`. It fails in a division if the poll timeout is 0, and if it is - 1 and the timeout of
-- the LEDs is the least `int`.
pub poll_round_fails_on_zero :
    (samples : List Sample) (now : Timespec) (t : Thread)
    → (t.poll_timeout ≢ pos 0
        → (t.poll_timeout ≡ negsuc 0
            → (t.led_timeout ≢ negsuc 2147483647) × (t.gesture_timeout ≢ negsuc 2147483647))
        → (r : Thread × Round) × (poll_round samples now t ≡ some r))
      × (t.poll_timeout ≡ pos 0 → poll_round samples now t ≡ none)
      × (t.poll_timeout ≡ negsuc 0
          → t.led_timeout ≡ negsuc 2147483647
          → poll_round samples now t ≡ none)
unfolding poll_round divide
poll_round_fails_on_zero samples now t = (
  λ ne small. succeeds (ne, small),
  λ z. fails (rw z refl),
  λ one least. fails (rw (one, least) refl),
)
  where
    succeeds : IsFit t → (r : Thread × Round) × (poll_round samples now t ≡ some r)
    succeeds fit =
        let ((t', xs), e, fit') = drain_total samples t fit in
        let ((t'', leds), e') = leds_total t' fit' in
        (
          (t'', record { emissions = xs; leds = leds; goes_on = not (is_silent now t'') }),
          rw (e, e') refl,
        )

    fails : divide t.led_timeout t.poll_timeout ≡ none → poll_round samples now t ≡ none
    fails z =
        fails_after now t (drain samples t)
          (drain-Kept (λ n. Unit {0}) samples t (any_sampled samples)) z
