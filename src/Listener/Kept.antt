-- ===== src/Listener/Kept.antt =====
-- psmove_listener.cpp: what a round of a thread's loop keeps, and what it emits.
use mathlib.Core.Path.{subst}
use psmoveinput.Prelude.{
  ℕ, List, [], ◌∷◌, ◌++◌, Option, some, none, ◌≡◌, ◌∙◌, refl, arith, ℤ, All, All-append,
}
use psmoveinput.Common.{ControllerId, first, second}
use psmoveinput.Handler.{Timespec}
use psmoveinput.Listener.Polling.{
  Sample, Emission, gyro, gesture, button, Thread, divide, count_gesture, count_if, report_motion,
  report_buttons, finish_sample, take_sample, then_drain, drain, leds_due, update_leds, Round,
  after_drain, end_round, poll_round,
}

-- The controller and the timeouts of the divisions stay.
abbrev pub IsSame : Thread → Thread → Type 0
IsSame t u =
    (u.id ≡ t.id)
    × (u.poll_timeout ≡ t.poll_timeout)
    × (u.led_timeout ≡ t.led_timeout)
    × (u.gesture_timeout ≡ t.gesture_timeout)

-- A result, if there is one, has a thread like this and something with Q.
abbrev pub Kept {ℓ} : {A : Type ℓ} → (A → Type 0) → Thread → Option (Thread × A) → Type 0
Kept Q t none = Unit {0}
Kept Q t (some r) = IsSame t r.0 × Q r.1

-- An emission of a controller's thread, with buttons that have P.
abbrev pub IsEmitted : (ℕ → Type 0) → ControllerId → Emission → Type 0
IsEmitted P c (gyro gx gy) = c ≡ first
IsEmitted P c (gesture gx gy) = c ≡ second
IsEmitted P c (button b c') = P b × (c' ≡ c)

abbrev pub AreEmitted : (ℕ → Type 0) → ControllerId → List Emission → Type 0
AreEmitted P c xs = All (IsEmitted P c) xs

module _ (P : ℕ → Type 0) where
  module _ (s : Sample) where
    count_if-Kept :
        (o : Option ℤ) (t : Thread) → t.id ≡ second → Kept (AreEmitted P t.id) t (count_if o s t)
    unfolding count_gesture
    count_if-Kept none t e = tt
    count_if-Kept (some q) t e = ground arith

    motion-Kept :
        (c : ControllerId) (t : Thread)
        → t.id ≡ c
        → Kept (AreEmitted P t.id) t (report_motion c s t)
    unfolding report_motion
    motion-Kept first t e = ((refl, refl, refl, refl), (e, tt))
    motion-Kept second t e = count_if-Kept (divide t.gesture_timeout t.poll_timeout) t e

    finish-Kept :
        (t : Thread) (o : Option (Thread × List Emission))
        → P s.buttons
        → Kept (AreEmitted P t.id) t o
        → Kept (AreEmitted P t.id) t (finish_sample s o)
    unfolding report_buttons
    finish-Kept t none p k = tt
    finish-Kept t (some (u, xs)) p (same, emitted) =
        (ground arith, All-append (IsEmitted P t.id) xs _ emitted (ground arith))

    take_sample-Kept : (t : Thread) → P s.buttons → Kept (AreEmitted P t.id) t (take_sample s t)
    unfolding take_sample
    take_sample-Kept t p = finish-Kept t _ p (motion-Kept t.id t refl)

  -- All samples have buttons with P.
  abbrev pub AreSampled : List Sample → Type 0
  AreSampled samples = All (λ (s : Sample). P s.buttons) samples

  then_drain-Kept :
      (t : Thread) (o : Option (Thread × List Emission))
      (f : Thread → Option (Thread × List Emission))
      → Kept (AreEmitted P t.id) t o
      → ((u : Thread) → Kept (AreEmitted P u.id) u (f u))
      → Kept (AreEmitted P t.id) t (then_drain o f)
  then_drain-Kept t none f k rest = tt
  then_drain-Kept t (some (u, xs)) f (same, emitted) rest = then_more (f u) (rest u)
    where
      then_more :
          (o : Option (Thread × List Emission))
          → Kept (AreEmitted P u.id) u o
          → Kept (AreEmitted P t.id) t (elim o [ none ↦ none | some r ↦ some (r.0, xs ++ r.1) ])
      then_more none k = tt
      then_more (some (v, ys)) (same', emitted') = (
        (same'.0 ∙ same.0, same'.1 ∙ same.1, same'.2 ∙ same.2, same'.3 ∙ same.3),
        All-append (IsEmitted P t.id) xs ys emitted
            (subst (λ (c : ControllerId). AreEmitted P c ys) (same.0) emitted'),
      )

  pub drain-Kept :
      (samples : List Sample) (t : Thread)
      → AreSampled samples
      → Kept (AreEmitted P t.id) t (drain samples t)
  unfolding drain
  drain-Kept [] t p = ((refl, refl, refl, refl), tt)
  drain-Kept (s ∷ rest) t (p, ps) =
      then_drain-Kept t (take_sample s t) (drain rest) (take_sample-Kept s t p)
        (λ u. drain-Kept rest u ps)

  abbrev pub RoundEmits : ControllerId → Round → Type 0
  RoundEmits c r = AreEmitted P c r.emissions

  leds-Kept :
      (now : Timespec) (t u : Thread) (xs : List Emission) (o : Option ℤ)
      → IsSame t u
      → AreEmitted P t.id xs
      → Kept (RoundEmits t.id) t (end_round now xs (leds_due o u))
  leds-Kept now t u xs none same emitted = tt
  leds-Kept now t u xs (some q) same emitted = ground arith

  after_drain-Kept :
      (now : Timespec) (t : Thread) (o : Option (Thread × List Emission))
      → Kept (AreEmitted P t.id) t o
      → Kept (RoundEmits t.id) t (after_drain now o)
  unfolding update_leds
  after_drain-Kept now t none k = tt
  after_drain-Kept now t (some (u, xs)) (same, emitted) = leds-Kept now t u xs _ same emitted

  -- A round keeps the controller and the poll timeout, and emits what its controller may.
  pub poll_round-Kept :
      (samples : List Sample) (now : Timespec) (t : Thread)
      → AreSampled samples
      → Kept (RoundEmits t.id) t (poll_round samples now t)
  unfolding poll_round
  poll_round-Kept samples now t p = after_drain-Kept now t _ (drain-Kept samples t p)
