-- ===== src/UnitTests/Overlap/Actions.antt =====
-- test/psmove_handler_mt_test.cpp: the actions of a call.

use mathlib.Core.List.{append-nil}
use psmoveinput.Prelude.{
  ℕ, suc, ◌-◌, ◌^◌, ◌<◌, ◌≤◌, bit, bit_and, bit_not, List, [], ◌∷◌, ◌++◌, ltb, ◌==◌, if◌then◌else◌,
  ◌≡◌, refl, arith, ℤ,
}
use psmoveinput.Common.{ControllerId, at, put}
use psmoveinput.Handler.{Handler, Timespec, Signal, key}
use psmoveinput.Handler.Bits.{pow-suc_mul, loop_goes_on}
use psmoveinput.Threads.{Task, press, bits, check, turn, work_on, perform, tasks_of}
use psmoveinput.UnitTests.Overlap.{Keys, buttons_at, Test, next_turn}
use psmoveinput.UnitTests.Overlap.Rounds.{round_lem}
use psmoveinput.UnitTests.Overlap.Places.{after_calls, call-Toggles, Calm}

module _ {D : Type 0} (c : ControllerId) where
  -- A thread has made an action.
  abbrev pub worked : Handler D → List Task → Test D → Test D
  worked h ts s = record s {
    threads = record (s.threads) { handler = h; tasks = put s.threads.tasks c ts };
  }

  -- A thread has begun its call number n.
  abbrev pub called : ℕ → List Task → Test D → Test D
  called n ts s = record s {
    threads = record (s.threads) { tasks = put s.threads.tasks c ts };
    calls = put s.calls c (suc n);
  }

module _ {D : Type 0} (scale : ℤ → D → ℤ) (key_max : ℕ) (k : Keys) (num : ℕ) (c : ControllerId)
    (now : Timespec) (s : Test D) where
  pub works :
      (t : Task) (ts new : List Task) (h : Handler D) (xs : List Signal)
      → at s.threads.tasks c ≡ t ∷ ts
      → perform scale key_max now t s.threads.handler ≡ ((h, new), xs)
      → next_turn scale key_max k num c now (at s.threads.tasks c) s
        ≡ (worked c h (new ++ ts) s, xs)
  unfolding next_turn turn work_on
  works t ts new h xs e p = rw e (rw e (rw p refl))

  pub begins :
      (n : ℕ)
      → at s.threads.tasks c ≡ []
      → at s.calls c ≡ n
      → next_turn scale key_max k num c now (at s.threads.tasks c) s ≡ (
          if ltb n num
          then (called c n (press (buttons_at k c n) c ∷ check ∷ []) s, [])
          else (s, []))
  unfolding next_turn turn tasks_of
  begins n e e' = rw (e, e') (rw e refl)

  -- A round of the loop.
  pub loop_goes :
      (n i : ℕ)
      → at s.threads.handler.buttons c ≡ after_calls k c n
      → Calm k s.threads.handler
      → at k.codes c ≤ key_max
      → at k.buttons c < 28
      → i < 28
      → let old = after_calls k c n in
        let new = buttons_at k c n in
        let p = bit_and new (bit_not old) in
        let r = bit_and old (bit_not new) in
        perform scale key_max now (bits (29 - i) p r c (2 ^ i) new) s.threads.handler ≡ (
          (s.threads.handler, bits (29 - suc i) p r c (2 ^ suc i) new ∷ []),
          if at k.buttons c == i
              then key (at k.codes c) (bit new (at k.buttons c) == 1) ∷ []
              else [],
        )
  unfolding perform
  loop_goes n i e calm plain low lt =
      let old = after_calls k c n in
      let new = buttons_at k c n in
      let fuel : 29 - i ≡ suc (29 - suc i) = omega arith in
      let on = loop_goes_on (27 - i) i (omega arith) in
      let reported =
        round_lem key_max c (at k.buttons c) (at k.codes c) old new s.threads.handler (calm.maps c)
          plain low (call-Toggles k c n) i lt in
      rw (fuel, on, reported, pow-suc_mul i, append-nil) refl

  -- The end of the loop.
  pub loop_stops :
      (n i p r : ℕ)
      → i ≡ 28
      → let h = s.threads.handler in
        let new = buttons_at k c n in
        perform scale key_max now (bits (29 - i) p r c (2 ^ i) new) h
        ≡ ((record h { buttons = put h.buttons c new }, []), [])
  unfolding perform
  loop_stops n i p r e = rw e refl
