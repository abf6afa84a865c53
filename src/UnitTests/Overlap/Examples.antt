-- ===== src/UnitTests/Overlap/Examples.antt =====
-- test/psmove_handler_mt_test.cpp: the keys of the test, and a run of it with two calls for each thread.
use psmoveinput.Prelude.{ℕ, zero, suc, ◌*◌, ◌≤◌, List, [], ◌∷◌, ◌≡◌, arith, pos, ℤ}
use psmoveinput.Common.{ControllerId, first, second, at, MoveCoeffs}
use psmoveinput.Handler.{Timespec}
use psmoveinput.UnitTests.Harness.{scale, key_max}
use psmoveinput.UnitTests.Overlap.{Keys, set_up_threads, run_threads, key_events, turns_for}
use psmoveinput.UnitTests.Overlap.Passes.{multiple_threads_pass}

-- Btn_T to KEY_1, and Btn_CROSS to KEY_2.
abbrev test_keys : Keys
test_keys = record { buttons = record { fst = 20; snd = 6 }; codes = record { fst = 2; snd = 3 } }

abbrev test_coeffs : MoveCoeffs ℤ
test_coeffs = record { cx = pos 2; cy = pos 2 }

abbrev at_zero : Timespec
at_zero = record { tv_sec = 0; tv_nsec = 0 }

-- The threads take turns, the second of them first.
alternating : ℕ → List (ControllerId × Timespec)
alternating zero = []
alternating (suc n) = (second, at_zero) ∷ (first, at_zero) ∷ alternating n

codes_plain : (c : ControllerId) → at test_keys.codes c ≤ key_max
codes_plain first = omega arith
codes_plain second = omega arith

buttons_low : (c : ControllerId) → suc (at test_keys.buttons c) ≤ 28
buttons_low first = omega arith
buttons_low second = omega arith

enough_for : (c : ControllerId) → 32 * 2 ≤ turns_for c (alternating 64)
unfolding turns_for alternating
enough_for first = omega arith
enough_for second = omega arith

multiple_threads_pass_example :
    let (s, xs) =
      run_threads scale key_max test_keys 2
        (alternating 64)
        (set_up_threads key_max test_keys test_coeffs) in
    (at s.threads.tasks first ≡ []) × (at s.threads.tasks second ≡ []) × (key_events xs ≡ 4)
multiple_threads_pass_example =
    multiple_threads_pass scale key_max test_keys 2 codes_plain buttons_low test_coeffs
      (alternating 64) (enough_for first) (enough_for second)
