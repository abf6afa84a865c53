-- ===== src/UnitTests/Harness.antt =====
-- test/psmove_handler_test.cpp: `TestListener`, the fixtures and what a test does. The values of
-- psmoveapi and <linux/input.h> are written out.
use psmoveinput.Prelude.{
  ℕ, ◌+◌, ◌*◌, ◌/◌, ◌%◌, ◌^◌, Bool, true, false, ◌&&◌, ◌||◌, List, [], ◌∷◌, none, some, ℤ, pos,
  ◌*ℤ◌, quot, ◌==ℤ◌, ◌==◌, not,
}
use psmoveinput.Common.{
  ControllerId, first, key_psmove_disconnect, key_psmove_move_trigger, key_psmove_gesture_trigger,
  key_psmove_mwheel_up, key_psmove_mwheel_down, btn_gesture_right, btn_gesture_down,
  btn_gesture_left,
}
use psmoveinput.Handler.{
  Handler, Timespec, Signal, move, key, disconnect, mwheel, new, reset, Result,
}
use psmoveinput.Handler.Session.{Report, gyro, swing, press, handle}

abbrev pub key_max : ℕ
key_max = 767

abbrev pub btn_triangle : ℕ
btn_triangle = 2 ^ 4

abbrev pub btn_circle : ℕ
btn_circle = 2 ^ 5

abbrev pub btn_cross : ℕ
btn_cross = 2 ^ 6

abbrev pub btn_square : ℕ
btn_square = 2 ^ 7

abbrev pub btn_select : ℕ
btn_select = 2 ^ 8

abbrev pub btn_start : ℕ
btn_start = 2 ^ 11

abbrev pub btn_move : ℕ
btn_move = 2 ^ 19

abbrev pub btn_t : ℕ
btn_t = 2 ^ 20

abbrev pub key_x : ℕ
key_x = 45

abbrev pub key_enter : ℕ
key_enter = 28

abbrev pub key_space : ℕ
key_space = 57

abbrev pub key_down : ℕ
key_down = 108

abbrev pub key_r : ℕ
key_r = 19

abbrev pub key_d : ℕ
key_d = 32

abbrev pub key_l : ℕ
key_l = 38

-- The coefficients are halves.
abbrev pub scale : ℤ → ℤ → ℤ
scale n halves = quot (n *ℤ halves) 2

-- `class TestListener`; the last key is the first of the list.
pub record TestListener : Type 0 where
  pub dx : ℤ
  pub dy : ℤ
  pub keys : List (ℕ × Bool)
  pub is_disconnected : Bool
  pub id : ControllerId
  pub mwheel_value : ℤ

abbrev pub new_test_listener : TestListener
new_test_listener = record {
  dx = pos 0;
  dy = pos 0;
  keys = [];
  is_disconnected = false;
  id = first;
  mwheel_value = pos 0;
}

abbrev pub hear : Signal → TestListener → TestListener
hear (move dx dy) l = record l { dx = dx; dy = dy }
hear (key code pressed) l = record l { keys = (code, pressed) ∷ l.keys }
hear (disconnect id) l = record l { is_disconnected = true; id = id }
hear (mwheel value) l = record l { mwheel_value = value }

abbrev pub hear_all : List Signal → TestListener → TestListener
hear_all [] l = l
hear_all (s ∷ rest) l = hear_all rest (hear s l)

-- `PSMoveHandlerTest::SetUp` and `PSMoveHandlerTriggerTest::SetUp`.
abbrev pub set_up : Handler ℤ
set_up =
    new key_max
      (record { pscode = btn_cross; lincode = key_x }
        ∷ record { pscode = btn_start; lincode = key_enter }
        ∷ record { pscode = btn_triangle; lincode = key_psmove_disconnect key_max }
        ∷ record { pscode = btn_square; lincode = key_psmove_mwheel_up key_max }
        ∷ record { pscode = btn_circle; lincode = key_psmove_mwheel_down key_max }
        ∷ [])
      (record { pscode = btn_cross; lincode = key_space }
        ∷ record { pscode = btn_start; lincode = key_down }
        ∷ record { pscode = btn_gesture_right; lincode = key_r }
        ∷ record { pscode = btn_gesture_down; lincode = key_d }
        ∷ [])
      (record { cx = pos 1; cy = pos 4 }) (pos 100) (pos 50)

abbrev pub trigger_set_up : Handler ℤ
trigger_set_up =
    new key_max (record { pscode = btn_move; lincode = key_psmove_move_trigger key_max } ∷ [])
      (record { pscode = btn_cross; lincode = key_space }
        ∷ record { pscode = btn_start; lincode = key_down }
        ∷ record { pscode = btn_gesture_left; lincode = key_l }
        ∷ record { pscode = btn_t; lincode = key_psmove_gesture_trigger key_max }
        ∷ [])
      (record { cx = pos 2; cy = pos 2 }) (pos 0) (pos 40)

-- A line of a test. `sleep` is in milliseconds.
pub data Line : Type 0 where
  call_gyroscope call_gesture : ℤ → ℤ → Line
  call_buttons : ℕ → ControllerId → Line
  reset_handler clear_keys clear_moves : Line
  sleep : ℕ → Line
  assert : (TestListener → Bool) → Line

-- A test at work: the clock in nanoseconds, the handler and the listener.
pub record Test : Type 0 where
  pub clock : ℕ
  pub handler : Handler ℤ
  pub listener : TestListener

abbrev reading : ℕ → Timespec
reading ns = record { tv_sec = ns / 1000000000; tv_nsec = ns % 1000000000 }

-- A call takes 0.1 milliseconds, and its readings follow each other in its first microseconds.
abbrev report_of : ℕ → Line → Report
report_of ns (call_gyroscope gx gy) = gyro (reading ns) gx gy
report_of ns (call_gesture gx gy) =
    swing (reading ns) (reading (ns + 1000)) (reading (ns + 2000)) gx gy
report_of ns (call_buttons buttons c) = press (reading ns) (reading (ns + 1000)) buttons c
report_of ns _ = gyro (reading ns) (pos 0) (pos 0)

-- The lines that are left are run, if the call has returned.
abbrev resume : ℕ → TestListener → Result ℤ → (Test → Bool) → Bool
resume ns l none rest = false
resume ns l (some (h, xs)) rest =
    rest (record { clock = ns + 100000; handler = h; listener = hear_all xs l })

abbrev call : Line → Test → (Test → Bool) → Bool
call line t rest =
    resume t.clock t.listener (handle scale key_max (report_of t.clock line) t.handler) rest

-- All assertions hold.
unfoldable pub run_test : List Line → Test → Bool
run_test [] t = true
run_test (reset_handler ∷ rest) t = run_test rest (record t { handler = reset t.handler })
run_test (clear_keys ∷ rest) t =
    run_test rest (record t { listener = record (t.listener) { keys = [] } })
run_test (clear_moves ∷ rest) t =
    run_test rest (record t { listener = record (t.listener) { dx = pos 0; dy = pos 0 } })
run_test (sleep ms ∷ rest) t = run_test rest (record t { clock = t.clock + ms * 1000000 })
run_test (assert test ∷ rest) t = test t.listener && run_test rest t
run_test (line ∷ rest) t = call line t (run_test rest)

abbrev pub passes : Handler ℤ → List Line → Bool
passes h lines =
    run_test lines (record { clock = 1500000000; handler = h; listener = new_test_listener })

-- Assertions on the listener.
abbrev same_key : ℕ × Bool → ℕ → Bool → Bool
same_key (code, true) k pressed = code == k && pressed
same_key (code, false) k pressed = code == k && not pressed

-- The last key, and the number of keys.
abbrev pub last_is : ℕ → Bool → TestListener → Bool
last_is k pressed l = is_last l.keys
  where
    is_last : List (ℕ × Bool) → Bool
    is_last [] = false
    is_last (e ∷ rest) = same_key e k pressed

abbrev pub has_key : ℕ → Bool → TestListener → Bool
has_key k pressed l = is_among l.keys
  where
    is_among : List (ℕ × Bool) → Bool
    is_among [] = false
    is_among (e ∷ rest) = same_key e k pressed || is_among rest

abbrev pub keys_are : ℕ → TestListener → Bool
keys_are n l = count l.keys == n
  where
    count : List (ℕ × Bool) → ℕ
    count [] = 0
    count (e ∷ rest) = 1 + count rest

abbrev pub is_moved : ℤ → ℤ → TestListener → Bool
is_moved dx dy l = (l.dx ==ℤ dx) && (l.dy ==ℤ dy)
