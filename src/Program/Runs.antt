-- ===== src/Program/Runs.antt =====
-- psmove_listener.cpp: runs of the program with whole numbers for the coefficients.
use psmoveinput.Prelude.{refl, arith, true, false, List, [], ◌∷◌, All, pos, ◌≡◌, ◌≢◌, ℤ, none, some}
use psmoveinput.Common.{first}
use psmoveinput.Handler.{
  on_buttons, on_buttons_with, update_buttons, button_loop, report_bit, report_entries,
  report_entry, report_key, handle_special_keys, on_gyroscope, move_enabled, has_reading,
  check_triggers, has_lincode,
}
use psmoveinput.Handler.Fixture.{scale, coeffs, keymap1, keymap2}
use psmoveinput.Handler.Following.{down}
use psmoveinput.Handler.Session.{handle}
use psmoveinput.Listener.{
  CanDivide, new_listener, is_full_capacity, connect, connect_from, is_taken, handle_new_device,
  start, Sample, needs_to_stop, poll_round, drain, take_sample, report_motion, begin, update_leds,
  divide, report_buttons, end_thread, is_silent, new_slot, on_disconnect, led_colors, fresh,
  polling,
}
use psmoveinput.Config.{Config, new}
use psmoveinput.App.{init_handler}
use psmoveinput.Program.State.{
  Program, Output, Answers, Move, main_loop, worker, release, notify, interrupt, report, finished,
}
use psmoveinput.Program.Step.{
  went, step, main_step, enter_loop, worker_step, handle_next, initial, detach, detach_slot,
  release_device, notify_listener, after_joins, serve,
}
use psmoveinput.Program.Reach.{IsPattern, Reach, here, later}
use psmoveinput.Program.Launch.{launch}
use psmoveinput.Program.Outputs.{has_reset}
use psmoveinput.Program.Sound.{is_live}
use psmoveinput.Program.Reached.{Reached}

-- The key maps of the handler's examples.
abbrev pub config : Config ℤ
config = record (new none coeffs) { keymaps = record { fst = keymap1; snd = keymap2 } }

pub needed : CanDivide config.poll_timeout config.led_timeout config.gesture_timeout
unfolding new
needed = ground arith

-- Each id has a controller on Bluetooth. There is one sample, and the clock reads 100 seconds later.
abbrev pub answers : Answers
answers = record {
  by_id = λ i. record {
    handle = some (record { serial = "a"; has_calibration = true });
    is_bluetooth = true;
  };
  samples =
      record { gx = pos 3; gz = pos 4; buttons = 128; tp = record { tv_sec = 1; tv_nsec = 5 } }
      ∷ [];
  now = record { tv_sec = 101; tv_nsec = 0 };
  clock = λ i. record { tv_sec = 1; tv_nsec = i };
}

pub answers_fit : All (λ (s : Sample). IsPattern s.buttons) answers.samples
answers_fit = ground arith

-- A run and its end.
abbrev pub Run : Type 0
Run = (q : Program ℤ) × (xs : List Output) × Reached scale 767 (pos 0) config q xs

-- The steps that take one run to another.
abbrev pub Goes : Run → Move → Run → Type 0
Goes r m t = (ys : List Output) × (step scale 767 m r.0 ≡ went t.0 ys)

-- Three steps of the main loop connect to a controller, and its thread enters its loop.
abbrev pub polled : (r : Run) × (is_live r.0.listener.slots.fst.worker ≡ true)
unfolding launch initial step main_step new_listener is_full_capacity connect connect_from is_taken
    handle_new_device start worker_step enter_loop
polled = (
  (
    _,
    _,
    later
        (later (later (later here (main_loop answers) tt refl) (main_loop answers) tt refl)
          (main_loop answers) tt refl)
        (worker first answers) answers_fit refl,
  ),
  refl,
)

-- A signal arrives, the thread leaves its loop, and the main loop sees the request.
abbrev pub stopping :
    (r : Run) × (r.0.listener.stop ≡ true)
    × (q : Program ℤ) × (xs : List Output) × Reach scale 767 r.0 q xs
unfolding launch initial step main_step new_listener is_full_capacity connect connect_from is_taken
    handle_new_device start worker_step enter_loop detach detach_slot new_slot begin led_colors
    end_thread
stopping = (
  (_, _, later polled.0.2 interrupt tt refl),
  refl,
  _,
  _,
  later (later here (worker first answers) answers_fit refl) (main_loop answers) tt refl,
)

-- The thread finds the controller silent and leaves its loop.
abbrev pub left : (r : Run) × (has_reset r.1 ≡ false) × (down first 7 r.0.handler ≡ true)
unfolding launch initial step main_step new_listener is_full_capacity connect connect_from is_taken
    handle_new_device start worker_step enter_loop detach detach_slot release_device notify_listener
    after_joins serve report handle_next poll_round drain take_sample report_motion begin
    update_leds divide report_buttons end_thread is_silent new_slot on_disconnect led_colors handle
    on_buttons on_buttons_with update_buttons button_loop report_bit report_entries report_entry
    report_key handle_special_keys on_gyroscope move_enabled has_reading psmoveinput.Handler.new
    check_triggers has_lincode init_handler new scale
left = (
  (
    _,
    _,
    later
        (later
          (later (later polled.0.2 (worker first answers) answers_fit refl) (worker first answers)
            answers_fit refl)
          (worker first answers) answers_fit refl)
        (worker first answers) answers_fit refl,
  ),
  refl,
  refl,
)

-- Before it clears `move_`, the main loop has started another, which then returns at once.
abbrev pub robbing :
    (r : Run) × (s : Run) × (t : Run) × (r.0.listener.slots.fst.worker ≡ fresh)
    × Goes r (release first) s
    × Goes s (worker first answers) t
unfolding launch initial step main_step new_listener is_full_capacity connect connect_from is_taken
    handle_new_device start worker_step enter_loop detach detach_slot release_device notify_listener
    after_joins serve report handle_next poll_round drain take_sample report_motion begin
    update_leds divide report_buttons end_thread is_silent new_slot on_disconnect led_colors handle
    on_buttons on_buttons_with update_buttons button_loop report_bit report_entries report_entry
    report_key handle_special_keys on_gyroscope move_enabled has_reading psmoveinput.Handler.new
    check_triggers has_lincode init_handler new scale
robbing =
    let r : Run = (
      _,
      _,
      later (later (later left.0.2 (main_loop answers) tt refl) (main_loop answers) tt refl)
          (main_loop answers) tt refl,
    ) in
    let s : Run = (_, _, later r.2 (release first) tt refl) in
    let t : Run = (_, _, later s.2 (worker first answers) answers_fit refl) in
    (r, s, t, refl, (_, refl), (_, refl))

-- It clears `move_` and tells the listener only after another has entered its loop.
abbrev pub telling :
    (r : Run) × (s : Run) × (t : Run) × (r.0.listener.slots.fst.worker ≡ polling)
    × Goes r (notify first) s
    × Goes s (worker first answers) t
    × (needs_to_stop s.0.listener ≡ true)
    × (q : Program ℤ) × (xs : List Output) × (has_reset xs ≡ false)
    × Reach scale 767 s.0 q xs
unfolding launch initial step main_step new_listener is_full_capacity connect connect_from is_taken
    handle_new_device start worker_step enter_loop detach detach_slot release_device notify_listener
    after_joins serve report handle_next poll_round drain take_sample report_motion begin
    update_leds divide report_buttons end_thread is_silent new_slot on_disconnect led_colors handle
    on_buttons on_buttons_with update_buttons button_loop report_bit report_entries report_entry
    report_key handle_special_keys on_gyroscope move_enabled has_reading psmoveinput.Handler.new
    check_triggers has_lincode init_handler new scale
telling =
    let started : Run = (
      _,
      _,
      later
          (later (later (later left.0.2 (release first) tt refl) (main_loop answers) tt refl)
            (main_loop answers) tt refl)
          (main_loop answers) tt refl,
    ) in
    let r : Run = (_, _, later started.2 (worker first answers) answers_fit refl) in
    let s : Run = (_, _, later r.2 (notify first) tt refl) in
    let t : Run = (_, _, later s.2 (worker first answers) answers_fit refl) in
    (
      r,
      s,
      t,
      refl,
      (_, refl),
      (_, refl),
      refl,
      _,
      _,
      refl,
      later (later here (worker first answers) answers_fit refl) (main_loop answers) tt refl,
    )

-- It tells the listener, and the main loop finds no thread to wait for.
abbrev pub resetting :
    (r : Run) × (t : Run) × (ys : List Output) × (r.0.main ≢ finished)
    × (step scale 767 (main_loop answers) r.0 ≡ went t.0 ys)
    × (has_reset ys ≡ true)
unfolding launch initial step main_step new_listener is_full_capacity connect connect_from is_taken
    handle_new_device start worker_step enter_loop detach detach_slot release_device notify_listener
    after_joins serve report handle_next poll_round drain take_sample report_motion begin
    update_leds divide report_buttons end_thread is_silent new_slot on_disconnect led_colors handle
    on_buttons on_buttons_with update_buttons button_loop report_bit report_entries report_entry
    report_key handle_special_keys on_gyroscope move_enabled has_reading psmoveinput.Handler.new
    check_triggers has_lincode init_handler new scale
resetting =
    let r : Run = (
      _,
      _,
      later
          (later (later (later left.0.2 (release first) tt refl) (notify first) tt refl)
            (main_loop answers) tt refl)
          (main_loop answers) tt refl,
    ) in
    let t : Run = (_, _, later r.2 (main_loop answers) tt refl) in
    (r, t, _, ground arith, refl, refl)
