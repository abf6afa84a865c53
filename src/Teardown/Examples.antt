-- ===== src/Teardown/Examples.antt =====
-- psmoveinput.cpp: runs to their end, and what the properties say of them.
use psmoveinput.Prelude.{List, [], ◌∷◌, refl, arith, true, false, ◌≡◌, ◌≢◌, ◌⊎◌, pos, ℤ, some}
use psmoveinput.Common.{ControllerId, first, at}
use psmoveinput.Handler.{
  on_buttons, on_buttons_with, update_buttons, button_loop, report_bit, report_entries,
  report_entry, report_key, handle_special_keys, on_gyroscope, move_enabled, has_reading,
  check_triggers, has_lincode,
}
use psmoveinput.Handler.Fixture.{scale}
use psmoveinput.Handler.Session.{handle}
use psmoveinput.Listener.{
  new_listener, is_full_capacity, connect, connect_from, is_taken, handle_new_device, start,
  poll_round, drain, take_sample, report_motion, begin, update_leds, divide, report_buttons,
  end_thread, is_silent, new_slot, on_disconnect, led_colors,
}
use psmoveinput.App.{init_handler}
use psmoveinput.Config.{new}
use psmoveinput.Program.{
  Program, after_joins, detach, detach_slot, enter_loop, handle_next, initial, interrupt, main_loop,
  main_step, notify, notify_joined, notify_listener, release, release_device, release_joined,
  report, serve, step, worker_step,
}
use psmoveinput.Program.Launch.{launch}
use psmoveinput.Program.Runs.{config, answers, left}
use psmoveinput.Teardown.Objects.{
  Object, slot_object, listener_object, Memory, Parts, does, destroy_instance, made, nothing_left,
  is_there, without, delete_object, destroy_log, destroy_slot, destroy_listener,
}
use psmoveinput.Teardown.Phases.{
  Phase, down, Action, moves, deletes, dangles, act, touched, missing, delete_instance,
}
use psmoveinput.Teardown.Freed.{destroy_frees_all}
use psmoveinput.Teardown.Run.{Comes, goes, Reach-Comes}
use psmoveinput.Teardown.Dangling.{only_leavers_dangle}

-- The run failed when it opened the device.
abbrev early : Parts
early = record {
  log = true;
  device = false;
  handler = false;
  listener = false;
  threads = record { fst = false; snd = false };
}

destroy_frees_all_example : does (destroy_instance early) (made early) ≡ some nothing_left
destroy_frees_all_example = destroy_frees_all early

abbrev Phased : Phase ℤ → Type 0
Phased = Comes scale 767 (pos 0) config

abbrev End : Type 0
End = (p : Program ℤ) × (m : Memory) × Phased (down p m)

-- A signal arrives when a thread has just cleared its `thread_`: the main loop does not wait for it, and
-- the instance is deleted.
abbrev unawaited : (r : End) × (((at r.0.leavers first).detached) ≢ 0)
unfolding launch initial step main_step new_listener is_full_capacity connect connect_from is_taken
    handle_new_device start worker_step enter_loop detach detach_slot release_device notify_listener
    after_joins serve report handle_next poll_round drain take_sample report_motion begin
    update_leds divide report_buttons end_thread is_silent new_slot on_disconnect led_colors handle
    on_buttons on_buttons_with update_buttons button_loop report_bit report_entries report_entry
    report_key handle_special_keys on_gyroscope move_enabled has_reading psmoveinput.Handler.new
    check_triggers has_lincode init_handler new scale act delete_instance does destroy_instance made
    is_there without delete_object destroy_log destroy_slot destroy_listener touched missing
    release_joined notify_joined Reach-Comes
unawaited =
    let asked = goes (Reach-Comes scale 767 (pos 0) config left.0.2) (moves interrupt) tt refl in
    let seen = goes asked (moves (main_loop answers)) tt refl in
    let one = goes seen (moves (main_loop answers)) tt refl in
    let two = goes one (moves (main_loop answers)) tt refl in
    ((_, _, goes two deletes tt refl), ground arith)

only_leavers_dangle_example :
    ((x : Action) (os : List Object)
      → act scale 767 x (down unawaited.0.0 unawaited.0.1) ≡ dangles os
      → (d : ControllerId) × ((x ≡ moves (release d))
            × ((at unawaited.0.0.leavers d).detached ≢ 0)
            × (os ≡ slot_object d ∷ [])
          ⊎ (x ≡ moves (notify d))
            × ((at unawaited.0.0.leavers d).released ≢ 0)
            × (os ≡ slot_object d ∷ listener_object ∷ [])))
    × ((d : ControllerId)
        → ((at unawaited.0.0.leavers d).detached ≢ 0
            → act scale 767 (moves (release d)) (down unawaited.0.0 unawaited.0.1)
              ≡ dangles (slot_object d ∷ []))
          × ((at unawaited.0.0.leavers d).released ≢ 0
              → act scale 767 (moves (notify d)) (down unawaited.0.0 unawaited.0.1)
                ≡ dangles (slot_object d ∷ listener_object ∷ [])))
only_leavers_dangle_example = only_leavers_dangle scale 767 (pos 0) config unawaited.0.2

-- The thread's next step writes to its slot, which is gone.
slot_written_late :
    act scale 767 (moves (release first)) (down unawaited.0.0 unawaited.0.1)
    ≡ dangles (slot_object first ∷ [])
unfolding launch initial step main_step new_listener is_full_capacity connect connect_from is_taken
    handle_new_device start worker_step enter_loop detach detach_slot release_device notify_listener
    after_joins serve report handle_next poll_round drain take_sample report_motion begin
    update_leds divide report_buttons end_thread is_silent new_slot on_disconnect led_colors handle
    on_buttons on_buttons_with update_buttons button_loop report_bit report_entries report_entry
    report_key handle_special_keys on_gyroscope move_enabled has_reading psmoveinput.Handler.new
    check_triggers has_lincode init_handler new scale act delete_instance does destroy_instance made
    is_there without delete_object destroy_log destroy_slot destroy_listener touched missing
    release_joined notify_joined Reach-Comes
slot_written_late = refl
