-- ===== src/App/Examples.antt =====
-- psmoveinput.cpp: concrete signals, and a run in the background on which uinput cannot be opened.
use psmoveinput.Prelude.{
  if◌then◌else◌, inl, inr, refl, some, arith, true, false, List, [], ◌∷◌, All, pos, negsuc, ltb_ℤ,
  ◌≡◌, ◌≢◌, ◌⊎◌, ◌≤ℤ◌, ℤ, none, ◌++◌,
}
use text.Mathlib.Text.{◌==◌ as str_eq}
use psmoveinput.Common.{first, MoveCoeffs}
use psmoveinput.KeyMapParser.{Macros}
use psmoveinput.Handler.{Signal, move, key, disconnect, mwheel}
use psmoveinput.App.Refused.{request_fails_on_bad_file}
use psmoveinput.InputDevice.{InputCodes}
use psmoveinput.InputDevice.Frames.{AreDistinct, frames, no_frame}
use psmoveinput.Config.{System, Config, Options, word, parsed, failed, parse, new}
use psmoveinput.App.Lifetime.{LifeEvent, main_program, requests, short_lives, main_lives}
use psmoveinput.App.State.{Answers, run, print}
use psmoveinput.App.Wiring.{deliver_all, signal_frames, frames-deliver_all}
use psmoveinput.App.PidFile.{present_after, IsAbout, run_keeps_pid_file, is_absolute}
use psmoveinput.App.ExitCodes.{listens, IsToRun, IsDaemon, run-listens, run_exit_code}

-- The values of <linux/input.h>.
abbrev codes : InputCodes
codes = record {
  ev_syn = 0;
  ev_key = 1;
  ev_rel = 2;
  rel_x = 0;
  rel_y = 1;
  rel_wheel = 8;
  syn_report = 0;
  bus_bluetooth = 5;
  uinput_max_name_size = 80;
}

codes-AreDistinct : AreDistinct codes
codes-AreDistinct = record {
  syn_key = omega arith;
  syn_rel = omega arith;
  key_rel = omega arith;
  x_y = omega arith;
  x_wheel = omega arith;
  y_wheel = omega arith;
}

abbrev signals : List Signal
signals =
    move (pos 3) (negsuc 1) ∷ key 30 true ∷ disconnect first ∷ mwheel (pos 1) ∷ key 30 false ∷ []

frames-deliver_all_example :
    frames codes no_frame (deliver_all codes signals) ≡ signal_frames signals
frames-deliver_all_example = frames-deliver_all codes signals codes-AreDistinct (ground arith)

abbrev answers : Answers
answers = record {
  pid_file = negsuc 0;
  fork = pos 0;
  setsid = pos 1;
  chdir = pos 0;
  creat = pos 3;
  pid = 7;
  uinput = negsuc 0;
  listener_throws = false;
}

abbrev macros : Macros
macros = record { button = λ name. 16; key = λ name. 30; key_reserved = 0; key_max = 767 }

abbrev sys : System ℤ
sys = record {
  readable = λ file. true;
  home = none;
  command_line = parsed (λ name. none);
  config_file_options = λ file. parsed (λ name. none);
  bad_cast = "bad cast";
}

abbrev coeffs : MoveCoeffs ℤ
coeffs = record { cx = pos 1; cy = pos 1 }

abbrev config : Config ℤ
config = new none coeffs

-- The pid file has a name from the root directory.
abbrev rooted : Config ℤ
rooted = record config { pidfile = "/run/psmoveinput.pid" }

rooted_stays : is_absolute (parse macros sys rooted).pidfile ≡ true
unfolding is_absolute parse psmoveinput.Config.handle_cmd_line
    psmoveinput.Config.command_line_options psmoveinput.Config.◌>>=◌ psmoveinput.Config.set_pidfile
    psmoveinput.Config.set_loglevel psmoveinput.Config.set_logfile
    psmoveinput.Config.set_config_file psmoveinput.Config.set_mode psmoveinput.Config.parse_config
    psmoveinput.Config.config_file_ok psmoveinput.Config.parse_options
    psmoveinput.Config.file_settings psmoveinput.Config.set_cx psmoveinput.Config.set_cy
    psmoveinput.Config.file_numbers psmoveinput.Config.key_options psmoveinput.Config.key_round
    psmoveinput.Config.key_value psmoveinput.Config.is_key_option
    psmoveinput.Config.set_conn_timeout psmoveinput.Config.set_disconnect_timeout
    psmoveinput.Config.set_gesture_threshold psmoveinput.Config.set_gesture_timeout
    psmoveinput.Config.set_led_timeout psmoveinput.Config.set_move_threshold
    psmoveinput.Config.set_poll_timeout
rooted_stays = refl

run_keeps_pid_file_example :
    let file = (parse macros sys rooted).pidfile in
    let es = (run macros sys codes answers rooted).1 in
    (present_after file true es false ≡ false) × All (IsAbout file) es
run_keeps_pid_file_example = run_keeps_pid_file codes answers macros sys rooted (inl rooted_stays)

run-listens_example :
    let c' = parse macros sys config in
    let es = (run macros sys codes answers config).1 in
    (listens es ≡ true
      → IsToRun c'
        × (ltb_ℤ (negsuc 0) (pos 0) ≡ true)
        × IsDaemon answers c'
        × (pos 3 ≢ negsuc 0)
        × (pos 0 ≤ℤ negsuc 0))
    × (IsToRun c'
        → ltb_ℤ (negsuc 0) (pos 0) ≡ true
        → IsDaemon answers c'
        → pos 3 ≢ negsuc 0
        → pos 0 ≤ℤ negsuc 0
        → listens es ≡ true)
run-listens_example = run-listens codes answers macros sys config

run_exit_code_example :
    let c' = parse macros sys config in
    let (code, es) = run macros sys codes answers config in
    (code ≡ 2 → c'.ok ≡ false)
    × (c'.ok ≡ false → code ≡ 2)
    × (code ≡ 3 → IsToRun c' × (ltb_ℤ (negsuc 0) (pos 0) ≡ false))
    × (IsToRun c' → ltb_ℤ (negsuc 0) (pos 0) ≡ false → code ≡ 3)
    × (code ≡ 0
        → (c'.help ≡ true)
          ⊎ (c'.version ≡ true)
          ⊎ ((c'.foreground ≡ false) × (ltb_ℤ (pos 0) (pos 0) ≡ true))
          ⊎ ((listens es ≡ true) × (answers.listener_throws ≡ false)))
run_exit_code_example = run_exit_code codes answers macros sys config

-- The command line asks for the version, and the config file cannot be parsed.
abbrev asking : Options ℤ
asking name = if str_eq name "version" then some (word "") else none

abbrev bad_sys : System ℤ
bad_sys = record sys {
  command_line = parsed asking;
  config_file_options = λ file. failed "unrecognised option";
}

request_fails_on_bad_file_example :
    run macros bad_sys codes answers config ≡ (2, print "Invalid configuration, exiting" ∷ [])
request_fails_on_bad_file_example =
    request_fails_on_bad_file macros bad_sys config asking "unrecognised option" codes answers refl
      (inr refl) refl refl

-- One signal before the listener is there, two that find it, and one after the run.
main_lives_example :
    ((main_program (false ∷ true ∷ true ∷ []) 1).0.instance ≡ none)
    × ((main_program (false ∷ true ∷ true ∷ []) 1).1
        ≡ (LifeEvent.constructed 0 ∷ [])
          ++ requests 0 (false ∷ true ∷ true ∷ [])
          ++ (LifeEvent.destroyed 0 ∷ [])
          ++ short_lives 1 1)
main_lives_example = main_lives (false ∷ true ∷ true ∷ []) 1
