-- ===== src/App/PidFile.antt =====
-- psmoveinput.cpp: what `run` leaves of the pid file.
use Prim.Native.String.{String}
use text.Mathlib.Text.{starts_with}
use psmoveinput.Prelude.{
  ◌⊎◌, ◌&&◌, if◌then◌else◌, Bool, true, false, not, List, [], ◌∷◌, All, pos, ltb_ℤ, ◌≡◌, arith,
}
use psmoveinput.KeyMapParser.{Macros}
use psmoveinput.InputDevice.{InputCodes, create}
use psmoveinput.Config.{System, Config, parse}
use psmoveinput.App.State.{
  Effect, create_pid_file, remove_pid_file, Answers, ◌>>◌, handle_exception, process_config,
  setup_log, check_pid_file, write_pid_file, go_to_background, daemonize, init_device,
  start_listener, try_block, catch_all, run, chdir, print_help, asks_for_help,
}

-- Whether a name stands for the same file in every directory.
unfoldable pub is_absolute : String → Bool
is_absolute file = starts_with file "/"

-- Whether there is the file that had this name at the program's start, after some effects, as long as
-- the name stands for the same file: `chdir` goes to another directory, and a relative name then
-- stands for another one.
unfoldable pub present_after : String → Bool → List Effect → Bool → Bool
present_after file same [] before = before
present_after file same (create_pid_file f pid ∷ rest) before =
    present_after file same rest (if same then true else before)
present_after file same (remove_pid_file f ∷ rest) before =
    present_after file same rest (if same then false else before)
present_after file same (chdir ∷ rest) before =
    present_after file (same && is_absolute file) rest before
present_after file same (_ ∷ rest) before = present_after file same rest before

-- An effect on a pid file is one on this file.
abbrev pub IsAbout : String → Effect → Type 0
IsAbout file (create_pid_file f pid) = f ≡ file
IsAbout file (remove_pid_file f) = f ≡ file
IsAbout file _ = Unit {0}

module _ {D : Type 0} (codes : InputCodes) (a : Answers) where
  ends :
      (helps : Bool) (c : Config D)
      → (is_absolute c.pidfile ≡ true) ⊎ (c.foreground ≡ true)
      → let before = not (ltb_ℤ a.pid_file (pos 0)) in
        let es = (catch_all c (try_block codes a helps c)).1 in
        (present_after c.pidfile true es before ≡ before) × All (IsAbout c.pidfile) es
  unfolding catch_all try_block print_help process_config setup_log check_pid_file daemonize
      write_pid_file go_to_background init_device create start_listener handle_exception ◌>>◌
      present_after
  ends helps c stays = ground arith

  -- Let the configuration name its pid file from the root directory, or let the program stay in the
  -- foreground. Then every run, whatever the system answers, leaves the pid file as it found it: one
  -- that can be opened stays, and one that the run makes is taken away again at its end, also where a
  -- later part throws. The only pid file that it touches is the one of the configuration.
  pub run_keeps_pid_file :
      (macros : Macros) (sys : System D) (c : Config D)
      → let c' = parse macros sys c in
        (is_absolute c'.pidfile ≡ true) ⊎ (c'.foreground ≡ true)
        → let before = not (ltb_ℤ a.pid_file (pos 0)) in
          let es = (run macros sys codes a c).1 in
          (present_after c'.pidfile true es before ≡ before) × All (IsAbout c'.pidfile) es
  unfolding run
  run_keeps_pid_file macros sys c stays =
      ends (asks_for_help sys.command_line) (parse macros sys c) stays
