-- ===== src/App/State.antt =====
-- psmoveinput.cpp: `run` with its steps, and `handleException`. The answers of the system and the
-- fate of the listener are given; what the program does is written down in order.
use Prim.Native.String.{String}
use psmoveinput.Prelude.{
  ℕ, Bool, false, not, List, [], ◌∷◌, ◌++◌, map, if◌then◌else◌, ℤ, pos, negsuc, ltb_ℤ, ◌==ℤ◌,
}
use psmoveinput.Common.{LogLevel, KeyMapEntry, first, second}
use psmoveinput.KeyMapParser.{Macros}
use psmoveinput.InputDevice.{InputCodes, SystemCall, created, open_failed, create}
use psmoveinput.Handler.{Handler, new}
use psmoveinput.Config.{System, Config, get_key_map, parse, Parsed, parsed, failed, is_set}

-- `enum class ex_type`.
pub data ExType : Type 0 where
  invalid_config help_rq version_rq already_running fork_failed parent_quit pidfile_creat_failed :
      ExType

abbrev pub retval_ok : ℕ
retval_ok = 0

abbrev pub retval_fail : ℕ
retval_fail = 1

abbrev pub retval_config : ℕ
retval_config = 2

abbrev pub retval_already : ℕ
retval_already = 3

abbrev pub retval_fork : ℕ
retval_fork = 4

abbrev pub retval_pid : ℕ
retval_pid = 5

-- `INPUT_DEVICE_NAME`, "psmoveinput".
abbrev pub input_device_name : List ℕ
input_device_name = 112 ∷ 115 ∷ 109 ∷ 111 ∷ 118 ∷ 101 ∷ 105 ∷ 110 ∷ 112 ∷ 117 ∷ 116 ∷ []

-- What the program does to its surroundings.
pub data Effect : Type 0 where
  open_log : String → LogLevel → Effect
  umask setsid chdir redirect : Effect
  create_pid_file : String → ℕ → Effect
  remove_pid_file : String → Effect
  set_signal_handlers : Effect
  setup_device : List SystemCall → Effect
  listen : Effect
  print : String → Effect
  print_options print_version : Effect

-- What the system answers: the descriptors of `open` and `creat`, the results of `fork`, `setsid`
-- and `chdir`, and whether the listener ends with a `std::exception`.
pub record Answers : Type 0 where
  pub pid_file : ℤ
  pub fork : ℤ
  pub setsid : ℤ
  pub chdir : ℤ
  pub creat : ℤ
  pub pid : ℕ
  pub uinput : ℤ
  pub listener_throws : Bool

-- A part of the `try` block of `run`: it goes on, throws an `Exception`, or a `std::exception`.
pub data Part : Type 0 where
  proceed : List Effect → Part
  raise : ExType → List Effect → Part
  fail : List Effect → Part

infixl 5 ◌>>◌
unfoldable pub ◌>>◌ : Part → Part → Part
proceed es >> proceed es' = proceed (es ++ es')
proceed es >> raise x es' = raise x (es ++ es')
proceed es >> fail es' = fail (es ++ es')
raise x es >> p = raise x es
fail es >> p = fail es

-- `handleException`, for this pid file: the exit code, and what it prints.
unfoldable pub handle_exception : String → ExType → ℕ × List Effect
handle_exception file invalid_config = (retval_config, print "Invalid configuration, exiting" ∷ [])
handle_exception file already_running = (
  retval_already,
  print "An instance of psmoveinput is already running. " ∷ print "Pidfile: " ∷ print file ∷ [],
)
handle_exception file fork_failed = (retval_fork, print "Forking failed" ∷ [])
handle_exception file parent_quit = (retval_ok, [])
handle_exception file pidfile_creat_failed = (retval_pid, [])
handle_exception file help_rq = (retval_ok, [])
handle_exception file version_rq = (retval_ok, print_version ∷ [])

-- Whether `handleCmdLine` finds the help option, and then prints all options.
unfoldable pub asks_for_help : {D : Type 0} → Parsed D → Bool
asks_for_help (failed msg) = false
asks_for_help (parsed opts) = is_set (opts "help")

unfoldable pub print_help : Bool → List Effect
print_help asked = if asked then print_options ∷ [] else []

unfoldable pub check_pid_file : Answers → Part
check_pid_file a = if ltb_ℤ a.pid_file (pos 0) then proceed [] else raise already_running []

-- The part of `daemonize` that goes to the background.
unfoldable pub go_to_background : Answers → Part
go_to_background a =
    if ltb_ℤ a.fork (pos 0)
    then raise fork_failed []
    else if ltb_ℤ (pos 0) a.fork
    then raise parent_quit []
    else if ltb_ℤ a.setsid (pos 0)
    then raise fork_failed (umask ∷ setsid ∷ [])
    else if ltb_ℤ a.chdir (pos 0)
    then raise fork_failed (umask ∷ setsid ∷ chdir ∷ [])
    else proceed (umask ∷ setsid ∷ chdir ∷ redirect ∷ [])

-- `startListener` runs until the listener is stopped.
unfoldable pub start_listener : Answers → Part
start_listener a = if a.listener_throws then fail (listen ∷ []) else proceed (listen ∷ [])

module _ {D : Type 0} where
  -- The checks of `processConfig`, on the parsed configuration.
  unfoldable pub process_config : Config D → Part
  process_config c =
      if not c.ok
      then raise invalid_config []
      else if c.help
      then raise help_rq []
      else if c.version
      then raise version_rq []
      else proceed []

  unfoldable pub setup_log : Config D → Part
  setup_log c = proceed (open_log c.logfile c.loglevel ∷ [])

  unfoldable pub write_pid_file : Answers → Config D → Part
  write_pid_file a c =
      if a.creat ==ℤ negsuc 0
      then raise pidfile_creat_failed []
      else proceed (create_pid_file c.pidfile a.pid ∷ [])

  unfoldable pub daemonize : Answers → Config D → Part
  daemonize a c =
      (if not c.foreground
        then proceed (print "Forking to background..." ∷ []) >> go_to_background a
        else proceed [])
      >> write_pid_file a c

  unfoldable pub device_keys : Config D → List ℕ
  device_keys c =
      map (λ (e : KeyMapEntry). e.lincode) (get_key_map first c)
      ++ map (λ (e : KeyMapEntry). e.lincode) (get_key_map second c)

  unfoldable pub init_device : InputCodes → Answers → Config D → Part
  init_device codes a c = elim (create codes a.uinput input_device_name (device_keys c)) [
    | created device calls ↦ proceed (setup_device calls ∷ [])
    | open_failed ↦ fail []
  ]

  -- The handler that `initHandler` makes.
  unfoldable pub init_handler : ℕ → Config D → Handler D
  init_handler key_max c =
      new key_max (get_key_map first c) (get_key_map second c) c.coeffs c.move_threshold
        c.gesture_threshold

  -- The `try` block of `run`, where the parsing has left this configuration, and has or has not found
  -- the help option.
  unfoldable pub try_block : InputCodes → Answers → Bool → Config D → Part
  try_block codes a helps c =
      proceed (print_help helps)
      >> process_config c
      >> proceed (print "Starting psmoveinput" ∷ [])
      >> setup_log c
      >> check_pid_file a
      >> daemonize a c
      >> proceed (set_signal_handlers ∷ [])
      >> init_device codes a c
      >> start_listener a
      >> proceed (remove_pid_file c.pidfile ∷ [])

  -- The handlers of `run`.
  unfoldable pub catch_all : Config D → Part → ℕ × List Effect
  catch_all c (proceed es) = (retval_ok, es)
  catch_all c (raise x es) =
      let (code, printed) = handle_exception c.pidfile x in (code, es ++ printed)
  catch_all c (fail es) = (retval_fail, es ++ remove_pid_file c.pidfile ∷ [])

  -- `run`: the exit code, and all that was done.
  unfoldable pub run : Macros → System D → InputCodes → Answers → Config D → ℕ × List Effect
  run macros sys codes a c =
      let c' = parse macros sys c in
      catch_all c' (try_block codes a (asks_for_help sys.command_line) c')
