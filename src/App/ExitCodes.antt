-- ===== src/App/ExitCodes.antt =====
-- psmoveinput.cpp: when `run` starts to listen, and what its exit code says.
use psmoveinput.Prelude.{
  Bool, true, false, List, [], ◌∷◌, pos, negsuc, ltb_ℤ, ◌≡◌, ◌≢◌, ◌⊎◌, arith, ◌≤ℤ◌,
}
use psmoveinput.KeyMapParser.{Macros}
use psmoveinput.InputDevice.{InputCodes, create}
use psmoveinput.Config.{Config, System, parse}
use psmoveinput.App.State.{
  run, Effect, listen, Answers, ◌>>◌, handle_exception, process_config, setup_log, check_pid_file,
  write_pid_file, go_to_background, daemonize, init_device, start_listener, try_block, catch_all,
  print_help, asks_for_help,
}

-- Whether the listener was started.
unfoldable pub listens : List Effect → Bool
listens [] = false
listens (listen ∷ rest) = true
listens (_ ∷ rest) = listens rest

-- The program is to run: the configuration is valid, and neither help nor version is asked for.
abbrev pub IsToRun : {D : Type 0} → Config D → Type 0
IsToRun c = (c.ok ≡ true) × (c.help ≡ false) × (c.version ≡ false)

-- It stays in the foreground, or it is the child of a fork that could detach itself.
abbrev pub IsDaemon : {D : Type 0} → Answers → Config D → Type 0
IsDaemon a c = (c.foreground ≡ true) ⊎ ((a.fork ≡ pos 0) × (pos 0 ≤ℤ a.setsid) × (pos 0 ≤ℤ a.chdir))

module _ {D : Type 0} (codes : InputCodes) (a : Answers) where
  started :
      (helps : Bool) (c : Config D)
      → let (code, es) = catch_all c (try_block codes a helps c) in
        (listens es ≡ true
          → IsToRun c
            × (ltb_ℤ a.pid_file (pos 0) ≡ true)
            × IsDaemon a c
            × (a.creat ≢ negsuc 0)
            × (pos 0 ≤ℤ a.uinput))
        × (IsToRun c
            → (ltb_ℤ a.pid_file (pos 0) ≡ true)
            → IsDaemon a c
            → (a.creat ≢ negsuc 0)
            → (pos 0 ≤ℤ a.uinput)
            → listens es ≡ true)
  unfolding catch_all try_block print_help process_config setup_log check_pid_file daemonize
      write_pid_file go_to_background init_device create start_listener handle_exception ◌>>◌
      listens
  started helps c = ground arith

  coded :
      (helps : Bool) (c : Config D)
      → let (code, es) = catch_all c (try_block codes a helps c) in
        (code ≡ 2 → c.ok ≡ false)
        × (c.ok ≡ false → code ≡ 2)
        × (code ≡ 3 → IsToRun c × (ltb_ℤ a.pid_file (pos 0) ≡ false))
        × (IsToRun c → ltb_ℤ a.pid_file (pos 0) ≡ false → code ≡ 3)
        × (code ≡ 0
            → (c.help ≡ true)
              ⊎ (c.version ≡ true)
              ⊎ ((c.foreground ≡ false) × (ltb_ℤ (pos 0) a.fork ≡ true))
              ⊎ ((listens es ≡ true) × (a.listener_throws ≡ false)))
  unfolding catch_all try_block print_help process_config setup_log check_pid_file daemonize
      write_pid_file go_to_background init_device create start_listener handle_exception ◌>>◌
      listens
  coded helps c = ground arith

  -- A run starts the listener exactly if the parsed configuration is valid and asks neither for
  -- help nor for the version, the pid file cannot be opened but created, the program stays in the
  -- foreground or is the detached child of a fork, and uinput can be opened.
  pub run-listens :
      (macros : Macros) (sys : System D) (c : Config D)
      → let c' = parse macros sys c in
        let es = (run macros sys codes a c).1 in
        (listens es ≡ true
          → IsToRun c'
            × (ltb_ℤ a.pid_file (pos 0) ≡ true)
            × IsDaemon a c'
            × (a.creat ≢ negsuc 0)
            × (pos 0 ≤ℤ a.uinput))
        × (IsToRun c'
            → ltb_ℤ a.pid_file (pos 0) ≡ true
            → IsDaemon a c'
            → a.creat ≢ negsuc 0
            → pos 0 ≤ℤ a.uinput
            → listens es ≡ true)
  unfolding run
  run-listens macros sys c = started (asks_for_help sys.command_line) (parse macros sys c)

  -- The exit code is 2 exactly for an invalid configuration. It is 3 exactly if the program is to
  -- run and the pid file can be opened. If it is 0, help or the version was asked for, or this is
  -- the parent of the fork, or the listener has run to its end.
  pub run_exit_code :
      (macros : Macros) (sys : System D) (c : Config D)
      → let c' = parse macros sys c in
        let (code, es) = run macros sys codes a c in
        (code ≡ 2 → c'.ok ≡ false)
        × (c'.ok ≡ false → code ≡ 2)
        × (code ≡ 3 → IsToRun c' × (ltb_ℤ a.pid_file (pos 0) ≡ false))
        × (IsToRun c' → ltb_ℤ a.pid_file (pos 0) ≡ false → code ≡ 3)
        × (code ≡ 0
            → (c'.help ≡ true)
              ⊎ (c'.version ≡ true)
              ⊎ ((c'.foreground ≡ false) × (ltb_ℤ (pos 0) a.fork ≡ true))
              ⊎ ((listens es ≡ true) × (a.listener_throws ≡ false)))
  unfolding run
  run_exit_code macros sys c = coded (asks_for_help sys.command_line) (parse macros sys c)
