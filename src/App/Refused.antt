-- ===== src/App/Refused.antt =====
-- psmoveinput.cpp and config.cpp: a request for help or the version beside an invalid config file.
use Prim.Native.String.{String}
use psmoveinput.Prelude.{
  ◌++◌, ◌∷◌, if◌then◌else◌, true, false, [], ◌≡◌, ◌⊎◌, inl, inr, Bool-cases, refl, arith,
}
use psmoveinput.KeyMapParser.{Macros}
use psmoveinput.InputDevice.{InputCodes}
use psmoveinput.Config.{
  System, Config, Options, parsed, failed, parse, parse_config, parse_options, handle_cmd_line,
  config_file_ok, is_set,
}
use psmoveinput.App.State.{
  Answers, run, try_block, process_config, ◌>>◌, catch_all, handle_exception, retval_config,
  asks_for_help, print_help, print, print_options,
}

module _ {D : Type 0} (macros : Macros) (sys : System D) (c : Config D) (opts : Options D)
    (msg : String) where
  -- A request for help or the version leaves the location of the config file as it is.
  request_checks_file :
      sys.command_line ≡ parsed opts
      → (is_set (opts "help") ≡ true) ⊎ (is_set (opts "version") ≡ true)
      → sys.readable c.config_file ≡ true
      → sys.config_file_options c.config_file ≡ failed msg
      → (parse macros sys c).ok ≡ false
  unfolding parse handle_cmd_line parse_config parse_options config_file_ok
  request_checks_file line asked readable bad = elim (Bool-cases (is_set (opts "help"))) [
    | inl help ↦ rw (line, help, readable, bad) refl
    | inr no_help ↦ elim asked [
      | inl help ↦ absurd (ground arith)
      | inr version ↦ rw (line, no_help, version, readable, bad) refl
    ]
  ]

  -- Where the command line asks for help or the version, and the config file can be read but its
  -- parser throws, the run prints the options if help is asked for, and then that the configuration is
  -- invalid, does nothing else, and ends with the exit code for that: the version is not printed.
  pub request_fails_on_bad_file :
      (codes : InputCodes) (a : Answers)
      → sys.command_line ≡ parsed opts
      → (is_set (opts "help") ≡ true) ⊎ (is_set (opts "version") ≡ true)
      → sys.readable c.config_file ≡ true
      → sys.config_file_options c.config_file ≡ failed msg
      → run macros sys codes a c ≡ (
        retval_config,
        (if is_set (opts "help") then print_options ∷ [] else [])
            ++ print "Invalid configuration, exiting" ∷ [],
      )
  unfolding run try_block process_config ◌>>◌ catch_all handle_exception asks_for_help print_help
  request_fails_on_bad_file codes a line asked readable bad =
      let e = request_checks_file line asked readable bad in rw (e, line) (ground arith)
