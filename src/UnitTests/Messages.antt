-- ===== src/UnitTests/Messages.antt =====
-- test/log_test.cpp: a backend that keeps its parameters and the last message, and the tests of the log,
-- which pass.
use Prim.Native.String.{String}
use text.Mathlib.Text.{◌==◌ as str_eq}
use psmoveinput.Prelude.{Bool, true, ◌&&◌, List, [], ◌∷◌, Option, none, some, ◌≡◌, refl}
use psmoveinput.Common.{LogLevel, fatal, error, info}
use psmoveinput.Log.{LogParams, default_params, LogBackend, Log, new_log, add_backend, write}

record TestLogBackend : Type 0 where
  params : LogParams
  lastmsg : String

abbrev test_backend : LogBackend TestLogBackend
test_backend = record {
  init_backend = λ params b. record b { params = params };
  write_message = λ msg b. record b { lastmsg = msg };
}

abbrev fresh_backend : TestLogBackend
fresh_backend = record { params = default_params; lastmsg = "" }

-- The log with a test backend, its only one, and the last message that this has got.
abbrev log_with : LogLevel → Log TestLogBackend
log_with level =
    add_backend test_backend fresh_backend
      (new_log (record { logfile = "testfile"; loglevel = level }))

abbrev last_message : Log TestLogBackend → String
last_message log = last_of log.backends
  where
    last_of : List (Option TestLogBackend) → String
    last_of [] = ""
    last_of (none ∷ rest) = ""
    last_of (some b ∷ rest) = b.lastmsg

-- Each message is written, and after it the last one is as it should be.
unfoldable expects : List (String × LogLevel × String) → Log TestLogBackend → Bool
expects [] log = true
expects ((msg, level, last) ∷ rest) log =
    let log' = write test_backend msg level log in
    str_eq (last_message log') last && expects rest log'

abbrev params_test : List (Option TestLogBackend)
params_test = (log_with info).backends

params_passes :
    params_test
    ≡ some (record { params = record { logfile = "testfile"; loglevel = info }; lastmsg = "" }) ∷ []
unfolding add_backend
params_passes = refl

abbrev write_error_test : Bool
write_error_test =
    expects
      (("error message", error, "error message")
        ∷ ("fatal error message", fatal, "fatal error message")
        ∷ ("informational message", info, "fatal error message")
        ∷ [])
      (log_with error)

write_error_passes : write_error_test ≡ true
unfolding add_backend write expects
write_error_passes = refl

abbrev write_fatal_test : Bool
write_fatal_test =
    expects
      (("fatal error message", fatal, "fatal error message")
        ∷ ("error message", error, "fatal error message")
        ∷ ("informational message", info, "fatal error message")
        ∷ [])
      (log_with fatal)

write_fatal_passes : write_fatal_test ≡ true
unfolding add_backend write expects
write_fatal_passes = refl

abbrev write_info_test : Bool
write_info_test =
    expects
      (("error message", error, "error message")
        ∷ ("fatal error message", fatal, "fatal error message")
        ∷ ("informational message", info, "informational message")
        ∷ [])
      (log_with info)

write_info_passes : write_info_test ≡ true
unfolding add_backend write expects
write_info_passes = refl
