-- ===== src/Log/Examples.antt =====
-- log.cpp: two messages, of which one is enabled.
use Prim.Native.String.{String}
use psmoveinput.Prelude.{ℕ, true, List, [], ◌∷◌, some, none}
use psmoveinput.Common.{LogLevel, error, info}
use psmoveinput.Log.{Log}
use psmoveinput.Log.File.{FileLog}

abbrev format : ℕ → ℕ → String
format sec usec = "1.2: "

abbrev file : FileLog
file = record {
  filename = "a.log";
  good = true;
  opens = λ name. true;
  clock = λ n. some (n, n);
  count = 0;
  lines = [];
}

abbrev log : Log FileLog
log = record {
  params = record { logfile = "a.log"; loglevel = error };
  backends = some file ∷ none ∷ [];
}

abbrev messages : List (String × LogLevel)
messages = ("started", info) ∷ ("failed", error) ∷ []
