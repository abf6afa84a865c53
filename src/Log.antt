-- ===== src/Log.antt =====
-- log.cpp: the level of messages, and the backends that write them. File is the backend of file_log.cpp.
pub mod Backends
pub mod File
pub mod Filter
mod Examples
use Prim.Native.String.{String}
use psmoveinput.Prelude.{ℕ, Bool, List, [], ◌∷◌, ◌++◌, map, Option, none, some, leb, if◌then◌else◌}
use psmoveinput.Common.{LogLevel, fatal, error, info}

-- `struct LogParams`, and its constructor without arguments.
pub record LogParams : Type 0 where
  pub logfile : String
  pub loglevel : LogLevel

abbrev pub default_params : LogParams
default_params = record { logfile = ""; loglevel = error }

-- The values of the enumerators: higher levels have lower values.
abbrev pub level_value : LogLevel → ℕ
level_value fatal = 0
level_value error = 1
level_value info = 2

-- `class LogBackend`: the two functions that a backend overrides.
pub record LogBackend (B : Type 0) : Type 0 where
  pub init_backend : LogParams → B → B
  pub write_message : String → B → B

-- `class Log`; a backend may be a null pointer.
pub record Log (B : Type 0) : Type 0 where
  pub params : LogParams
  pub backends : List (Option B)

-- The constructor.
abbrev pub new_log : {B : Type 0} → LogParams → Log B
new_log params = record { params = params; backends = [] }

module _ {B : Type 0} (backend : LogBackend B) where
  abbrev pub write_backend : String → Option B → Option B
  write_backend msg none = none
  write_backend msg (some b) = some (backend.write_message msg b)

  -- `Log::addBackend`.
  unfoldable pub add_backend : B → Log B → Log B
  add_backend b log = record log {
    backends = log.backends ++ some (backend.init_backend log.params b) ∷ [];
  }

  -- `Log::write`.
  unfoldable pub write : String → LogLevel → Log B → Log B
  write msg lvl log =
      if leb (level_value lvl) (level_value log.params.loglevel)
      then record log { backends = map (write_backend msg) log.backends }
      else log
