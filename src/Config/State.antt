-- ===== src/Config/State.antt =====
-- config.hpp, and of config.cpp the constructor and the small conversions.
use Prim.Native.Char.{Char, code}
use Prim.Native.String.{String}
use Prim.Native.String
use text.Mathlib.Text.{◌==◌ as str_eq}
use psmoveinput.Prelude.{Bool, true, false, ◌==◌, if◌then◌else◌, [], Option, none, some, ℤ, pos}
use psmoveinput.Common.{
  LogLevel, fatal, error, info, KeyMap, MoveCoeffs, OpMode, standalone, client, PerController,
  ControllerId, at,
}

-- A value of boost::program_options: what `as<T>` is asked for.
pub data Value (D : Type 0) : Type 0 where
  word : String → Value D
  letter : Char → Value D
  real : D → Value D
  integer : ℤ → Value D

-- `variables_map`: `count` tells `none` from `some`.
abbrev pub Options : Type 0 → Type 0
Options D = String → Option (Value D)

-- What `store(parse_…)` does: it fills the map or throws an exception with a message.
pub data Parsed (D : Type 0) : Type 0 where
  parsed : Options D → Parsed D
  failed : String → Parsed D

-- What `Config` asks of the system and of boost: the files that can be read, the home directory of
-- the user (`none`: no passwd entry), the two parsers, and the message of `bad_any_cast`.
pub record System (D : Type 0) : Type 0 where
  pub readable : String → Bool
  pub home : Option String
  pub command_line : Parsed D
  pub config_file_options : String → Parsed D
  pub bad_cast : String

-- The fields of `class Config` that hold state.
pub record Config (D : Type 0) : Type 0 where
  pub message : String
  pub help : Bool
  pub version : Bool
  pub ok : Bool
  pub loglevel_set : Bool
  pub loglevel : LogLevel
  pub logfile : String
  pub logfile_set : Bool
  pub pidfile_set : Bool
  pub pidfile : String
  pub coeffs : MoveCoeffs D
  pub config_file : String
  pub config_file_set : Bool
  pub keymaps : PerController KeyMap
  pub opmode : OpMode
  pub opmode_set : Bool
  pub foreground : Bool
  pub poll_timeout : ℤ
  pub conn_timeout : ℤ
  pub disconnect_timeout : ℤ
  pub led_timeout : ℤ
  pub move_threshold : ℤ
  pub gesture_threshold : ℤ
  pub gesture_timeout : ℤ

abbrev pub def_pidfile : String
def_pidfile = "~/psmoveinput.pid"

abbrev pub def_logfile : String
def_logfile = "~/psmoveinput.log"

abbrev pub def_configfile : String
def_configfile = "/etc/psmoveinput.conf"

-- `expandTilde`: a leading `~` becomes the home directory, if there is one.
unfoldable pub expand_tilde : Option String → String → String
expand_tilde home String.[] = ""
expand_tilde none (String.◌∷◌ c rest) = String.◌∷◌ c rest
expand_tilde (some dir) (String.◌∷◌ c rest) =
    if code c == b'~' then String.◌++◌ dir rest else String.◌∷◌ c rest

-- The constructor. `coeffs` is what the memory of `coeffs_` holds: it is not initialised.
unfoldable pub new : {D : Type 0} → Option String → MoveCoeffs D → Config D
new home coeffs = record {
  message = "";
  help = false;
  version = false;
  ok = false;
  loglevel_set = false;
  loglevel = error;
  logfile = expand_tilde home def_logfile;
  logfile_set = false;
  pidfile_set = false;
  pidfile = expand_tilde home def_pidfile;
  coeffs = coeffs;
  config_file = def_configfile;
  config_file_set = false;
  keymaps = record { fst = []; snd = [] };
  opmode = standalone;
  opmode_set = false;
  foreground = false;
  poll_timeout = pos 20;
  conn_timeout = pos 3000;
  disconnect_timeout = pos 7;
  led_timeout = pos 4000;
  move_threshold = pos 0;
  gesture_threshold = pos 100;
  gesture_timeout = pos 600;
}

module _ {D : Type 0} where
  -- `getLogFromChar`: other characters change nothing.
  unfoldable pub get_log_from_char : Char → Config D → Config D
  get_log_from_char l c =
      if code l == b'0'
      then record c { loglevel = fatal; loglevel_set = true }
      else if code l == b'1'
      then record c { loglevel = error; loglevel_set = true }
      else if code l == b'2'
      then record c { loglevel = info; loglevel_set = true }
      else c

  -- `getModeFromString`.
  unfoldable pub get_mode_from_string : String → Config D → Config D
  get_mode_from_string mode c =
      if str_eq mode "standalone"
      then record c { opmode = standalone; opmode_set = true }
      else if str_eq mode "client"
      then record c { opmode = client; opmode_set = true }
      else c

  -- `configFileOK`: an unreadable file of the command line gives way to the default one.
  unfoldable pub config_file_ok : System D → Config D → Config D × Bool
  config_file_ok sys c =
      if sys.readable c.config_file
      then (c, true)
      else if c.config_file_set
      then if sys.readable def_configfile
        then (record c { config_file = def_configfile }, true)
        else (c, false)
      else (c, false)

  -- `getKeyMap`.
  abbrev pub get_key_map : ControllerId → Config D → KeyMap
  get_key_map controller c = at c.keymaps controller
