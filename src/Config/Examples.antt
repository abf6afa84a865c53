-- ===== src/Config/Examples.antt =====
-- config.cpp: a system on which the config file names a log file, and a command line that did too.
use Prim.Native.String.{String}
use text.Mathlib.Text.{◌==◌ as str_eq}
use psmoveinput.Prelude.{
  ℕ, if◌then◌else◌, true, none, some, ℤ, pos, All, ◌++◌, ◌≡◌, ◌≢◌, refl, arith,
}
use psmoveinput.Common.{KeyMap, MoveCoeffs}
use psmoveinput.KeyMapParser.{Macros, find, psmap, linmap, create_entry}
use psmoveinput.KeyMapParser.Entries.{create_entry_valid}
use psmoveinput.Config.State.{word, Options, parsed, System, Config, new}
use psmoveinput.Config.Parse.{
  ◌>>=◌, file_settings, file_numbers, set_pidfile, set_loglevel, set_logfile, set_mode, set_cx,
  set_cy, set_poll_timeout, set_conn_timeout, set_disconnect_timeout, set_led_timeout,
  set_gesture_timeout, set_move_threshold, set_gesture_threshold,
}
use psmoveinput.Config.Keys.{
  parse_config, parse_options, key_options, key_round, key_value, add_entry, is_valid_entry,
  is_key_option, is_first_option,
}
use psmoveinput.Config.Steps.{KeepsSet}
use psmoveinput.Config.Precedence.{parse_config-KeepsSet}
use psmoveinput.Config.Collect.{Makes, first_names, second_names, parse_options_collects}
use psmoveinput.KeyMapParser.Tables.{IsListed, buttons, keys}

abbrev macros : Macros
macros = record { button = λ name. 16; key = λ name. 30; key_reserved = 0; key_max = 767 }

abbrev file_options : Options ℤ
file_options name = if str_eq name "LOG_FILE" then some (word "/var/log/a") else none

abbrev sys : System ℤ
sys = record {
  readable = λ file. true;
  home = none;
  command_line = parsed (λ name. none);
  config_file_options = λ file. parsed file_options;
  bad_cast = "bad cast";
}

abbrev coeffs : MoveCoeffs ℤ
coeffs = record { cx = pos 1; cy = pos 1 }

-- The command line has set the log file.
abbrev config : Config ℤ
config = record (new none coeffs) { logfile = "/tmp/b"; logfile_set = true; ok = true }

parse_config-KeepsSet_example : KeepsSet config (parse_config macros sys config)
parse_config-KeepsSet_example = parse_config-KeepsSet macros sys config

-- A file with one key option.
abbrev key_file : Options ℤ
key_file name = if str_eq name "PSBTN_T" then some (word "KEY_A") else none

key_file_ok : (parse_options macros sys (parsed key_file) config).ok ≡ true
unfolding parse_options file_settings file_numbers ◌>>=◌ key_options key_round key_value add_entry
    is_valid_entry is_key_option is_first_option create_entry find psmap linmap set_pidfile
    set_loglevel set_logfile set_mode set_cx set_cy set_poll_timeout set_conn_timeout
    set_disconnect_timeout set_led_timeout set_gesture_timeout set_move_threshold
    set_gesture_threshold new
key_file_ok = refl

parse_options_collects_example :
    let final = parse_options macros sys (parsed key_file) config in
    (m m' : KeyMap) × Makes macros sys key_file first_names m
    × Makes macros sys key_file second_names m'
    × (final.keymaps.fst ≡ config.keymaps.fst ++ m)
    × (final.keymaps.snd ≡ config.keymaps.snd ++ m')
parse_options_collects_example = parse_options_collects macros sys key_file config key_file_ok

buttons_differ : All (λ (p : String × ℕ). p.1 ≢ 0) (buttons macros)
buttons_differ = ground arith

keys_differ : All (λ (p : String × ℕ). p.1 ≢ 0) (keys macros)
keys_differ = ground arith

create_entry_valid_example :
    let entry = create_entry macros "PSBTN_T" "KEY_A" in
    (entry.pscode ≢ 0
      → entry.lincode ≢ 0
      → IsListed "PSBTN_T" entry.pscode (buttons macros)
        × IsListed "KEY_A" entry.lincode (keys macros))
    × ((button code : ℕ)
        → IsListed "PSBTN_T" button (buttons macros)
        → IsListed "KEY_A" code (keys macros)
        → (entry ≡ record { pscode = button; lincode = code }) × (button ≢ 0) × (code ≢ 0))
create_entry_valid_example = create_entry_valid macros "PSBTN_T" "KEY_A" buttons_differ keys_differ
