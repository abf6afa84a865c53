-- ===== src/Config/Keys.antt =====
-- config.cpp: the key options of `parseConfig`, and the function `parse` that joins all parts.
use Prim.Native.String.{String}
use text.Mathlib.Text.{◌==◌ as str_eq}
use psmoveinput.Prelude.{
  Bool, false, ◌&&◌, ◌||◌, not, ◌==◌, if◌then◌else◌, List, [], ◌∷◌, ◌++◌, none, some,
}
use psmoveinput.Common.{KeyMapEntry}
use psmoveinput.KeyMapParser.{Macros, create_entry}
use psmoveinput.Config.State.{
  Value, word, Options, Parsed, parsed, failed, System, Config, config_file_ok,
}
use psmoveinput.Config.Parse.{
  Exec, done, threw, ◌>>=◌, handle_cmd_line, file_settings, file_numbers,
}

-- The long names of `configdesc_`, in the order of its `add_options`.
abbrev pub config_options : List String
config_options =
    "PID_FILE" ∷ "LOG_LEVEL" ∷ "LOG_FILE" ∷ "MOVE_COEFF_X" ∷ "MOVE_COEFF_Y" ∷ "PSBTN_TRIANGLE"
    ∷ "PSBTN_CIRCLE" ∷ "PSBTN_CROSS" ∷ "PSBTN_SQUARE" ∷ "PSBTN_SELECT" ∷ "PSBTN_START" ∷ "PSBTN_PS"
    ∷ "PSBTN_MOVE" ∷ "PSBTN_T" ∷ "PSBTN_1_TRIANGLE" ∷ "PSBTN_1_CIRCLE" ∷ "PSBTN_1_CROSS"
    ∷ "PSBTN_1_SQUARE" ∷ "PSBTN_1_SELECT" ∷ "PSBTN_1_START" ∷ "PSBTN_1_PS" ∷ "PSBTN_1_MOVE"
    ∷ "PSBTN_1_T" ∷ "MODE" ∷ "POLL_TIMEOUT" ∷ "CONN_TIMEOUT" ∷ "DISCONNECT_TIMEOUT"
    ∷ "LED_UPDATE_TIMEOUT" ∷ "MOVE_THRESHOLD" ∷ "GESTURE_UP" ∷ "GESTURE_DOWN" ∷ "GESTURE_LEFT"
    ∷ "GESTURE_RIGHT" ∷ "GESTURE_THRESHOLD" ∷ "GESTURE_TIMEOUT" ∷ []

abbrev one_of : String → List String → Bool
one_of name [] = false
one_of name (n ∷ rest) = str_eq name n || one_of name rest

-- The options that the loop leaves out.
abbrev pub other_options : List String
other_options =
    "PID_FILE" ∷ "LOG_LEVEL" ∷ "LOG_FILE" ∷ "MOVE_COEFF_X" ∷ "MOVE_COEFF_Y" ∷ "MODE"
    ∷ "POLL_TIMEOUT" ∷ "CONN_TIMEOUT" ∷ "DISCONNECT_TIMEOUT" ∷ "LED_UPDATE_TIMEOUT"
    ∷ "MOVE_THRESHOLD" ∷ "GESTURE_THRESHOLD" ∷ "GESTURE_TIMEOUT" ∷ []

-- The options of the first controller.
abbrev pub first_options : List String
first_options =
    "PSBTN_TRIANGLE" ∷ "PSBTN_CIRCLE" ∷ "PSBTN_CROSS" ∷ "PSBTN_SQUARE" ∷ "PSBTN_SELECT"
    ∷ "PSBTN_START" ∷ "PSBTN_PS" ∷ "PSBTN_MOVE" ∷ "PSBTN_T" ∷ []

unfoldable pub is_key_option : String → Bool
is_key_option name = not (one_of name other_options)

unfoldable pub is_first_option : String → Bool
is_first_option name = one_of name first_options

module _ {D : Type 0} (macros : Macros) (sys : System D) where
  -- `(entry.pscode != 0) && (entry.lincode != KEY_RESERVED)`.
  unfoldable pub is_valid_entry : KeyMapEntry → Bool
  is_valid_entry entry = not (entry.pscode == 0) && not (entry.lincode == macros.key_reserved)

  -- `push_back` into the key map of the option's controller.
  unfoldable pub add_entry : String → KeyMapEntry → Config D → Config D
  add_entry name entry c =
      if is_first_option name
      then record c { keymaps = record (c.keymaps) { fst = c.keymaps.fst ++ entry ∷ [] } }
      else record c { keymaps = record (c.keymaps) { snd = c.keymaps.snd ++ entry ∷ [] } }

  -- One round of the loop over `configdesc_`: go on with the next option, or leave the loop.
  pub data Round : Type 0 where
    next : Config D → Round
    leave : Exec D → Round

  unfoldable pub key_value : String → Value D → Config D → Round
  key_value name (word s) c =
      let entry = create_entry macros name s in
      if is_valid_entry entry
      then next (add_entry name entry c)
      else leave (done (record c { ok = false }))
  key_value name _ c = leave (threw sys.bad_cast c)

  unfoldable pub key_round : Options D → String → Config D → Round
  key_round opts name c =
      if is_key_option name
      then elim (opts name) [ none ↦ next c | some v ↦ key_value name v c ]
      else next c

  unfoldable pub key_options : Options D → List String → Config D → Exec D
  key_options opts [] c = done c
  key_options opts (name ∷ rest) c = elim (key_round opts name c) [
    | next c' ↦ key_options opts rest c'
    | leave e ↦ e
  ]

  -- The `try` block of `parseConfig` with its handlers.
  unfoldable pub parse_options : Parsed D → Config D → Config D
  parse_options (failed msg) c = record c { message = msg; ok = false }
  parse_options (parsed opts) c =
      elim (file_settings sys opts c
        >>= file_numbers sys opts
        >>= key_options opts config_options) [
          | done c' ↦ c'
          | threw msg c' ↦ record c' { message = msg; ok = false }
        ]

  -- `parseConfig`.
  unfoldable pub parse_config : Config D → Config D
  parse_config c =
      let (c', readable) = config_file_ok sys c in
      if readable then parse_options (sys.config_file_options c'.config_file) c' else c'

  abbrev parse_file_if_ok : Config D → Config D
  parse_file_if_ok c = if c.ok then parse_config c else c

  abbrev parse_command_line : Parsed D → Config D → Config D
  parse_command_line (failed msg) c = record c { message = msg }
  parse_command_line (parsed opts) c = parse_file_if_ok (handle_cmd_line sys opts c)

  -- `parse`.
  unfoldable pub parse : Config D → Config D
  parse c = parse_command_line sys.command_line c
